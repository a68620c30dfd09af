-- ===== src/Fs/Table.antt =====
-- The file allocation table of kernel/fs.c.
pub mod Laws
pub mod Allocation
use os.Base.{
  ℕ, zero, suc, ◌+◌, ◌*◌, ◌/◌, ◌%◌, ◌^◌, Bool, true, false, not, ◌&&◌, ◌||◌, Option, none, some,
  ◌==◌, ltb, leb, if◌then◌else◌,
}
use os.Fs.{
  Fs, Disk, le32, put32, u32, read_sector, write_sector, sector_size, end_of_chain, cluster_valid,
}

abbrev pub fat_index : ℕ → ℕ
fat_index c = u32 (c * 4) / sector_size

abbrev pub fat_offset : ℕ → ℕ
fat_offset c = u32 (c * 4) % sector_size

-- fat_start + fat_sector_index
abbrev pub fat_sector : ℕ → Fs → ℕ
fat_sector c fs = u32 (fs.fat_start + fat_index c)

-- The 28 bits of an entry.
abbrev pub entry_in : ℕ → Option (ℕ → ℕ) → ℕ
entry_in at none = end_of_chain
entry_in at (some buf) = le32 buf at % 2 ^ 28

-- Free, reserved, bad and out-of-volume references end a chain.
abbrev pub link_of : ℕ → Fs → ℕ
link_of next fs =
    if ltb next 2 || leb 268435440 next || not (cluster_valid next fs) then end_of_chain else next

unfoldable pub next_cluster : ℕ → Fs → ℕ
next_cluster c fs =
    if not fs.mounted || not (cluster_valid c fs) || leb fs.fat_size (fat_index c)
    then end_of_chain
    else link_of (entry_in (fat_offset c) (read_sector (fat_sector c fs) fs.disk)) fs

unfoldable pub fat_get : ℕ → Fs → ℕ
fat_get c fs =
    if not fs.mounted || not (cluster_valid c fs) || leb fs.fat_size (fat_index c)
    then end_of_chain
    else if leb fs.total_sectors (fat_sector c fs)
    then end_of_chain
    else entry_in (fat_offset c) (read_sector (fat_sector c fs) fs.disk)

abbrev pub wrote : Fs → Option Disk → Bool × Fs
wrote fs none = (false, fs)
wrote fs (some d) = (true, record fs { disk = d })

abbrev pub change_word : ℕ → ℕ → ℕ → Fs → Option (ℕ → ℕ) → Bool × Fs
change_word sector at v fs none = (false, fs)
change_word sector at v fs (some buf) = wrote fs (write_sector sector (put32 buf at v) fs.disk)

-- Reading a sector, changing a word of it, and writing it.
unfoldable pub set_word : ℕ → ℕ → ℕ → Fs → Bool × Fs
set_word sector at v fs = change_word sector at v fs (read_sector sector fs.disk)

-- The second copy, if there is one.
unfoldable pub set_mirror : ℕ → ℕ → ℕ → Bool × Fs → Bool × Fs
unfolding set_word
set_mirror sector at v (false, fs) = (false, fs)
set_mirror sector at v (true, fs) =
    if ltb fs.num_fats 2
    then (true, fs)
    else if leb fs.total_sectors (sector + fs.fat_size)
    then (false, fs)
    else set_word (sector + fs.fat_size) at v fs

-- value != 0 && value < 0x0FFFFFF8 && !cluster_valid(value)
abbrev pub bad_link : ℕ → Fs → Bool
bad_link v fs = not (v == 0) && ltb v 268435448 && not (cluster_valid v fs)

unfoldable pub fat_set : ℕ → ℕ → Fs → Bool × Fs
unfolding set_mirror set_word
fat_set c value fs =
    let v = value % 2 ^ 28 in
    if not fs.mounted || not (cluster_valid c fs)
    then (false, fs)
    else if bad_link v fs || leb fs.fat_size (fat_index c) || leb fs.total_sectors (fat_sector c fs)
    then (false, fs)
    else set_mirror (fat_sector c fs) (fat_offset c) v
        (set_word (fat_sector c fs) (fat_offset c) v fs)

abbrev pub allocated : ℕ → Bool × Fs → ℕ × Fs
allocated c (ok, fs) = if ok then (c, fs) else (0, fs)

-- The loop of `fat_alloc_cluster` from cluster `c` on, with the number that is left.
unfoldable pub alloc_from : ℕ → ℕ → Fs → ℕ × Fs
unfolding fat_get fat_set
alloc_from zero c fs = (0, fs)
alloc_from (suc n) c fs =
    let rest = alloc_from n (suc c) fs in
    if fat_get c fs == 0 then allocated c (fat_set c end_of_chain fs) else rest

unfoldable pub alloc_cluster : Fs → ℕ × Fs
unfolding alloc_from
alloc_cluster fs = alloc_from fs.total_clusters 2 fs
