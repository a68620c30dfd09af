-- ===== src/Fs/Dir.antt =====
-- The root directory of kernel/fs.c: looking for a file and creating one. A directory entry is 32
-- bytes: its name in the first 11, its attributes in byte 11, its cluster in bytes 20, 21, 26 and 27,
-- and its size from byte 28 on. A path is the list of its characters.
use os.Base.{
  ℕ, zero, suc, ◌+◌, ◌-◌, ◌*◌, ◌/◌, ◌%◌, ◌^◌, Bool, true, false, not, ◌&&◌, ◌||◌, Option, none,
  some, List, [], ◌∷◌, ◌==◌, ltb, leb, if◌then◌else◌, get_or, ℤ, pos, minus_one,
}
use os.Fs.{
  Fs, File, Disk, u32, le16, le32, put32, read_sector, write_sector, end_of_chain, cluster_valid,
  cluster_to_sector,
}
use os.Fs.Names.{name_matches, new_name}
use os.Fs.Table.{next_cluster, fat_set, alloc_cluster}

-- entries[i].name
abbrev pub name_at : (ℕ → ℕ) → ℕ → ℕ → ℕ
name_at buf i j = buf (i * 32 + j)

-- entries[i].attr & 0x18
abbrev pub is_special : (ℕ → ℕ) → ℕ → Bool
is_special buf i = not (buf (i * 32 + 11) / 8 % 4 == 0)

-- The file that entry `i` describes, in sector `s` of a cluster of the directory.
abbrev pub file_of : (ℕ → ℕ) → ℕ → ℕ → ℕ → File
file_of buf dir s i = record {
  cluster = le16 buf (i * 32 + 20) * 2 ^ 16 + le16 buf (i * 32 + 26);
  size = le32 buf (i * 32 + 28);
  pos = 0;
  dir_cluster = dir;
  dir_sector = s;
  dir_index = i;
}

-- The loop of `fs_open` over the entries of a sector, from entry `i` on: the index of the first match.
unfoldable pub find_entry : ℕ → ℕ → List ℕ → (ℕ → ℕ) → Option ℕ
find_entry zero i path buf = none
find_entry (suc n) i path buf =
    let rest = find_entry n (suc i) path buf in
    if buf (i * 32) == 0
    then none
    else if (buf (i * 32) == 229) || is_special buf i
    then rest
    else if name_matches path (name_at buf i)
    then some i
    else rest

-- Where a search stands: at a file, at the end of what it looked at, or at an error.
pub data Search : Type 0 where
  found : File → Search
  missing : Search
  broken : Search

abbrev pub or_else : Search → Search → Search
or_else (found file) rest = found file
or_else missing rest = rest
or_else broken rest = broken

abbrev pub entry_found : (ℕ → ℕ) → ℕ → ℕ → Option ℕ → Search
entry_found buf dir s none = missing
entry_found buf dir s (some i) = found (file_of buf dir s i)

unfoldable pub open_sector : List ℕ → ℕ → ℕ → Option (ℕ → ℕ) → Search
unfolding find_entry
open_sector path dir s none = broken
open_sector path dir s (some buf) = entry_found buf dir s (find_entry 16 0 path buf)

-- The loop of `fs_open` over the sectors of a cluster, `n` of them from sector `s` on.
unfoldable pub open_sectors : ℕ → ℕ → List ℕ → ℕ → Fs → Search
unfolding open_sector
open_sectors zero s path dir fs = missing
open_sectors (suc n) s path dir fs =
    or_else (open_sector path dir s (read_sector (u32 (cluster_to_sector dir fs + s)) fs.disk))
      (open_sectors n (suc s) path dir fs)

-- A cluster that does not lie in the volume.
abbrev pub out_of_volume : ℕ → Fs → Bool
out_of_volume sector fs =
    (sector == 2 ^ 32 - 1)
    || leb fs.total_sectors sector
    || ltb (fs.total_sectors - sector) fs.sectors_per_cluster

-- The loop of `fs_open` over the clusters of the root directory.
unfoldable pub open_clusters : ℕ → List ℕ → ℕ → Fs → Search
unfolding open_sectors
open_clusters zero path dir fs = missing
open_clusters (suc n) path dir fs =
    let next = next_cluster dir fs in
    let rest = open_clusters n path next fs in
    if not (cluster_valid dir fs)
    then missing
    else if out_of_volume (cluster_to_sector dir fs) fs
    then broken
    else or_else (open_sectors fs.sectors_per_cluster 0 path dir fs)
        (if next == end_of_chain then missing else rest)

-- while (path[0] == '/') path++
unfoldable pub strip_slashes : List ℕ → List ℕ
strip_slashes [] = []
strip_slashes (c ∷ path) = let rest = strip_slashes path in if c == 47 then rest else c ∷ path

abbrev pub opened : Search → Option File
opened (found file) = some file
opened missing = none
opened broken = none

-- `fs_open` of a path that is not NULL: none is -1.
unfoldable pub open_path : List ℕ → Fs → Option File
unfolding strip_slashes open_clusters
open_path path fs =
    if not fs.mounted
    then none
    else opened (open_clusters fs.total_clusters (strip_slashes path) fs.root_cluster fs)

-- Where the loops of `fs_create` stand: with the first deleted entry so far, out of them with a slot,
-- or with -1.
pub data Slots : Type 0 where
  looking : Option (ℕ × ℕ) → Slots
  ended : Option (ℕ × ℕ) → Slots
  refused : Slots

abbrev pub keep_slot : Option (ℕ × ℕ) → Bool → ℕ × ℕ → Option (ℕ × ℕ)
keep_slot (some slot) deleted here = some slot
keep_slot none deleted here = if deleted then some here else none

-- The entries of a sector, from entry `i` on.
unfoldable pub slot_in : ℕ → ℕ → List ℕ → ℕ → (ℕ → ℕ) → Option (ℕ × ℕ) → Slots
slot_in zero i path sector buf free = looking free
slot_in (suc n) i path sector buf free =
    let rest =
      slot_in n (suc i) path sector buf (keep_slot free (buf (i * 32) == 229) (sector, i)) in
    if buf (i * 32) == 0
    then ended (some (sector, i))
    else if name_matches path (name_at buf i)
    then refused
    else rest

unfoldable pub slot_sector : List ℕ → ℕ → Option (ℕ → ℕ) → Option (ℕ × ℕ) → Slots
unfolding slot_in
slot_sector path sector none free = refused
slot_sector path sector (some buf) free = slot_in 16 0 path sector buf free

-- The sectors of a cluster, from sector `s` on, and the clusters.
unfoldable pub slot_sectors : ℕ → ℕ → List ℕ → ℕ → Fs → Slots → Slots
unfolding slot_sector
slot_sectors zero s path dir fs at = at
slot_sectors (suc n) s path dir fs refused = refused
slot_sectors (suc n) s path dir fs (ended slot) = ended slot
slot_sectors (suc n) s path dir fs (looking free) =
    let sector = u32 (cluster_to_sector dir fs + s) in
    slot_sectors n (suc s) path dir fs (slot_sector path sector (read_sector sector fs.disk) free)

unfoldable pub slot_clusters : ℕ → List ℕ → ℕ → Fs → Slots → Slots
unfolding slot_sectors
slot_clusters zero path dir fs at = at
slot_clusters (suc n) path dir fs refused = refused
slot_clusters (suc n) path dir fs (ended slot) = ended slot
slot_clusters (suc n) path dir fs (looking free) =
    let next = next_cluster dir fs in
    let after = slot_sectors fs.sectors_per_cluster 0 path dir fs (looking free) in
    let rest = slot_clusters n path next fs after in
    if not (cluster_valid dir fs)
    then looking free
    else if out_of_volume (cluster_to_sector dir fs) fs
    then refused
    else if next == end_of_chain
    then after
    else rest

-- Byte `j` of a new entry, and a sector with the entry in place.
unfoldable pub new_entry : List ℕ → ℕ → ℕ → ℕ
new_entry path c j =
    if ltb j 11
    then get_or (new_name path) j 0
    else if j == 11
    then 32
    else if j == 20
    then c / 2 ^ 16 % 256
    else if j == 21
    then c / 2 ^ 24 % 256
    else if j == 26
    then c % 256
    else if j == 27
    then c / 2 ^ 8 % 256
    else 0

unfoldable pub put_entry : List ℕ → ℕ → ℕ → (ℕ → ℕ) → ℕ → ℕ
unfolding new_entry
put_entry path c i buf j =
    if leb (i * 32) j && ltb j (i * 32 + 32) then new_entry path c (j - i * 32) else buf j

-- The end of `fs_create`: a failed write gives the cluster back.
abbrev pub entry_written : ℕ → Fs → Option Disk → ℤ × Fs
entry_written c fs none = (minus_one, (fat_set c 0 fs).1)
entry_written c fs (some d) = (pos 0, record fs { disk = d })

abbrev pub write_entry : List ℕ → ℕ → ℕ × ℕ → Fs → Option (ℕ → ℕ) → ℤ × Fs
write_entry path c slot fs none = (minus_one, fs)
write_entry path c slot fs (some buf) =
    entry_written c fs (write_sector slot.0 (put_entry path c slot.1 buf) fs.disk)

abbrev pub fill_slot : List ℕ → ℕ × ℕ → ℕ × Fs → ℤ × Fs
fill_slot path slot (c, fs) =
    if c == 0 then (minus_one, fs) else write_entry path c slot fs (read_sector slot.0 fs.disk)

abbrev pub create_in : List ℕ → Fs → Slots → ℤ × Fs
create_in path fs (looking none) = (minus_one, fs)
create_in path fs (looking (some slot)) = fill_slot path slot (alloc_cluster fs)
create_in path fs (ended none) = (minus_one, fs)
create_in path fs (ended (some slot)) = fill_slot path slot (alloc_cluster fs)
create_in path fs refused = (minus_one, fs)

abbrev pub is_empty : List ℕ → Bool
is_empty [] = true
is_empty (c ∷ path) = false

-- `fs_create`, the path not NULL.
unfoldable pub create : List ℕ → Fs → ℤ × Fs
unfolding strip_slashes slot_clusters
create path fs =
    if not fs.mounted || is_empty path
    then (minus_one, fs)
    else create_in (strip_slashes path) fs
        (slot_clusters fs.total_clusters (strip_slashes path) fs.root_cluster fs (looking none))

abbrev pub size_written : Fs → Option Disk → Bool × Fs
size_written fs none = (false, fs)
size_written fs (some d) = (true, record fs { disk = d })

abbrev pub update_size : File → ℕ → Fs → Option (ℕ → ℕ) → Bool × Fs
update_size file sector fs none = (false, fs)
update_size file sector fs (some buf) =
    size_written fs (write_sector sector (put32 buf (file.dir_index * 32 + 28) file.size) fs.disk)

-- `fs_update_dir_entry`; the index of an open file is not negative.
unfoldable pub update_dir_entry : File → Fs → Bool × Fs
update_dir_entry file fs =
    let sector = u32 (cluster_to_sector file.dir_cluster fs + file.dir_sector) in
    if file.dir_cluster == 0
    then (false, fs)
    else update_size file sector fs (read_sector sector fs.disk)
