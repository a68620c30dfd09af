-- ===== src/Fs/Data.antt =====
-- The contents of files in kernel/fs.c: reading, making room, and writing.
pub mod Bytes
pub mod Reading
use os.Base.{
  ℕ, zero, suc, ◌+◌, ◌-◌, ◌*◌, ◌/◌, ◌%◌, ◌^◌, Bool, true, false, not, ◌&&◌, ◌||◌, Option, none,
  some, List, [], ◌∷◌, ◌++◌, ◌==◌, ltb, leb, if◌then◌else◌, min, slice, drop, get_or, length, pos,
}
use os.Fs.{
  Fs, File, Disk, u32, sector_size, read_sector, write_sector, cluster_valid, cluster_to_sector,
}
use os.Fs.Table.{next_cluster, fat_get, fat_set, alloc_cluster}
use os.Fs.Dir.{update_dir_entry}

abbrev pub cluster_size : Fs → ℕ
cluster_size fs = fs.sectors_per_cluster * sector_size

-- next < 2 || next >= 0x0FFFFFF8
abbrev pub ends_chain : ℕ → Bool
ends_chain next = ltb next 2 || leb 268435448 next

-- The loop of `fs_read` that skips clusters: none is -1.
unfoldable pub skip : ℕ → ℕ → Fs → Option ℕ
skip zero c fs = some c
skip (suc n) c fs =
    let next = next_cluster c fs in
    let rest = skip n next fs in if ends_chain next then none else rest

-- The checks on the place of byte `offset` of a cluster. In both loops `sector_offset` is
-- offset / 512 where it is read.
abbrev pub bad_place : ℕ → ℕ → Fs → Bool
bad_place c offset fs =
    (cluster_to_sector c fs == 2 ^ 32 - 1)
    || leb fs.total_sectors (cluster_to_sector c fs)
    || leb fs.sectors_per_cluster (offset / sector_size)
    || leb fs.total_sectors (u32 (cluster_to_sector c fs + offset / sector_size))

abbrev pub sector_of : ℕ → ℕ → Fs → ℕ
sector_of c offset fs = u32 (cluster_to_sector c fs + offset / sector_size)

-- The bytes that one round moves: what is left, at most up to the end of the sector.
abbrev pub chunk : ℕ → ℕ → ℕ
chunk left offset = min left (sector_size - offset % sector_size)

abbrev pub with_bytes : List ℕ → Option (List ℕ) × ℕ → Option (List ℕ) × ℕ
with_bytes bytes (none, at) = (none, at)
with_bytes bytes (some more, at) = (some (bytes ++ more), at)

abbrev pub from_sector : ℕ → ℕ → ℕ → Option (List ℕ) × ℕ → Option (ℕ → ℕ) → Option (List ℕ) × ℕ
from_sector offset n at rest none = (none, at)
from_sector offset n at rest (some buf) = with_bytes (slice buf (offset % sector_size) n) rest

-- The loop of `fs_read` with `left` bytes to read: the bytes, none for -1, and the position. A round
-- reads at least one byte, so `left` rounds are enough.
unfoldable pub read_loop : ℕ → ℕ → ℕ → ℕ → ℕ → Fs → Option (List ℕ) × ℕ
read_loop zero c offset left at fs = (some [], at)
read_loop (suc f) c offset left at fs =
    let n = chunk left offset in
    let next = if leb (cluster_size fs) (offset + n) then next_cluster c fs else c in
    let next_offset = if leb (cluster_size fs) (offset + n) then 0 else offset + n in
    let rest = read_loop f next next_offset (left - n) (at + n) fs in
    if left == 0 || not (cluster_valid c fs)
    then (some [], at)
    else if bad_place c offset fs
    then (none, at)
    else from_sector offset n at rest (read_sector (sector_of c offset fs) fs.disk)

abbrev pub at_position : File → Option (List ℕ) × ℕ → Option (List ℕ) × File
at_position file (bytes, at) = (bytes, record file { pos = at })

unfoldable pub read_from : File → ℕ → Fs → Option ℕ → Option (List ℕ) × File
unfolding read_loop
read_from file n fs none = (none, file)
read_from file n fs (some c) =
    at_position file (read_loop n c (file.pos % cluster_size fs) n file.pos fs)

-- `fs_read` of `size` bytes: what it puts in the buffer, none for -1, and the file.
unfoldable pub read : File → ℕ → Fs → Option (List ℕ) × File
unfolding skip read_from
read file size fs =
    if not fs.mounted
    then (none, file)
    else if leb file.size file.pos
    then (some [], file)
    else if not (cluster_valid file.cluster fs)
    then (none, file)
    else read_from file (min size (file.size - file.pos)) fs
        (skip (file.pos / cluster_size fs) file.cluster fs)

-- The loop of `fs_extend` that goes to the last cluster.
unfoldable pub last_of : ℕ → ℕ → Fs → Option ℕ
last_of zero prev fs = some prev
last_of (suc n) prev fs =
    let next = fat_get prev fs in
    let rest = last_of n next fs in if cluster_valid next fs then rest else none

abbrev pub linked : ℕ → Bool × Fs → Option ℕ × Fs
linked next (ok, fs) = if ok then (some next, fs) else (none, fs)

abbrev pub link_new : ℕ → ℕ × Fs → Option ℕ × Fs
link_new prev (next, fs) = if next == 0 then (none, fs) else linked next (fat_set prev next fs)

-- Its loop that allocates clusters: what is left to do after a failure is nothing.
unfoldable pub grow : ℕ → Option ℕ × Fs → Bool × Fs
grow n (none, fs) = (false, fs)
grow zero (some prev, fs) = (true, fs)
grow (suc n) (some prev, fs) = grow n (link_new prev (alloc_cluster fs))

abbrev pub with_file : File → Bool × Fs → Bool × File × Fs
with_file file (ok, fs) = (ok, file, fs)

unfoldable pub grow_from : ℕ → File → Fs → Option ℕ → Bool × File × Fs
unfolding grow
grow_from n file fs none = (false, file, fs)
grow_from n file fs (some prev) = with_file file (grow n (some prev, fs))

abbrev pub first_cluster : ℕ → File → ℕ × Fs → Bool × File × Fs
first_cluster target file (c, fs) =
    if c == 0
    then (false, file, fs)
    else grow_from (target - 1) (record file { cluster = c }) fs (some c)

-- `fs_extend`
unfoldable pub extend : File → ℕ → Fs → Bool × File × Fs
unfolding last_of grow_from
extend file needed fs =
    let size = cluster_size fs in
    let current = (file.size + size - 1) / size in
    let target = (file.pos + needed + size - 1) / size in
    if (size == 0) || ltb (2 ^ 32 - 1 - file.pos) needed
    then (false, file, fs)
    else if ltb fs.total_clusters target
    then (false, file, fs)
    else if current == 0
    then (if cluster_valid file.cluster fs
        then grow_from (target - 1) file fs (some file.cluster)
        else first_cluster target file (alloc_cluster fs))
    else if not (cluster_valid file.cluster fs)
    then (false, file, fs)
    else grow_from (target - current) file fs (last_of (current - 1) file.cluster fs)

-- The loop of `fs_write` that skips clusters, which reads the table with `fat_get`.
unfoldable pub skip_written : ℕ → ℕ → Fs → Option ℕ
skip_written zero c fs = some c
skip_written (suc n) c fs =
    let next = fat_get c fs in
    let rest = skip_written n next fs in if ends_chain next then none else rest

-- Where `fs_write` stops: the number of bytes written, none for -1, and whether all were. Only then
-- is the directory entry updated.
pub record Written : Type 0 where
  pub result : Option ℕ
  pub complete : Bool
  pub file : File
  pub fs : Fs

-- written ? (int)written : -1
abbrev pub so_far : ℕ → Option ℕ
so_far written = if written == 0 then none else some written

-- The buffer before the bytes are copied in.
abbrev pub old_bytes : ℕ → ℕ → Disk → Option (ℕ → ℕ)
old_bytes offset sector d =
    if offset % sector_size == 0 then some (λ i. 0) else read_sector sector d

-- The buffer with `n` bytes of `src` from `offset` on.
abbrev pub copy_into : (ℕ → ℕ) → ℕ → ℕ → List ℕ → ℕ → ℕ
copy_into buf offset n src i =
    if leb offset i && ltb i (offset + n) then get_or src (i - offset) 0 else buf i

abbrev pub write_chunk : ℕ → ℕ → List ℕ → Disk → Option (ℕ → ℕ) → Option Disk
write_chunk sector offset src d none = none
write_chunk sector offset src d (some buf) =
    write_sector sector (copy_into buf (offset % sector_size) (chunk (length src) offset) src) d

abbrev pub advance : File → ℕ → File
advance file n =
    let at = file.pos + n in
    record file { pos = at; size = (if ltb file.size at then at else file.size) }

-- What follows `ata_write_sector`: -1 when it failed, else what `rest` makes of the disk.
abbrev pub after_write : File → Fs → (Disk → Written) → Option Disk → Written
after_write file fs rest none = record { result = none; complete = false; file = file; fs = fs }
after_write file fs rest (some d) = rest d

-- The loop goes past the end of a cluster with bytes left, and `next` is not a cluster.
abbrev pub is_lost : ℕ → ℕ → ℕ → Fs → Bool
is_lost next offset left fs =
    let n = chunk left offset in
    leb (cluster_size fs) (offset + n) && ltb n left && not (cluster_valid next fs)

abbrev pub lost_chain : ℕ → File → Fs → Written
lost_chain written file fs = record {
  result = some written;
  complete = false;
  file = file;
  fs = fs;
}

-- The inner loop with the bytes that are left, `written` of them gone. It ends with all bytes
-- written or with a return, so the outer loop goes round once. A round writes at least one byte, so
-- as many rounds as there are bytes are enough.
unfoldable pub write_loop : ℕ → ℕ → ℕ → ℕ → List ℕ → File → Fs → Written
write_loop zero c offset written src file fs = record {
  result = some written;
  complete = true;
  file = file;
  fs = fs;
}
write_loop (suc f) c offset written [] file fs = record {
  result = some written;
  complete = true;
  file = file;
  fs = fs;
}
write_loop (suc f) c offset written (b ∷ src) file fs =
    let n = chunk (suc (length src)) offset in
    let sector = sector_of c offset fs in
    let crossed = leb (cluster_size fs) (offset + n) in
    let next_offset = if crossed then 0 else offset + n in
    let rest : Disk → Written = λ d.
      let fs' = record fs { disk = d } in
      let next = fat_get c fs' in
      let more =
        write_loop f (if crossed then next else c) next_offset (written + n) (drop n (b ∷ src))
          (advance file n) fs' in
      if is_lost next offset (suc (length src)) fs'
      then lost_chain (written + n) (advance file n) fs'
      else more in
    if not (cluster_valid c fs) || bad_place c offset fs
    then record { result = so_far written; complete = false; file = file; fs = fs }
    else after_write file fs rest
        (write_chunk sector offset (b ∷ src) fs.disk (old_bytes offset sector fs.disk))

abbrev pub finish : Written → Option ℕ × File × Fs
finish w =
    if w.complete
    then (w.result, w.file, (update_dir_entry w.file w.fs).1)
    else (w.result, w.file, w.fs)

unfoldable pub write_from : List ℕ → File → Fs → Option ℕ → Option ℕ × File × Fs
unfolding write_loop
write_from src file fs none = (none, file, fs)
write_from src file fs (some c) =
    finish (write_loop (length src) c (file.pos % cluster_size fs) 0 src file fs)

unfoldable pub write_extended : List ℕ → Bool × File × Fs → Option ℕ × File × Fs
unfolding write_from skip_written
write_extended src (false, file, fs) = (none, file, fs)
write_extended src (true, file, fs) =
    write_from src file fs (skip_written (file.pos / cluster_size fs) file.cluster fs)

-- `fs_write` of a buffer of bytes: the number it returns, none for -1.
unfoldable pub write : List ℕ → File → Fs → Option ℕ × File × Fs
unfolding extend write_extended
write src file fs =
    if not fs.mounted || (length src == 0)
    then (none, file, fs)
    else write_extended src (extend file (length src) fs)
