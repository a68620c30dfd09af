-- ===== src/Fs/Tests.antt =====
-- A small volume of kernel/fs.c, with runs of its functions, and the theorems about it at this volume.
use os.Base.{
  ℕ, ◌+◌, ◌*◌, ◌≤◌, ◌%◌, ◌<◌, ◌≡◌, ◌≢◌, refl, ◌⊎◌, true, ◌&&◌, Option, none, some, List, [], ◌∷◌,
  ◌++◌, ◌==◌, ltb, leb, if◌then◌else◌, arith, get_or, slice, pos, minus_one,
}
use os.Fs.{Fs, File, Disk, u32, init, mount, volume_of, cluster_to_sector, end_of_chain, put32}
use os.Fs.Table.{fat_get, fat_set, alloc_cluster, next_cluster, alloc_from, set_word, set_mirror}
use os.Fs.Table.Laws.{SetEntry, fat_set-SetEntry}
use os.Fs.Table.Allocation.{Allocation, Failure, alloc_cluster_lem}
use os.Fs.Geometry.{IsValid, init-IsValid, cluster_to_sector-apart}
use os.Fs.Dir.{
  open_path, create, open_clusters, open_sectors, open_sector, slot_clusters, slot_sectors,
  slot_sector, slot_in, find_entry, put_entry, new_entry, strip_slashes,
}
use os.Fs.Names.{
  new_name, name_matches, match_base, match_rest, match_extension, padded_extension, all_spaces,
  base_chars, extension_part, extension_chars, pad,
}
use os.Fs.Names.Laws.{extension, name_matches-new_name}
use os.Fs.Data.{read}
use os.Fs.Data.Bytes.{file_bytes}
use os.Fs.Data.Reading.{read-file_bytes}

-- 20 sectors of one cluster each: the boot sector, two tables of one sector, and 17 clusters.
abbrev boot : ℕ → ℕ
boot i =
    if i == 12
    then 2
    else if i == 13
    then 1
    else if i == 14
    then 1
    else if i == 16
    then 2
    else if i == 32
    then 20
    else if i == 36
    then 1
    else if i == 44
    then 2
    else if i == 82
    then 70
    else if i == 83
    then 65
    else if i == 84
    then 84
    else if i == 85
    then 51
    else if i == 86
    then 50
    else 0

-- Clusters 2 and 4 are the ends of chains, and 3 goes on to 4.
abbrev table : ℕ → ℕ
table = put32 (put32 (put32 (λ i. 0) 8 end_of_chain) 12 4) 16 end_of_chain

abbrev sectors : ℕ → ℕ → ℕ
sectors n i =
    if n == 0
    then boot i
    else if leb 1 n && ltb n 3
    then table i
    else if n == 3
    then 0
    else (n + i) % 256

abbrev disk : Disk
disk = record { sectors = sectors; readable = λ n. ltb n 20; writable = λ n. ltb n 20 }

abbrev volume : Fs
volume = volume_of boot disk

boot_bytes : (i : ℕ) → boot i < 256
boot_bytes i = ground arith

init_works : init disk ≡ some volume
unfolding init mount
init_works = refl

volume-IsValid : IsValid volume
volume-IsValid = (init-IsValid disk volume boot_bytes init_works).0

init-IsValid_example : IsValid volume × (volume.disk ≡ disk)
init-IsValid_example = init-IsValid disk volume boot_bytes init_works

cluster_to_sector-apart_example :
    (u32 (cluster_to_sector 3 volume + 0) < 20)
    × (volume.fat_start + volume.num_fats * volume.fat_size ≤ u32 (cluster_to_sector 3 volume + 0))
    × (((◌≡◌ {A = ℕ} 3 4) × (◌≡◌ {A = ℕ} 0 0))
        ⊎ (u32 (cluster_to_sector 3 volume + 0) ≢ u32 (cluster_to_sector 4 volume + 0)))
cluster_to_sector-apart_example =
    cluster_to_sector-apart disk volume 3 0 4 0 boot_bytes init_works refl (omega arith) refl
      (omega arith)

set_5 : fat_set 5 end_of_chain volume ≡ (true, (fat_set 5 end_of_chain volume).1)
unfolding fat_set
set_5 = refl

fat_set-SetEntry_example : SetEntry 5 end_of_chain volume (fat_set 5 end_of_chain volume).1
fat_set-SetEntry_example =
    fat_set-SetEntry 5 end_of_chain volume (fat_set 5 end_of_chain volume).1 volume-IsValid set_5

alloc_cluster_lem_example :
    Allocation volume (alloc_cluster volume).1 (alloc_cluster volume).0
    ⊎ (((alloc_cluster volume).0 ≡ 0) × Failure volume (alloc_cluster volume).1)
alloc_cluster_lem_example = alloc_cluster_lem volume volume-IsValid

-- The first free cluster is 5.
alloc_5 : (alloc_cluster volume).0 ≡ 5
unfolding alloc_cluster fat_set
alloc_5 = refl

-- A file of 600 bytes in clusters 3 and 4, read across their border.
abbrev file : File
file = record { cluster = 3; size = 600; pos = 510; dir_cluster = 2; dir_sector = 0; dir_index = 0 }

abbrev contents : List ℕ
contents = slice (sectors 4) 0 512 ++ slice (sectors 5) 0 8

contents_there : file_bytes (510 + 10) 3 0 volume ≡ some contents
unfolding file_bytes next_cluster
contents_there = refl

read-file_bytes_example :
    read file 10 volume
    ≡ (some (2 ∷ 3 ∷ 5 ∷ 6 ∷ 7 ∷ 8 ∷ 9 ∷ 10 ∷ 11 ∷ 12 ∷ []), record file { pos = 520 })
read-file_bytes_example =
    read-file_bytes file 10 volume contents volume-IsValid (omega arith) (omega arith)
      contents_there

-- A.B is created in the empty directory, and is found then, with its cluster.
abbrev a_b : List ℕ
a_b = 97 ∷ 46 ∷ 98 ∷ []

abbrev found_cluster : Option File → ℕ
found_cluster none = 0
found_cluster (some f) = f.cluster

create_open :
    ((create a_b volume).0 ≡ pos 0) × (found_cluster (open_path a_b (create a_b volume).1) ≡ 5)
unfolding create open_path open_clusters open_sectors open_sector slot_clusters slot_sectors
    slot_sector slot_in find_entry put_entry new_entry new_name name_matches match_base match_rest
    match_extension padded_extension all_spaces base_chars extension_part extension_chars pad
    strip_slashes alloc_cluster alloc_from fat_get fat_set set_word set_mirror next_cluster
create_open = (refl, refl)

create_twice : (create a_b (create a_b volume).1).0 ≡ minus_one
unfolding create open_path open_clusters open_sectors open_sector slot_clusters slot_sectors
    slot_sector slot_in find_entry put_entry new_entry new_name name_matches match_base match_rest
    match_extension padded_extension all_spaces base_chars extension_part extension_chars pad
    strip_slashes alloc_cluster alloc_from fat_get fat_set set_word set_mirror next_cluster
create_twice = refl

abbrev abc : List ℕ
abc = 97 ∷ 98 ∷ 99 ∷ []

abbrev dot_txt : List ℕ
dot_txt = 46 ∷ 116 ∷ 120 ∷ 116 ∷ []

abbrev txt : List ℕ
txt = 116 ∷ 120 ∷ 116 ∷ []

name_matches-new_name_example :
    name_matches (abc ++ dot_txt) (λ i. get_or (new_name (abc ++ dot_txt)) i 0) ≡ true
name_matches-new_name_example =
    name_matches-new_name abc dot_txt txt
      (
        (λ e. absurd (omega (arith, e))),
        ((λ e. absurd (omega (arith, e))), ((λ e. absurd (omega (arith, e))), tt)),
      )
      (omega (arith)) (omega (arith)) (extension txt (omega (arith)))
