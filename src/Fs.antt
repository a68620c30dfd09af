-- ===== src/Fs.antt =====
-- kernel/fs.c: a FAT32 volume on a disk. The disk is a parameter of the state: the bytes of its
-- sectors, and which sectors `ata_read_sector` and `ata_write_sector` succeed on. A write that fails
-- changes nothing.
pub mod Names
pub mod Table
pub mod Dir
pub mod Data
pub mod Geometry
mod Tests
use os.Base.{
  ℕ, zero, suc, ◌+◌, ◌-◌, ◌*◌, ◌/◌, ◌%◌, ◌^◌, Bool, true, not, ◌&&◌, Option, none, some, ◌==◌, ltb,
  leb, if◌then◌else◌, update,
}

-- A sector is its 512 bytes, as a function.
pub record Disk : Type 0 where
  pub sectors : ℕ → ℕ → ℕ
  pub readable : ℕ → Bool
  pub writable : ℕ → Bool

-- The fields of `boot_sector` that the code uses, what `fs_init` computes from them, and the disk.
pub record Fs : Type 0 where
  pub mounted : Bool
  pub sectors_per_cluster : ℕ
  pub reserved_sectors : ℕ
  pub num_fats : ℕ
  pub fat_size : ℕ
  pub total_sectors : ℕ
  pub root_cluster : ℕ
  pub fat_start : ℕ
  pub data_start : ℕ
  pub total_clusters : ℕ
  pub disk : Disk

-- `file_t`
pub record File : Type 0 where
  pub cluster : ℕ
  pub size : ℕ
  pub pos : ℕ
  pub dir_cluster : ℕ
  pub dir_sector : ℕ
  pub dir_index : ℕ

abbrev pub sector_size : ℕ
sector_size = 512

abbrev pub u32 : ℕ → ℕ
u32 n = n % 2 ^ 32

-- Values in memory are little-endian.
abbrev pub le16 : (ℕ → ℕ) → ℕ → ℕ
le16 buf a = buf a + buf (a + 1) * 2 ^ 8

abbrev pub le32 : (ℕ → ℕ) → ℕ → ℕ
le32 buf a = buf a + buf (a + 1) * 2 ^ 8 + buf (a + 2) * 2 ^ 16 + buf (a + 3) * 2 ^ 24

abbrev pub put32 : (ℕ → ℕ) → ℕ → ℕ → ℕ → ℕ
put32 buf a v =
    update
      (update (update (update buf a (v % 256)) (a + 1) (v / 2 ^ 8 % 256)) (a + 2)
        (v / 2 ^ 16 % 256))
      (a + 3) (v / 2 ^ 24 % 256)

-- `ata_read_sector` and `ata_write_sector`
abbrev pub read_sector : ℕ → Disk → Option (ℕ → ℕ)
read_sector n d = if d.readable n then some (d.sectors n) else none

abbrev pub write_sector : ℕ → (ℕ → ℕ) → Disk → Option Disk
write_sector n buf d =
    if d.writable n then some (record d { sectors = update d.sectors n buf }) else none

-- The end of a chain of clusters, and what the code returns for errors on it.
abbrev pub end_of_chain : ℕ
end_of_chain = 268435455

abbrev pub cluster_valid : ℕ → Fs → Bool
cluster_valid c fs = leb 2 c && ltb c (fs.total_clusters + 2)

-- 0xFFFFFFFF for a cluster that is not valid
abbrev pub cluster_to_sector : ℕ → Fs → ℕ
cluster_to_sector c fs =
    if cluster_valid c fs
    then u32 (fs.data_start + u32 ((c - 2) * fs.sectors_per_cluster))
    else 2 ^ 32 - 1

-- a & b on `n` bits
unfoldable pub and_bits : ℕ → ℕ → ℕ → ℕ
and_bits zero a b = 0
and_bits (suc n) a b = a % 2 * (b % 2) + 2 * and_bits n (a / 2) (b / 2)

-- kstrncmp(boot_sector.fs_type, "FAT32", 5) == 0
abbrev pub is_fat32 : (ℕ → ℕ) → Bool
is_fat32 b = (b 82 == 70) && (b 83 == 65) && (b 84 == 84) && (b 85 == 51) && (b 86 == 50)

-- The checks of the geometry on the boot sector.
pub good_geometry : (ℕ → ℕ) → Bool
unfolding and_bits
good_geometry b =
    (le16 b 11 == sector_size)
    && not (b 13 == 0)
    && leb (b 13) 128
    && (and_bits 8 (b 13) (b 13 - 1) == 0)
    && not (le16 b 14 == 0)
    && not (b 16 == 0)
    && not (le32 b 36 == 0)
    && not (le32 b 32 == 0)

-- ((root_entries * 32) + 511) / 512
abbrev pub root_dir_sectors : (ℕ → ℕ) → ℕ
root_dir_sectors b = (le16 b 17 * 32 + 511) / sector_size

-- data_start_wide, on u64
abbrev pub data_start_of : (ℕ → ℕ) → ℕ
data_start_of b = le16 b 14 + b 16 * le32 b 36 + root_dir_sectors b

-- The volume that a boot sector describes.
abbrev pub volume_of : (ℕ → ℕ) → Disk → Fs
volume_of b d = record {
  mounted = true;
  sectors_per_cluster = b 13;
  reserved_sectors = le16 b 14;
  num_fats = b 16;
  fat_size = le32 b 36;
  total_sectors = le32 b 32;
  root_cluster = le32 b 44;
  fat_start = le16 b 14;
  data_start = data_start_of b;
  total_clusters = (le32 b 32 - data_start_of b) / b 13;
  disk = d;
}

-- The volume has room for the tables, the tables for the clusters, and the root is a cluster.
abbrev pub good_volume : (ℕ → ℕ) → Fs → Bool
good_volume b fs =
    ltb (data_start_of b) fs.total_sectors
    && leb fs.fat_size ((fs.total_sectors - fs.reserved_sectors) / fs.num_fats)
    && not (fs.total_clusters == 0)
    && leb fs.total_clusters 268435438
    && leb (fs.total_clusters + 2) (fs.fat_size * sector_size / 4)
    && cluster_valid fs.root_cluster fs

-- What `fs_init` makes of a boot sector: none is a volume that is not mounted. The fields that it
-- leaves set in that case are not read before the next call.
abbrev pub mount : (ℕ → ℕ) → Disk → Option Fs
unfolding good_geometry
mount b d =
    if is_fat32 b && good_geometry b && good_volume b (volume_of b d)
    then some (volume_of b d)
    else none

abbrev pub mount_read : Option (ℕ → ℕ) → Disk → Option Fs
mount_read none d = none
mount_read (some b) d = mount b d

pub init : Disk → Option Fs
init d = mount_read (read_sector 0 d) d
