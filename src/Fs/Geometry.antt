-- ===== src/Fs/Geometry.antt =====
-- The layout of a volume that `fs_init` of kernel/fs.c mounts.
use os.Base.{
  ℕ, suc, ◌+◌, ◌-◌, ◌*◌, ◌/◌, ◌^◌, ◌≤◌, ◌<◌, ◌≡◌, refl, sym, ap, subst, Bool, true, not, ◌&&◌, some,
  ◌==◌, ltb, leb, arith, Bool-cases, inl, inr, ◌⊎◌, ◌≢◌,
}
use mathlib.Core.Option.{some-injective}
use native.Mathlib.Nat.{mul-le-mul_right}
use os.Fs.Table.{fat_index, fat_sector}
use os.Fs.{
  Fs, Disk, u32, le16, le32, and_bits, is_fat32, good_geometry, good_volume, data_start_of,
  volume_of, mount, init, cluster_valid, cluster_to_sector,
}

-- A volume whose tables and clusters lie one after the other within its sectors: the reserved
-- sectors, the tables, and the clusters from `data_start` on; every cluster has an entry in the table.
pub record IsValid (fs : Fs) : Type 0 where
  pub is_mounted : fs.mounted ≡ true
  pub sectors_fit : fs.total_sectors < 2 ^ 32
  pub cluster_sectors : 0 < fs.sectors_per_cluster
  pub small_clusters : fs.sectors_per_cluster ≤ 128
  pub some_fats : 0 < fs.num_fats
  pub tables_fit : fs.fat_start + fs.num_fats * fs.fat_size ≤ fs.data_start
  pub clusters_fit : fs.data_start + fs.total_clusters * fs.sectors_per_cluster ≤ fs.total_sectors
  pub entries_fit : (fs.total_clusters + 2) * 4 ≤ fs.fat_size * 512
  pub few_clusters : fs.total_clusters ≤ 268435438
  pub boot_sector_apart : 0 < fs.fat_start
  pub root_valid : cluster_valid fs.root_cluster fs ≡ true

pub mul_mono : (i n k : ℕ) → i < n → i * k + k ≤ n * k
mul_mono i n k h = omega (arith, mul-le-mul_right {m = suc i} {n = n} k h, suc_times i k)
  where
    suc_times : (i k : ℕ) → suc i * k ≡ i * k + k
    suc_times i k = omega arith

div_fits : (a b : ℕ) → a / b * b ≤ a
div_fits a b = omega arith

le_bytes : (b : ℕ → ℕ) (a : ℕ) → ((i : ℕ) → b i < 256) → le32 b a < 2 ^ 32
le_bytes b a h = omega (arith, h a, h (a + 1), h (a + 2), h (a + 3))

all_of_three : (a b c : Bool) → (a && b && c) ≡ true → (a ≡ true) × (b ≡ true) × (c ≡ true)
all_of_three a b c h = ground arith

all_of_six :
    (a b c d e f : Bool)
    → (a && b && c && d && e && f) ≡ true
    → (a ≡ true) × (b ≡ true) × (c ≡ true) × (d ≡ true) × (e ≡ true) × (f ≡ true)
all_of_six a b c d e f h = ground arith

-- The checks of the geometry that the layout rests on.
geometry_parts :
    (b : ℕ → ℕ) → good_geometry b ≡ true → (0 < b 13) × (b 13 ≤ 128) × (0 < le16 b 14) × (0 < b 16)
unfolding good_geometry
geometry_parts b g =
    let power = and_bits 8 (b 13) (b 13 - 1) == 0 in
    let head = (le16 b 11 == 512) && not (b 13 == 0) && leb (b 13) 128 in
    let (h, p, reserved, fats, size, sectors) =
      all_of_six head power (not (le16 b 14 == 0)) (not (b 16 == 0)) (not (le32 b 36 == 0))
        (not (le32 b 32 == 0)) g in
    let (bytes, least, most) =
      all_of_three (le16 b 11 == 512) (not (b 13 == 0)) (leb (b 13) 128) h in
    (
      positive (b 13) least,
      at_most (b 13) 128 most,
      positive (le16 b 14) reserved,
      positive (b 16) fats,
    )
  where
    positive : (n : ℕ) → not (n == 0) ≡ true → 0 < n
    positive n h = ground arith

    at_most : (m n : ℕ) → leb m n ≡ true → m ≤ n
    at_most m n h = ground arith

volume_parts :
    (b : ℕ → ℕ) (fs : Fs)
    → good_volume b fs ≡ true
    → (data_start_of b < fs.total_sectors)
      × (fs.total_clusters ≤ 268435438)
      × ((fs.total_clusters + 2) * 4 ≤ fs.fat_size * 512)
      × (cluster_valid fs.root_cluster fs ≡ true)
volume_parts b fs v =
    let (first, tables, some_clusters, few, entries, root) =
      all_of_six (ltb (data_start_of b) fs.total_sectors)
        (leb fs.fat_size ((fs.total_sectors - fs.reserved_sectors) / fs.num_fats))
        (not (fs.total_clusters == 0)) (leb fs.total_clusters 268435438)
        (leb (fs.total_clusters + 2) (fs.fat_size * 512 / 4)) (cluster_valid fs.root_cluster fs)
        v in
    (
      below (data_start_of b) fs.total_sectors first,
      at_most fs.total_clusters 268435438 few,
      fits fs.total_clusters fs.fat_size entries,
      root,
    )
  where
    below : (m n : ℕ) → ltb m n ≡ true → m < n
    below m n h = ground arith

    at_most : (m n : ℕ) → leb m n ≡ true → m ≤ n
    at_most m n h = ground arith

    fits : (n m : ℕ) → leb (n + 2) (m * 512 / 4) ≡ true → (n + 2) * 4 ≤ m * 512
    fits n m h = ground arith

volume-IsValid :
    (b : ℕ → ℕ) (d : Disk)
    → ((i : ℕ) → b i < 256)
    → good_geometry b ≡ true
    → good_volume b (volume_of b d) ≡ true
    → IsValid (volume_of b d)
unfolding good_geometry
volume-IsValid b d bytes g v =
    let (least, most, reserved, fats) = geometry_parts b g in
    let (first, few, entries, root) = volume_parts b (volume_of b d) v in
    record {
      is_mounted = refl;
      sectors_fit = le_bytes b 32 bytes;
      cluster_sectors = least;
      small_clusters = most;
      some_fats = fats;
      tables_fit = omega arith;
      clusters_fit = omega (arith, first, div_fits (le32 b 32 - data_start_of b) (b 13));
      entries_fit = entries;
      few_clusters = few;
      boot_sector_apart = reserved;
      root_valid = root;
    }

-- A volume that `fs_init` mounts from a disk whose first sector holds bytes has its reserved sectors,
-- its tables and its clusters one after the other within its sectors, an entry in the table for every
-- cluster, and a root directory at a valid cluster.
pub init-IsValid :
    (d : Disk) (fs : Fs)
    → ((i : ℕ) → d.sectors 0 i < 256)
    → init d ≡ some fs
    → IsValid fs × (fs.disk ≡ d)
unfolding init mount
init-IsValid d fs bytes e = elim (Bool-cases (d.readable 0)) [
  | inl r ↦ mounted (d.sectors 0) bytes (simp (init, r) at e)
  | inr n ↦ absurd (cc (simp (init, n) at e))
]
  where
    conj : (a b : Bool) → (a && b) ≡ true → (a ≡ true) × (b ≡ true)
    conj a b h = ground arith

    mounted : (b : ℕ → ℕ) → ((i : ℕ) → b i < 256) → mount b d ≡ some fs → IsValid fs × (fs.disk ≡ d)
    mounted b h f =
        elim (Bool-cases (is_fat32 b && good_geometry b && good_volume b (volume_of b d))) [
          | inl good ↦
              let (header, room) =
                conj (is_fat32 b && good_geometry b) (good_volume b (volume_of b d)) good in
              let (kind, geometry) = conj (is_fat32 b) (good_geometry b) header in
              let same : volume_of b d ≡ fs = some-injective _ _ (simp (good) at f) in
              subst (λ x. IsValid x × (x.disk ≡ d)) same (volume-IsValid b d h geometry room, refl)
          | inr bad ↦ absurd (cc (simp (bad) at f))
        ]

valid_range : (c : ℕ) (fs : Fs) → cluster_valid c fs ≡ true → (2 ≤ c) × (c < fs.total_clusters + 2)
valid_range c fs h = ground arith

-- The sectors of a cluster lie in the volume, after the tables, and no number wraps around.
pub sector_lem :
    (c s : ℕ) (fs : Fs)
    → IsValid fs
    → cluster_valid c fs ≡ true
    → s < fs.sectors_per_cluster
    → (u32 (cluster_to_sector c fs + s) ≡ fs.data_start + ((c - 2) * fs.sectors_per_cluster + s))
      × (cluster_to_sector c fs ≡ fs.data_start + (c - 2) * fs.sectors_per_cluster)
      × (fs.data_start + ((c - 2) * fs.sectors_per_cluster + s) < fs.total_sectors)
sector_lem c s fs v h low =
    let (least, most) = valid_range c fs h in
    let room =
      mul_mono (c - 2) fs.total_clusters fs.sectors_per_cluster (omega (arith, least, most)) in
    let at : cluster_to_sector c fs ≡ fs.data_start + (c - 2) * fs.sectors_per_cluster =
      rw (h) (omega (arith, room, v.clusters_fit, v.sectors_fit)) in
    (
      omega (arith, at, room, low, v.clusters_fit, v.sectors_fit),
      at,
      omega (arith, room, low, v.clusters_fit),
    )

-- The entry of a cluster lies in the first table, and so before the clusters.
pub fat_sector_lem :
    (c : ℕ) (fs : Fs)
    → IsValid fs
    → cluster_valid c fs ≡ true
    → (fat_sector c fs ≡ fs.fat_start + c * 4 / 512)
      × (fat_index c < fs.fat_size)
      × (fat_sector c fs < fs.fat_start + fs.fat_size)
      × (fs.fat_start + fs.fat_size ≤ fs.data_start)
fat_sector_lem c fs v h =
    let (least, most) = valid_range c fs h in
    let one = mul_mono 0 fs.num_fats fs.fat_size v.some_fats in
    let room = v.clusters_fit in
    let below : fs.fat_start + fs.fat_size ≤ fs.data_start = omega (arith, one, v.tables_fit) in
    let index : fat_index c ≡ c * 4 / 512 = omega (arith, most, v.few_clusters) in
    let inside : fat_index c < fs.fat_size = omega (arith, index, most, v.entries_fit) in
    let at : fat_sector c fs ≡ fs.fat_start + c * 4 / 512 =
      omega (arith, index, inside, below, room, v.sectors_fit) in
    (at, inside, omega (arith, at, index, inside), below)

same_place : (a b k s t : ℕ) → s < k → t < k → a * k + s ≡ b * k + t → a ≤ b
same_place a b k s t p q e = elim (Bool-cases (leb a b)) [
  | inl le ↦ ground arith
  | inr gt ↦ absurd (omega (arith, e, p, q, mul_mono b a k (ground (arith, gt))))
]

-- On a volume that `fs_init` mounts from a disk whose first sector holds bytes, sector `s` of a valid
-- cluster lies in the volume, after every sector of every copy of the table, and is no other sector
-- of a valid cluster.
pub cluster_to_sector-apart :
    (d : Disk) (fs : Fs) (c s c' s' : ℕ)
    → ((i : ℕ) → d.sectors 0 i < 256)
    → init d ≡ some fs
    → cluster_valid c fs ≡ true
    → s < fs.sectors_per_cluster
    → cluster_valid c' fs ≡ true
    → s' < fs.sectors_per_cluster
    → (u32 (cluster_to_sector c fs + s) < fs.total_sectors)
      × (fs.fat_start + fs.num_fats * fs.fat_size ≤ u32 (cluster_to_sector c fs + s))
      × (((c ≡ c') × (s ≡ s'))
          ⊎ (u32 (cluster_to_sector c fs + s) ≢ u32 (cluster_to_sector c' fs + s')))
cluster_to_sector-apart d fs c s c' s' bytes e h low h' low' =
    let v = (init-IsValid d fs bytes e).0 in
    let k = fs.sectors_per_cluster in
    let (at, base, inside) = sector_lem c s fs v h low in
    let (at', base', inside') = sector_lem c' s' fs v h' low' in
    let (least, most) = valid_range c fs h in
    let (least', most') = valid_range c' fs h' in
    (
      omega (arith, at, inside),
      omega (arith, at, v.tables_fit),
      elim (Bool-cases (u32 (cluster_to_sector c fs + s) == u32 (cluster_to_sector c' fs + s'))) [
        | inr different ↦ inr (ground (arith, different))
        | inl same ↦
            let e : (c - 2) * k + s ≡ (c' - 2) * k + s' = ground (arith, same, at, at') in
            let one = same_place (c - 2) (c' - 2) k s s' low low' e in
            let two = same_place (c' - 2) (c - 2) k s' s low' low (sym e) in
            let c_same : c ≡ c' = omega (arith, one, two, least, least') in
            inl (c_same, omega (arith, e, ap (λ x. (x - 2) * k) c_same))
      ],
    )
