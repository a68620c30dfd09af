-- ===== src/Fs/Data/Reading.antt =====
-- What reading a file of kernel/fs.c returns: the bytes of its chain of clusters, one after the other.
use os.Base.{
  ℕ, zero, suc, ◌+◌, ◌-◌, ◌*◌, ◌/◌, ◌%◌, ◌^◌, ◌≤◌, ◌<◌, ◌≡◌, refl, sym, ◌∙◌, ap, subst, true, false,
  ◌||◌, some, List, ◌++◌, ◌==◌, leb, if◌then◌else◌, arith, Bool-cases, inl, inr, min, slice, drop,
}
use os.Fs.{Fs, File, cluster_valid, cluster_to_sector}
use os.Fs.Table.{next_cluster}
use os.Fs.Data.{
  cluster_size, ends_chain, skip, bad_place, sector_of, chunk, with_bytes, read_loop, at_position,
  read_from, read,
}
use os.Fs.Geometry.{IsValid, sector_lem}
use os.Fs.Data.Bytes.{
  place, file_bytes, renumber, cut_bytes, file_bytes-Step, chunk-positive, skip_within, drop-drop,
  skip_cluster, plus_zero,
}

no_check_fails :
    (x t k q y : ℕ)
    → x < t
    → t < 2 ^ 32
    → q < k
    → y < t
    → ((x == 2 ^ 32 - 1) || leb t x || leb k q || leb t y) ≡ false
no_check_fails x t k q y a b c d = ground (arith, a, b, c, d)

-- The checks of the loop pass on a valid cluster.
bad_place-false :
    (c r : ℕ) (fs : Fs)
    → IsValid fs
    → cluster_valid c fs ≡ true
    → r < cluster_size fs
    → (bad_place c r fs ≡ false) × (sector_of c r fs ≡ place c r fs)
bad_place-false c r fs v h low =
    let inside : r / 512 < fs.sectors_per_cluster = omega (arith, low) in
    let (sector, base, below) = sector_lem c (r / 512) fs v h inside in
    (
      no_check_fails (cluster_to_sector c fs) fs.total_sectors fs.sectors_per_cluster (r / 512)
          (sector_of c r fs) (omega (arith, base, below)) v.sectors_fit inside
          (omega (arith, sector, below)),
      sector,
    )

-- A round that reads.
read_loop-round :
    (f c r left here : ℕ) (fs : Fs)
    → 0 < left
    → cluster_valid c fs ≡ true
    → bad_place c r fs ≡ false
    → fs.disk.readable (sector_of c r fs) ≡ true
    → read_loop (suc f) c r left here fs
      ≡ with_bytes (slice (fs.disk.sectors (sector_of c r fs)) (r % 512) (chunk left r)) (
          read_loop f
            (if leb (cluster_size fs) (r + chunk left r) then next_cluster c fs else c)
            (if leb (cluster_size fs) (r + chunk left r) then 0 else r + chunk left r)
            (left - chunk left r)
            (here + chunk left r)
            fs)
unfolding read_loop
read_loop-round f c r left here fs p valid good readable =
    let some_left : (left == 0) ≡ false = ground (arith, p) in
    rw (read_loop, some_left, good, readable, valid) refl

-- The loop of `fs_read`, with as many rounds as there are bytes to read.
read_loop_lem :
    (f c r left here : ℕ) (fs : Fs) (bytes : List ℕ)
    → IsValid fs
    → r < cluster_size fs
    → left ≤ f
    → file_bytes left c r fs ≡ some bytes
    → read_loop f c r left here fs ≡ (some bytes, here + left)
unfolding read_loop file_bytes
read_loop_lem zero c r zero here fs bytes v low enough e =
    ap (λ o. (o, here)) e ∙ ap (λ x. (some bytes, x)) (plus_zero here)
read_loop_lem zero c r (suc left) here fs bytes v low enough e = absurd (omega (arith, enough))
read_loop_lem (suc f) c r zero here fs bytes v low enough e =
    ap (λ o. (o, here)) e ∙ ap (λ x. (some bytes, x)) (plus_zero here)
read_loop_lem (suc f) c r (suc left) here fs bytes v low enough e =
    let n = chunk (suc left) r in
    let m = suc left - n in
    let first = file_bytes-Step left c r fs bytes e in
    let (good, sector) = bad_place-false c r fs v first.valid low in
    let p : 0 < n = chunk-positive (suc left) r (omega arith) in
    let fits : r + n ≤ cluster_size fs = omega (arith, low) in
    let s = cut_bytes n m (suc left) c r fs bytes p (omega arith) (omega arith) fits e in
    let readable : fs.disk.readable (sector_of c r fs) ≡ true =
      subst (λ x. fs.disk.readable x ≡ true) (sym sector) first.readable in
    let bytes_here : slice (fs.disk.sectors (sector_of c r fs)) (r % 512) n ++ s.more ≡ bytes =
      ap (λ x. slice (fs.disk.sectors x) (r % 512) n ++ s.more) sector ∙ sym s.whole in
    let count : here + n + m ≡ here + suc left = omega arith in
    let rest : read_loop f (if leb (cluster_size fs) (r + n) then next_cluster c fs else c)
          (if leb (cluster_size fs) (r + n) then 0 else r + n) m (here + n) fs
        ≡ (some s.more, here + n + m) =
      elim (Bool-cases (leb (cluster_size fs) (r + n))) [
        | inl t ↦ rw (t) (
            read_loop_lem f (next_cluster c fs) 0 m (here + n) fs s.more v (omega (arith, low))
              (omega (arith, p, enough)) (s.after.1 (ground (arith, t))))
        | inr t ↦ rw (t) (
            read_loop_lem f c (r + n) m (here + n) fs s.more v (ground (arith, t))
              (omega (arith, p, enough)) (s.after.0 (ground (arith, t))))
      ] in
    read_loop-round f c r (suc left) here fs (omega arith) first.valid good readable
    ∙ ap (λ x. with_bytes (slice (fs.disk.sectors (sector_of c r fs)) (r % 512) n) x) rest
    ∙ ap (λ x. (some x, here + n + m)) bytes_here
    ∙ ap (λ x. (some bytes, x)) count

not_ends : (c : ℕ) (fs : Fs) → IsValid fs → cluster_valid c fs ≡ true → ends_chain c ≡ false
not_ends c fs v h = ground (arith, h, v.few_clusters)

skip-next :
    (q c : ℕ) (fs : Fs)
    → ends_chain (next_cluster c fs) ≡ false
    → skip (suc q) c fs ≡ skip q (next_cluster c fs) fs
unfolding skip
skip-next q c fs h = rw (skip, h) refl

-- The loop of `fs_read` that skips whole clusters, when a byte follows them.
skip_lem :
    (q m total c : ℕ) (fs : Fs) (bytes : List ℕ)
    → IsValid fs
    → 0 < m
    → total ≡ q * cluster_size fs + m
    → file_bytes total c 0 fs ≡ some bytes
    → (c' : ℕ) × (skip q c fs ≡ some c')
      × (file_bytes m c' 0 fs ≡ some (drop (q * cluster_size fs) bytes))
unfolding skip
skip_lem zero m total c fs bytes v p t e =
    let nothing : 0 ≡ 0 * cluster_size fs = omega arith in
    (
      c,
      refl,
      renumber total m c 0 fs bytes (omega (arith, t)) e ∙ ap (λ n. some (drop n bytes)) nothing,
    )
skip_lem (suc q) m total c fs bytes v p t e =
    let size = cluster_size fs in
    let positive : 0 < size = omega (arith, v.cluster_sectors) in
    let next = next_cluster c fs in
    let more = q * size + m in
    let times : suc q * size ≡ size + q * size = omega arith in
    let behind = skip_cluster more total c fs bytes positive (omega (arith, t, times)) e in
    let first =
      file_bytes-Step (more - 1) next 0 fs (drop size bytes)
        (renumber more (suc (more - 1)) next 0 fs (drop size bytes) (omega (arith, p)) behind) in
    let (c', skipped, bytes') = skip_lem q m more next fs (drop size bytes) v p refl behind in
    (
      c',
      skip-next q c fs (not_ends next fs v first.valid) ∙ skipped,
      bytes' ∙ ap some (drop-drop size (q * size) (suc q * size) bytes times),
    )

read-skipped :
    (file : File) (size : ℕ) (fs : Fs) (c : ℕ)
    → fs.mounted ≡ true
    → file.pos < file.size
    → cluster_valid file.cluster fs ≡ true
    → skip (file.pos / cluster_size fs) file.cluster fs ≡ some c
    → read file size fs ≡ read_from file (min size (file.size - file.pos)) fs (some c)
unfolding read
read-skipped file size fs c is_mounted low entry skipped =
    let before : leb file.size file.pos ≡ false = ground (arith, low) in
    rw (read, skipped, before, entry, is_mounted) refl

-- `fs_read` on a valid volume, of at least one byte from a position inside the file: when the chain
-- of the file has readable bytes up to the last one that is asked for, and no further than the size
-- of the file, then exactly the bytes from the position on are returned, and the position moves
-- behind them.
pub read-file_bytes :
    (file : File) (size : ℕ) (fs : Fs) (bytes : List ℕ)
    → IsValid fs
    → 0 < size
    → file.pos < file.size
    → file_bytes (file.pos + min size (file.size - file.pos)) file.cluster 0 fs ≡ some bytes
    → read file size fs ≡ (
      some (drop file.pos bytes),
      record file { pos = file.pos + min size (file.size - file.pos) },
    )
unfolding read
read-file_bytes file size fs bytes v p low e =
    let n = min size (file.size - file.pos) in
    let k = cluster_size fs in
    let q = file.pos / k in
    let r = file.pos % k in
    let positive : 0 < k = omega (arith, v.cluster_sectors) in
    let some_bytes : 0 < n = omega (arith, p, low) in
    let split : file.pos + n ≡ q * k + (r + n) = omega arith in
    let within : r < k = omega (arith, positive) in
    let (c, skipped, there) =
      skip_lem q (r + n) (file.pos + n) file.cluster fs bytes v (omega (arith, some_bytes)) split
        e in
    let start : file_bytes n c r fs ≡ some (drop r (drop (q * k) bytes)) =
      subst (λ x. file_bytes n c x fs ≡ some (drop r (drop (q * k) bytes))) (from_zero r)
        (skip_within r n (r + n) c 0 fs (drop (q * k) bytes) (omega (arith, within)) refl there) in
    let wanted : drop r (drop (q * k) bytes) ≡ drop file.pos bytes =
      drop-drop (q * k) r file.pos bytes (omega arith) in
    let first = file_bytes-Step (file.pos + n - 1) file.cluster 0 fs bytes (
      renumber (file.pos + n) (suc (file.pos + n - 1)) file.cluster 0 fs bytes
        (omega (arith, some_bytes)) e) in
    let is_mounted = v.is_mounted in
    let looped =
      read_loop_lem n c r n file.pos fs (drop r (drop (q * k) bytes)) v within (omega arith)
        start in
    let called = read-skipped file size fs c is_mounted low first.valid skipped in
    called
    ∙ ap (λ o. at_position file o) looped
    ∙ ap (λ b. (some b, record file { pos = file.pos + n })) wanted
  where
    from_zero : (r : ℕ) → 0 + r ≡ r
    from_zero r = omega arith
