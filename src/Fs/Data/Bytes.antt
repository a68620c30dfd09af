-- ===== src/Fs/Data/Bytes.antt =====
-- The bytes of a file of kernel/fs.c along its chain of clusters, and how they lie in sectors.
use os.Base.{
  ℕ, zero, suc, ◌+◌, ◌-◌, ◌*◌, ◌/◌, ◌%◌, ◌≤◌, ◌<◌, ◌≡◌, refl, sym, ◌∙◌, ap, subst, Bool, true,
  false, ◌&&◌, Option, none, some, List, [], ◌∷◌, ◌++◌, leb, if◌then◌else◌, arith, Bool-cases, inl,
  inr, slice, drop,
}
use mathlib.Core.Option.{some-injective}
use os.Fs.{Fs, cluster_valid}
use os.Fs.Table.{next_cluster}
use os.Fs.Data.{cluster_size, chunk}

pub plus_zero : (n : ℕ) → n ≡ n + 0
plus_zero n = omega arith

-- The sector of byte `r` of a cluster.
abbrev pub place : ℕ → ℕ → Fs → ℕ
place c r fs = fs.data_start + ((c - 2) * fs.sectors_per_cluster + r / 512)

abbrev pub cons_some : ℕ → Option (List ℕ) → Option (List ℕ)
cons_some b none = none
cons_some b (some rest) = some (b ∷ rest)

-- The `n` bytes from byte `r` of cluster `c` on, read one by one along the chain: none when the chain
-- is too short or a sector of it cannot be read.
unfoldable pub file_bytes : ℕ → ℕ → ℕ → Fs → Option (List ℕ)
file_bytes zero c r fs = some []
file_bytes (suc n) c r fs =
    let last = leb (cluster_size fs) (r + 1) in
    let rest =
      file_bytes n (if last then next_cluster c fs else c) (if last then 0 else r + 1) fs in
    if cluster_valid c fs && fs.disk.readable (place c r fs)
    then cons_some (fs.disk.sectors (place c r fs) (r % 512)) rest
    else none

-- The first byte, and the others.
pub record Step (n c r : ℕ) (fs : Fs) (bytes : List ℕ) : Type 0 where
  pub valid : cluster_valid c fs ≡ true
  pub readable : fs.disk.readable (place c r fs) ≡ true
  pub rest : List ℕ
  pub whole : bytes ≡ fs.disk.sectors (place c r fs) (r % 512) ∷ rest
  pub after :
      (r + 1 < cluster_size fs → file_bytes n c (r + 1) fs ≡ some rest)
      × (cluster_size fs ≤ r + 1 → file_bytes n (next_cluster c fs) 0 fs ≡ some rest)

cons_some-cases :
    (b : ℕ) (o : Option (List ℕ)) (bytes : List ℕ)
    → cons_some b o ≡ some bytes
    → (rest : List ℕ) × (o ≡ some rest) × (bytes ≡ b ∷ rest)
cons_some-cases b none bytes e = absurd (cc e)
cons_some-cases b (some rest) bytes e = (rest, refl, sym (some-injective _ _ e))

both_true : (a b : Bool) → (a && b) ≡ true → (a ≡ true) × (b ≡ true)
both_true a b h = ground arith

pub file_bytes-Step :
    (n c r : ℕ) (fs : Fs) (bytes : List ℕ)
    → file_bytes (suc n) c r fs ≡ some bytes
    → Step n c r fs bytes
unfolding file_bytes
file_bytes-Step n c r fs bytes e =
    let there = cluster_valid c fs && fs.disk.readable (place c r fs) in
    let b = fs.disk.sectors (place c r fs) (r % 512) in
    elim (Bool-cases there) [
      | inr bad ↦ absurd (cc (simp (file_bytes, bad) at e))
      | inl good ↦
          let (valid, readable) =
            both_true (cluster_valid c fs) (fs.disk.readable (place c r fs)) good in
          let last = leb (cluster_size fs) (r + 1) in
          let o =
            file_bytes n (if last then next_cluster c fs else c) (if last then 0 else r + 1) fs in
          let (rest, e_rest, whole) = cons_some-cases b o bytes (simp (file_bytes, good) at e) in
          record {
            valid = valid;
            readable = readable;
            rest = rest;
            whole = whole;
            after = (
              λ low.
                  let f : last ≡ false = ground (arith, low) in
                  subst
                    (λ t.
                      file_bytes n (if t then next_cluster c fs else c) (if t then 0 else r + 1) fs
                      ≡ some rest)
                    f e_rest,
              λ high.
                  let t : last ≡ true = ground (arith, high) in
                  subst
                    (λ t.
                      file_bytes n (if t then next_cluster c fs else c) (if t then 0 else r + 1) fs
                      ≡ some rest)
                    t e_rest,
            );
          }
    ]

pub renumber :
    (n k c r : ℕ) (fs : Fs) (bytes : List ℕ)
    → n ≡ k
    → file_bytes n c r fs ≡ some bytes
    → file_bytes k c r fs ≡ some bytes
renumber n k c r fs bytes same e = subst (λ x. file_bytes x c r fs ≡ some bytes) same e

-- The bytes up to the end of a round of the loop: those of one sector, and the others.
pub record Split (n m c r : ℕ) (fs : Fs) (bytes : List ℕ) : Type 0 where
  pub more : List ℕ
  pub whole : bytes ≡ slice (fs.disk.sectors (place c r fs)) (r % 512) n ++ more
  pub after :
      (r + n < cluster_size fs → file_bytes m c (r + n) fs ≡ some more)
      × (cluster_size fs ≤ r + n → file_bytes m (next_cluster c fs) 0 fs ≡ some more)

file_bytes-Split :
    (n m c r : ℕ) (fs : Fs) (bytes : List ℕ)
    → r % 512 + suc n ≤ 512
    → r + suc n ≤ cluster_size fs
    → file_bytes (suc n + m) c r fs ≡ some bytes
    → Split (suc n) m c r fs bytes
file_bytes-Split zero m c r fs bytes in_sector in_cluster e =
    let s =
      file_bytes-Step m c r fs bytes (renumber (1 + m) (suc m) c r fs bytes (omega arith) e) in
    record { more = s.rest; whole = s.whole; after = s.after }
file_bytes-Split (suc n) m c r fs bytes in_sector in_cluster e =
    let s =
      file_bytes-Step (suc n + m) c r fs bytes
        (renumber (suc (suc n) + m) (suc (suc n + m)) c r fs bytes (omega arith) e) in
    let offset : (r + 1) % 512 ≡ r % 512 + 1 = omega (arith, in_sector) in
    let same : place c (r + 1) fs ≡ place c r fs = omega (arith, in_sector) in
    let t =
      file_bytes-Split n m c (r + 1) fs s.rest (omega (arith, in_sector, offset))
        (omega (arith, in_cluster)) (s.after.0 (omega (arith, in_cluster))) in
    let joined : s.rest ≡ slice (fs.disk.sectors (place c r fs)) (r % 512 + 1) (suc n) ++ t.more =
      t.whole
      ∙ ap (λ p. slice (fs.disk.sectors p) ((r + 1) % 512) (suc n) ++ t.more) same
      ∙ ap (λ i. slice (fs.disk.sectors (place c r fs)) i (suc n) ++ t.more) offset in
    record {
      more = t.more;
      whole = s.whole ∙ ap (λ l. fs.disk.sectors (place c r fs) (r % 512) ∷ l) joined;
      after = (
        λ low.
            let next : r + 1 + suc n ≡ r + suc (suc n) = omega arith in
            subst (λ x. file_bytes m c x fs ≡ some t.more) next (t.after.0 (omega (arith, low))),
        λ high. t.after.1 (omega (arith, high)),
      );
    }

pub chunk-positive : (left r : ℕ) → 0 < left → 0 < chunk left r
chunk-positive left r h = omega (arith, h)

pub cut_bytes :
    (n m total c r : ℕ) (fs : Fs) (bytes : List ℕ)
    → 0 < n
    → total ≡ n + m
    → r % 512 + n ≤ 512
    → r + n ≤ cluster_size fs
    → file_bytes total c r fs ≡ some bytes
    → Split n m c r fs bytes
cut_bytes zero m total c r fs bytes p t in_sector in_cluster e = absurd (omega (arith, p))
cut_bytes (suc n) m total c r fs bytes p t in_sector in_cluster e =
    file_bytes-Split n m c r fs bytes in_sector in_cluster
      (renumber total (suc n + m) c r fs bytes t e)

-- Inside a cluster, the bytes from `k` bytes further on are those behind the first `k`.
pub skip_within :
    (k m total c r : ℕ) (fs : Fs) (bytes : List ℕ)
    → r + k < cluster_size fs
    → total ≡ k + m
    → file_bytes total c r fs ≡ some bytes
    → file_bytes m c (r + k) fs ≡ some (drop k bytes)
skip_within zero m total c r fs bytes low t e =
    subst (λ x. file_bytes m c x fs ≡ some bytes) (plus_zero r)
      (renumber total m c r fs bytes (omega (arith, t)) e)
skip_within (suc k) m total c r fs bytes low t e =
    let s =
      file_bytes-Step (k + m) c r fs bytes
        (renumber total (suc (k + m)) c r fs bytes (omega (arith, t)) e) in
    let next : r + 1 + k ≡ r + suc k = omega arith in
    let rest : file_bytes m c (r + suc k) fs ≡ some (drop k s.rest) =
      subst (λ x. file_bytes m c x fs ≡ some (drop k s.rest)) next
        (skip_within k m (k + m) c (r + 1) fs s.rest (omega (arith, low)) refl
          (s.after.0 (omega (arith, low)))) in
    rest ∙ ap (λ l. some (drop (suc k) l)) (sym s.whole)

drop_nil : (k : ℕ) → drop {A = ℕ} k [] ≡ []
drop_nil zero = refl
drop_nil (suc k) = refl

pub drop-drop : (j k n : ℕ) (xs : List ℕ) → n ≡ j + k → drop k (drop j xs) ≡ drop n xs
drop-drop zero k n xs e = ap (λ n. drop n xs) (omega (arith, e))
drop-drop (suc j) k zero xs e = absurd (omega (arith, e))
drop-drop (suc j) k (suc n) [] e = drop_nil k
drop-drop (suc j) k (suc n) (x ∷ xs) e = drop-drop j k n xs (omega (arith, e))

-- The bytes behind a whole cluster are those of the next one.
pub skip_cluster :
    (m total c : ℕ) (fs : Fs) (bytes : List ℕ)
    → 0 < cluster_size fs
    → total ≡ cluster_size fs + m
    → file_bytes total c 0 fs ≡ some bytes
    → file_bytes m (next_cluster c fs) 0 fs ≡ some (drop (cluster_size fs) bytes)
skip_cluster m total c fs bytes p t e =
    let k = cluster_size fs - 1 in
    let from_zero : 0 + k ≡ k = omega arith in
    let last : file_bytes (suc m) c k fs ≡ some (drop k bytes) =
      subst (λ x. file_bytes (suc m) c x fs ≡ some (drop k bytes)) from_zero
        (skip_within k (suc m) total c 0 fs bytes (omega (arith, p)) (omega (arith, p, t)) e) in
    let s = file_bytes-Step m c k fs (drop k bytes) last in
    let behind : s.rest ≡ drop (cluster_size fs) bytes =
      ap (λ l. drop 1 l) (sym s.whole) ∙ drop-drop k 1 (cluster_size fs) bytes (omega (arith, p)) in
    s.after.1 (omega arith) ∙ ap some behind
