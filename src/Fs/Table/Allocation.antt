-- ===== src/Fs/Table/Allocation.antt =====
-- Allocating a cluster of a volume of kernel/fs.c.
use os.Base.{
  ℕ, zero, suc, ◌+◌, ◌≤◌, ◌<◌, ◌≡◌, ◌≢◌, refl, sym, ◌∙◌, ap, subst, ◌⊎◌, Bool, true, false, ◌==◌,
  arith, Bool-cases, inl, inr,
}
use os.Fs.{Fs, end_of_chain, cluster_valid}
use os.Fs.Table.{fat_get, fat_set, alloc_from, alloc_cluster, allocated}
use os.Fs.Table.Laws.{SetEntry, fat_set-SetEntry}
use os.Fs.Geometry.{IsValid}

-- Cluster `b` is the first one from cluster `c` on, below `top`, whose entry says that it is free.
pub record FirstFree (c top b : ℕ) (fs : Fs) : Type 0 where
  pub from : c ≤ b
  pub below : b < top
  pub free : fat_get b fs ≡ 0
  pub first : (k : ℕ) → c ≤ k → k < b → fat_get k fs ≢ 0

abbrev pub NoneFree : ℕ → ℕ → Fs → Type 0
NoneFree c top fs = (k : ℕ) → c ≤ k → k < top → fat_get k fs ≢ 0

not_zero : (n : ℕ) → (n == 0) ≡ false → n ≢ 0
not_zero n h = ground (arith, h)

alloc_from-cases :
    (n c : ℕ) (fs : Fs)
    → ((b : ℕ) × FirstFree c (c + n) b fs
        × (alloc_from n c fs ≡ allocated b (fat_set b end_of_chain fs)))
      ⊎ (NoneFree c (c + n) fs × (alloc_from n c fs ≡ (0, fs)))
unfolding alloc_from
alloc_from-cases zero c fs = inr (λ k low high. absurd (omega (arith, low, high)), refl)
alloc_from-cases (suc n) c fs = elim (Bool-cases (fat_get c fs == 0)) [
  | inl free ↦ inl (
    c,
    record {
      from = omega arith;
      below = omega arith;
      free = ground (arith, free);
      first = λ k low high. absurd (omega (arith, low, high));
    },
    rw (alloc_from, free) refl,
  )
  | inr taken ↦
      let step : (k : ℕ) → c ≤ k → (c ≡ k) ⊎ (suc c ≤ k) = λ k low. ground (arith, low) in
      let here : (k : ℕ) → c ≡ k → fat_get k fs ≢ 0 =
        λ k same. subst (λ k. fat_get k fs ≢ 0) same (not_zero (fat_get c fs) taken) in
      elim (alloc_from-cases n (suc c) fs) [
        | inl (b, f, e) ↦ inl (
          b,
          record {
            from = omega (arith, f.from);
            below = omega (arith, f.below);
            free = f.free;
            first = λ k low high. elim (step k low) [
              | inl same ↦ here k same
              | inr later ↦ f.first k later high
            ];
          },
          rw (alloc_from, taken) e,
        )
        | inr (none_free, e) ↦ inr (
          λ k low high. elim (step k low) [
            | inl same ↦ here k same
            | inr later ↦ none_free k later (omega (arith, high))
          ],
          rw (alloc_from, taken) e,
        )
      ]
]

-- What `alloc_cluster` returned: the first free cluster, valid, with its entry set to the end of a
-- chain; or 0, when no cluster is free, or when the entry of the first free one could not be set.
pub record Allocation (fs fs' : Fs) (c : ℕ) : Type 0 where
  pub lowest : FirstFree 2 (2 + fs.total_clusters) c fs
  pub valid : cluster_valid c fs ≡ true
  pub set : SetEntry c end_of_chain fs fs'

pub record Failure (fs fs' : Fs) : Type 0 where
  pub reason :
      (NoneFree 2 (2 + fs.total_clusters) fs × (fs' ≡ fs))
      ⊎ ((b : ℕ) × FirstFree 2 (2 + fs.total_clusters) b fs
          × (fat_set b end_of_chain fs ≡ (false, fs')))

allocated-cases :
    (b : ℕ) (fs : Fs) (p : Bool × Fs)
    → ((p.0 ≡ true) × (allocated b p ≡ (b, p.1))) ⊎ ((p.0 ≡ false) × (allocated b p ≡ (0, p.1)))
allocated-cases b fs (true, g) = inl (refl, refl)
allocated-cases b fs (false, g) = inr (refl, refl)

-- On a valid volume `fat_alloc_cluster` either returns the first cluster that is free, which is
-- valid, with its entry marked as the end of a chain and no other byte of the disk changed but those of
-- the entry in the copy of the table; or it returns 0, because no cluster is free or because the first free one could not be
-- marked.
pub alloc_cluster_lem :
    (fs : Fs)
    → IsValid fs
    → Allocation fs (alloc_cluster fs).1 (alloc_cluster fs).0
      ⊎ (((alloc_cluster fs).0 ≡ 0) × Failure fs (alloc_cluster fs).1)
unfolding alloc_cluster
alloc_cluster_lem fs v = elim (alloc_from-cases fs.total_clusters 2 fs) [
  | inr (none_free, e) ↦ inr (ap (λ p. p.0) e, record { reason = inl (none_free, ap (λ p. p.1) e) })
  | inl (b, f, e) ↦
      let done = fat_set b end_of_chain fs in
      elim (allocated-cases b fs done) [
        | inl (ok, same) ↦
            let both : alloc_from fs.total_clusters 2 fs ≡ (b, done.1) = e ∙ same in
            inl (
              subst (λ p. Allocation fs p.1 p.0) (sym both)
                (record {
                  lowest = f;
                  valid = ground (arith, f.from, f.below);
                  set = fat_set-SetEntry b end_of_chain fs done.1 v (ap (λ t. (t, done.1)) ok);
                }))
        | inr (bad, same) ↦
            let both : alloc_from fs.total_clusters 2 fs ≡ (0, done.1) = e ∙ same in
            inr (
              ap (λ p. p.0) both,
              subst (λ p. Failure fs p.1) (sym both)
                  (record { reason = inr (b, f, ap (λ t. (t, done.1)) bad) }),
            )
      ]
]
