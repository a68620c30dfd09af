-- ===== src/Base/Arrays.antt =====
-- A fixed C array is a function of the index; the bounds are stated where they matter.
use Prim.Native.Nat.{ℕ, zero, suc, ◌+◌, ◌<◌}
use mathlib.Core.Path.{◌≡◌}
use mathlib.Core.Logic.{◌≢◌, inl, inr}
use mathlib.Core.Bool.{Bool, true, ◌&&◌}
use mathlib.Core.List.{List, [], ◌∷◌}
use native.Mathlib.Omega.{arith}
use os.Base.Tests.{◌==◌, Bool-cases, if◌then◌else◌}

-- `a[i] = v`
abbrev pub update {ℓ} : {A : Type ℓ} → (ℕ → A) → ℕ → A → ℕ → A
update a i v j = if i == j then v else a j

pub update_self {ℓ} : {A : Type ℓ} (a : ℕ → A) (i : ℕ) (v : A) → update a i v i ≡ v
update_self a i v = ground arith

pub update_ne {ℓ} : {A : Type ℓ} (a : ℕ → A) (i j : ℕ) (v : A) → i ≢ j → update a i v j ≡ a j
update_ne a i j v h = ground arith

-- Whether a test holds at every index below a bound, by evaluation.
unfoldable pub holds_below : ℕ → (ℕ → Bool) → Bool
holds_below zero test = true
holds_below (suc limit) test = holds_below limit test && test limit

pub holds_below-at :
    (limit : ℕ) (test : ℕ → Bool) (at : ℕ)
    → holds_below limit test ≡ true
    → at < limit
    → test at ≡ true
unfolding holds_below
holds_below-at zero test at every low = absurd (omega arith)
holds_below-at (suc limit) test at every low = elim (Bool-cases (at == limit)) [
  | inl last ↦ ground arith
  | inr lower ↦ ground (arith, holds_below-at limit test at)
]

-- The elements at `n` indices from `i` on.
abbrev pub slice {ℓ} : {A : Type ℓ} → (ℕ → A) → ℕ → ℕ → List A
slice a i zero = []
slice a i (suc n) = a i ∷ slice a (i + 1) n
