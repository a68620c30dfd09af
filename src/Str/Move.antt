-- ===== src/Str/Move.antt =====
-- `kmemmove`, `kmemset` and `kstrncpy` of kernel/string.c.
use os.Base.{
  ℕ, zero, suc, ◌+◌, ◌-◌, ◌<◌, ◌≤◌, ◌≡◌, ◌≢◌, refl, sym, ◌∙◌, ap, false, ◌&&◌, ◌||◌, List, [], ◌∷◌,
  arith, ltb, leb, ◌==◌, if◌then◌else◌, length, Bool-cases, inl, inr, ◌⊎◌, update, take, ◌++◌,
}
use os.Str.{kmemset, copy_up, copy_down, kmemcpy, kmemmove, zeros, kstrncpy}

-- Upwards over a destination below the source, or one that the source does not reach.
copy_up_lem :
    (d s i n : ℕ) (mem : ℕ → ℕ) (j : ℕ)
    → (d < s) ⊎ (s + (i + n) ≤ d)
    → copy_up d s i n mem j
      ≡ (if leb (d + i) j && ltb j (d + (i + n)) then mem (s + (j - d)) else mem j)
unfolding copy_up
copy_up_lem d s i zero mem j a = ground arith
copy_up_lem d s i (suc n) mem j a =
    ground (arith, copy_up_lem d s (i + 1) n (update mem (d + i) (mem (s + i))) j)

copy_up-whole :
    (d s n : ℕ) (mem : ℕ → ℕ) (j : ℕ)
    → (d < s) ⊎ (s + n ≤ d)
    → copy_up d s 0 n mem j ≡ (if leb d j && ltb j (d + n) then mem (s + (j - d)) else mem j)
copy_up-whole d s n mem j a =
    let apart : (d < s) ⊎ (s + (0 + n) ≤ d) = ground (arith, a) in
    copy_up_lem d s 0 n mem j apart ∙ ground arith

copy_down_lem :
    (d s n : ℕ) (mem : ℕ → ℕ) (j : ℕ)
    → s < d
    → copy_down d s n mem j ≡ (if leb d j && ltb j (d + n) then mem (s + (j - d)) else mem j)
unfolding copy_down
copy_down_lem d s zero mem j a = ground arith
copy_down_lem d s (suc n) mem j a =
    ground (arith, copy_down_lem d s n (update mem (d + n) (mem (s + n))) j)

-- `kmemmove` between addresses that are not NULL puts the bytes that the source held before the
-- call at the destination, however the two overlap, and changes no other byte.
pub kmemmove_lem :
    (d s n : ℕ) (mem : ℕ → ℕ) (j : ℕ)
    → d ≢ 0
    → s ≢ 0
    → kmemmove d s n mem j ≡ (if leb d j && ltb j (d + n) then mem (s + (j - d)) else mem j)
unfolding kmemmove
kmemmove_lem d s n mem j dz sz = elim (Bool-cases (n == 0 || d == s)) [
  | inl same ↦ rw (nonzero, same) (ground arith)
  | inr ne ↦ elim (Bool-cases (ltb d s)) [
    | inl low ↦ rw (nonzero, ne, low) (copy_up-whole d s n mem j (inl (ground arith)))
    | inr high ↦ rw (nonzero, ne, high) (copy_down_lem d s n mem j (ground arith))
  ]
]
  where
    nonzero : (d == 0 || s == 0) ≡ false
    nonzero = ground arith

-- `kmemcpy` between regions that do not overlap, neither address NULL, does the same.
pub kmemcpy_lem :
    (d s n : ℕ) (mem : ℕ → ℕ) (j : ℕ)
    → d ≢ 0
    → s ≢ 0
    → (d + n ≤ s) ⊎ (s + n ≤ d)
    → kmemcpy d s n mem j ≡ kmemmove d s n mem j
unfolding kmemcpy
kmemcpy_lem d s n mem j dz sz apart = elim (Bool-cases (n == 0 || d == s)) [
  | inl same ↦ rw (nonzero, same) (ground (arith, kmemmove_lem d s n mem j dz sz))
  | inr ne ↦
      rw (nonzero, ne)
        (copy_up-whole d s n mem j (ground (arith, apart)) ∙ sym (kmemmove_lem d s n mem j dz sz))
]
  where
    nonzero : (d == 0 || s == 0) ≡ false
    nonzero = ground arith

pub kmemset_lem :
    (d val n : ℕ) (mem : ℕ → ℕ) (j : ℕ)
    → kmemset d val n mem j ≡ (if leb d j && ltb j (d + n) then val else mem j)
unfolding kmemset
kmemset_lem d val zero mem j = ground arith
kmemset_lem d val (suc n) mem j = ground (arith, kmemset_lem (d + 1) val n (update mem d val) j)

length-zeros : (n : ℕ) → length (zeros n) ≡ n
length-zeros zero = refl
length-zeros (suc n) = ap suc (length-zeros n)

-- `kstrncpy` writes exactly `n` bytes: the string, cut at `n`, and then NULs.
pub kstrncpy_lem :
    (src : List ℕ) (n : ℕ)
    → (length (kstrncpy src n) ≡ n) × (kstrncpy src n ≡ take n src ++ zeros (n - length src))
unfolding kstrncpy
kstrncpy_lem src zero =
    (refl, let none_left : 0 - length src ≡ 0 = omega arith in rw none_left refl)
kstrncpy_lem [] (suc n) =
    (ap suc (length-zeros n), let all_left : suc n - 0 ≡ suc n = omega arith in rw all_left refl)
kstrncpy_lem (c ∷ src) (suc n) =
    let (l, e) = kstrncpy_lem src n in
    let one_less : suc n - suc (length src) ≡ n - length src = omega arith in
    (ap suc l, rw one_less (ap (λ t. c ∷ t) e))
