-- ===== src/Str/Digits.antt =====
-- `kutoa` and `katoi` of kernel/string.c.
use native.Mathlib.Nat.{mod-lt, div-add-mod', mul-le-mul_left}
use os.Base.{
  ℕ, zero, suc, ◌+◌, ◌*◌, ◌/◌, ◌%◌, ◌^◌, ◌<◌, ◌≤◌, ◌≡◌, refl, sym, ◌∙◌, false, ◌||◌, some, List, [],
  ◌∷◌, arith, ltb, leb, ◌==◌, length, Bool-cases, inl, inr,
}
use os.Str.{digit_value, katoi_loop, katoi, digit, push_digits, kutoa}

digit_value-digit : (r : ℕ) → r < 36 → digit_value (digit r) ≡ some r
digit_value-digit r h = ground arith

-- Reading the digits of a value and then more text is reading on from that value.
katoi_loop-push_digits :
    (f val base : ℕ) (out : List ℕ)
    → 2 ≤ base
    → base ≤ 36
    → val < 2 ^ f
    → val < 2 ^ 64
    → katoi_loop base 0 (push_digits f val base out) ≡ katoi_loop base val out
unfolding push_digits katoi_loop
katoi_loop-push_digits zero val base out lo hi h w =
    let z : val ≡ 0 = omega arith in rw (z, push_digits) refl
katoi_loop-push_digits (suc f) val base out lo hi h w = elim (Bool-cases (val == 0)) [
  | inl z ↦ let e : val ≡ 0 = ground arith in rw (e, push_digits) refl
  | inr nz ↦ rw nz (
      katoi_loop-push_digits f q base (digit r ∷ out) lo hi low (omega (arith, q_le))
      ∙ katoi_loop-digit)
]
  where
    q : ℕ
    q = val / base

    r : ℕ
    r = val % base

    r_lt : r < base
    r_lt = mod-lt val (omega arith)

    whole : q * base + r ≡ val
    whole = div-add-mod' val base

    q_le : q * 2 ≤ val
    q_le = omega (arith, mul-le-mul_left q lo, whole)

    low : q < 2 ^ f
    low = omega (arith, q_le, pow_suc)
      where
        pow_suc : 2 ^ suc f ≡ 2 ^ f * 2
        pow_suc = omega arith

    katoi_loop-digit : katoi_loop base q (digit r ∷ out) ≡ katoi_loop base val out
    katoi_loop-digit =
        let below : leb base r ≡ false = ground arith in
        let wrapped : (q * base + r) % 2 ^ 64 ≡ val = rw whole (omega arith) in
        rw (katoi_loop, digit_value-digit r (omega (arith, r_lt)), below, wrapped) refl

in_bases : (base : ℕ) → 2 ≤ base → base ≤ 36 → (ltb base 2 || ltb 36 base) ≡ false
in_bases base lo hi = ground arith

katoi_loop-zero : (base : ℕ) → 2 ≤ base → katoi_loop base 0 (48 ∷ []) ≡ 0
unfolding katoi_loop
katoi_loop-zero base lo = let below : leb base 0 ≡ false = ground arith in rw below (omega arith)

-- `katoi` reads back what `kutoa` writes: every u64 in every base from 2 to 36.
pub katoi-kutoa :
    (val base : ℕ) → val < 2 ^ 64 → 2 ≤ base → base ≤ 36 → katoi (some (kutoa val base)) base ≡ val
unfolding katoi katoi_loop kutoa
katoi-kutoa val base w lo hi = elim (Bool-cases (val == 0)) [
  | inl z ↦
      let e : val ≡ 0 = ground arith in
      rw (in_bases base lo hi, kutoa, z) (katoi_loop-zero base lo ∙ sym e)
  | inr nz ↦ rw (in_bases base lo hi, kutoa, nz) (katoi_loop-push_digits 64 val base [] lo hi w w)
]

length-push_digits :
    (f val base : ℕ) (out : List ℕ) → length (push_digits f val base out) ≤ f + length out
unfolding push_digits
length-push_digits zero val base out = omega arith
length-push_digits (suc f) val base out =
    ground (arith, length-push_digits f (val / base) base (digit (val % base) ∷ out))

-- Every result of `kutoa` has at most 64 characters, so its digits fit the 65 characters of `tmp`.
pub length-kutoa : (val base : ℕ) → length (kutoa val base) ≤ 64
unfolding kutoa
length-kutoa val base = ground (arith, length-push_digits 64 val base [])
