-- ===== src/Str/Signed.antt =====
-- `kutoa_internal` and `kitoa` of kernel/string.c.
use os.Base.{
  ℕ, zero, suc, ◌+◌, ◌-◌, ◌/◌, ◌%◌, ◌^◌, ◌≡◌, refl, Bool, true, false, ◌||◌, List, [], ◌∷◌, ltb,
  ◌==◌, if◌then◌else◌, arith, ℤ, pos, negsuc, Bool-cases, inl, inr,
}
use os.Str.{digit, push_digits, kutoa}

-- The digit of `kutoa_internal`, in upper or lower case.
abbrev pub case_digit : Bool → ℕ → ℕ
case_digit uppercase rem =
    if ltb rem 10 then 48 + rem else (if uppercase then 65 else 97) + (rem - 10)

pub push_case_digits : Bool → ℕ → ℕ → ℕ → List ℕ → List ℕ
push_case_digits uppercase zero val base out = out
push_case_digits uppercase (suc f) val base out =
    let rest =
      push_case_digits uppercase f (val / base) base (case_digit uppercase (val % base) ∷ out) in
    if val == 0 then out else rest

pub kutoa_internal : ℕ → ℕ → Bool → List ℕ
kutoa_internal val base uppercase =
    if ltb base 2 || ltb 36 base
    then []
    else if val == 0
    then 48 ∷ []
    else push_case_digits uppercase 64 val base []

-- A negative number is written with its sign in base 10, and as a u64 in the others.
pub kitoa : ℤ → ℕ → List ℕ
kitoa (pos n) base = kutoa_internal n base false
kitoa (negsuc n) base =
    if ltb base 2 || ltb 36 base
    then []
    else if base == 10
    then 45 ∷ kutoa_internal (n + 1) base false
    else kutoa_internal (2 ^ 64 - (n + 1)) base false

push_case_digits-upper :
    (f val base : ℕ) (out : List ℕ)
    → push_case_digits true f val base out ≡ push_digits f val base out
unfolding push_case_digits push_digits
push_case_digits-upper zero val base out = refl
push_case_digits-upper (suc f) val base out = elim (Bool-cases (val == 0)) [
  | inl z ↦ rw z refl
  | inr nz ↦
      let same : case_digit true (val % base) ≡ digit (val % base) = ground arith in
      rw (nz, same) (push_case_digits-upper f (val / base) base (digit (val % base) ∷ out))
]

-- In upper case `kutoa_internal` writes for every number and base what `kutoa` writes.
kutoa_internal-kutoa : (val base : ℕ) → kutoa_internal val base true ≡ kutoa val base
unfolding kutoa_internal kutoa
kutoa_internal-kutoa val base = rw (push_case_digits-upper 64 val base []) refl
