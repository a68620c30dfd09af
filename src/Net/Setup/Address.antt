-- ===== src/Net/Setup/Address.antt =====
-- What `parse_ipv4` of kernel/net_stack.c accepts: dotted addresses, as they are written.
use os.Base.{
  ℕ, suc, ◌+◌, ◌-◌, ◌*◌, ◌/◌, ◌%◌, ◌^◌, ◌<◌, ◌≡◌, refl, ◌∙◌, true, false, some, List, [], ◌∷◌, ltb,
  if◌then◌else◌, arith, Bool-cases, inl, inr,
}
use os.Net.{Ip}
use os.Net.Setup.{is_digit, digits, part, parse_ipv4}

-- A number below 1000 in decimal, without leading zeros, in front of a string.
abbrev pub decimal : ℕ → List ℕ → List ℕ
decimal n s =
    if ltb n 10
    then (48 + n) ∷ s
    else if ltb n 100
    then (48 + n / 10) ∷ (48 + n % 10) ∷ s
    else (48 + n / 100) ∷ (48 + n / 10 % 10) ∷ (48 + n % 10) ∷ s

-- An address as it is written.
abbrev pub dotted : Ip → List ℕ
dotted x = decimal x.a (46 ∷ decimal x.b (46 ∷ decimal x.c (46 ∷ decimal x.d [])))

-- A string that does not go on with a digit.
abbrev Ends : List ℕ → Type 0
Ends [] = Unit {0}
Ends (c ∷ s) = is_digit c ≡ false

digits-Ends : (value count : ℕ) (s : List ℕ) → Ends s → digits value count s ≡ some (value, s)
unfolding digits
digits-Ends value count [] e = refl
digits-Ends value count (c ∷ s) e = rw (digits, e) refl

digits-digit :
    (value count d next : ℕ) (s : List ℕ)
    → d < 10
    → next ≡ value * 10 + d
    → next < 256
    → count < 3
    → digits value count ((48 + d) ∷ s) ≡ digits next (suc count) s
unfolding digits
digits-digit value count d next s low same small few =
    let e1 : is_digit (48 + d) ≡ true = ground (arith, low) in
    let e2 : (value * 10 + (48 + d - 48)) % 2 ^ 32 ≡ next = omega (arith, same, small) in
    let e3 : ltb 255 next ≡ false = ground (arith, small) in
    let e4 : ltb 3 (suc count) ≡ false = ground (arith, few) in rw (digits, e1, e2, e3, e4) refl

part-digits : (d : ℕ) (s : List ℕ) → d < 10 → part ((48 + d) ∷ s) ≡ digits 0 0 ((48 + d) ∷ s)
unfolding part
part-digits d s low = let e : is_digit (48 + d) ≡ true = ground (arith, low) in rw (part, e) refl

part-decimal : (n : ℕ) (s : List ℕ) → n < 256 → Ends s → part (decimal n s) ≡ some (n, s)
part-decimal n s low e = elim (Bool-cases (ltb n 10)) [
  | inl one ↦
      let d : n < 10 = ground (arith, one) in
      rw (one) (
        part-digits n s d
        ∙ digits-digit 0 0 n n s d (omega arith) low (omega arith)
        ∙ digits-Ends n 1 s e)
  | inr more ↦ elim (Bool-cases (ltb n 100)) [
    | inl two ↦
        let d : n / 10 < 10 = ground (arith, two) in
        let last = (48 + n % 10) ∷ s in
        rw (more, two)
          (part-digits (n / 10) last d
            ∙ digits-digit 0 0 (n / 10) (n / 10) last d (omega arith) (omega (arith, d))
                (omega arith)
            ∙ digits-digit (n / 10) 1 (n % 10) n s (omega arith) (omega arith) low (omega arith)
            ∙ digits-Ends n 2 s e)
    | inr three ↦
        let d : n / 100 < 10 = omega (arith, low) in
        let last = (48 + n % 10) ∷ s in
        let middle = (48 + n / 10 % 10) ∷ last in
        rw (more, three)
          (part-digits (n / 100) middle d
            ∙ digits-digit 0 0 (n / 100) (n / 100) middle d (omega arith) (omega (arith, low))
                (omega arith)
            ∙ digits-digit (n / 100) 1 (n / 10 % 10) (n / 10) last (omega arith) (omega arith)
                (omega (arith, low)) (omega arith)
            ∙ digits-digit (n / 10) 2 (n % 10) n s (omega arith) (omega arith) low (omega arith)
            ∙ digits-Ends n 3 s e)
  ]
]

-- Every address, written with dots and without leading zeros, is parsed to itself.
parse_ipv4-dotted :
    (x : Ip) → x.a < 256 → x.b < 256 → x.c < 256 → x.d < 256 → parse_ipv4 (dotted x) ≡ some x
unfolding parse_ipv4
parse_ipv4-dotted x a b c d =
    let tail = decimal x.d [] in
    let third = decimal x.c (46 ∷ tail) in
    let second = decimal x.b (46 ∷ third) in
    let e1 = part-decimal x.a (46 ∷ second) a refl in
    let e2 = part-decimal x.b (46 ∷ third) b refl in
    let e3 = part-decimal x.c (46 ∷ tail) c refl in
    let e4 = part-decimal x.d [] d tt in rw (parse_ipv4, e1, e2, e3, e4) refl
