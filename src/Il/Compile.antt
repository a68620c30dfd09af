-- ===== src/Il/Compile.antt =====
-- `il_compile_source` of kernel/il_runtime.c: where it ends, what it writes, and where not.
use os.Base.{
  ℕ, zero, suc, ◌-◌, ◌<◌, ◌≤◌, ◌≡◌, ◌≢◌, refl, sym, ◌∙◌, Bool, true, false, not, ◌&&◌, ◌||◌, Option,
  none, some, List, [], ◌∷◌, ltb, ◌==◌, if◌then◌else◌, arith, length, Bool-cases, inl, inr,
}
use os.Il.{
  max_instructions, Instr, is_digit, skip_digits, read_target, is_one_of, head_or, tail,
  compile_char, emit, written, compile,
}

-- Every '=' has another one to its pair; `half` says whether the first of a pair has been read.
abbrev pub paired : Bool → List ℕ → Bool
paired half [] = not half
paired true (c ∷ s) = (c == 61) && paired false s
paired false (c ∷ s) = paired (c == 61) s

skip_digits-length : (s : List ℕ) → length (skip_digits s) ≤ length s
unfolding skip_digits
skip_digits-length [] = omega arith
skip_digits-length (c ∷ s) = ground (arith, skip_digits-length s)

skip_digits-paired : (s : List ℕ) → paired false s ≡ true → paired false (skip_digits s) ≡ true
unfolding skip_digits
skip_digits-paired [] h = h
skip_digits-paired (c ∷ s) h = elim (Bool-cases (is_digit c)) [
  | inl d ↦
      let other : (c == 61) ≡ false = ground arith in rw d (skip_digits-paired s (rw other at h))
  | inr n ↦ rw n h
]

-- With room for an instruction, a '=' that no other '=' follows is never left behind: whatever the
-- rest of the source, no number of rounds ends the loop.
compile-stuck :
    (f ip : ℕ) (s : List ℕ)
    → ip < max_instructions - 1
    → head_or s 0 ≢ 61
    → compile f ip (61 ∷ s) ≡ none
unfolding compile compile_char
compile-stuck zero ip s h ne = refl
compile-stuck (suc f) ip s h ne =
    let single : (head_or s 0 == 61) ≡ false = ground arith in
    let room : ltb ip (max_instructions - 1) ≡ true = ground arith in
    rw single (rw room (compile-stuck f ip s h ne))

-- A property of a conditional, from the tests of its branches.
pub if_split {ℓ} :
    {A : Type ℓ} (P : A → Type 0) (b : Bool) (x y : A)
    → (b ≡ true → P x)
    → (b ≡ false → P y)
    → P (if b then x else y)
if_split P true x y f g = f refl
if_split P false x y f g = g refl

-- What a round leaves is shorter than what it started from, and paired.
record Left (s : List ℕ) (out : Option Instr × List ℕ) : Type 0 where
  shorter : length out.1 ≤ length s
  pairs : paired false out.1 ≡ true

paired-rest : (c : ℕ) (s : List ℕ) → c ≢ 61 → paired false (c ∷ s) ≡ true → paired false s ≡ true
paired-rest c s ne h = let other : (c == 61) ≡ false = ground arith in rw other at h

Left-rest :
    (c : ℕ) (s : List ℕ) (o : Option Instr) → c ≢ 61 → paired false (c ∷ s) ≡ true → Left s (o, s)
Left-rest c s o ne h = record { shorter = omega arith; pairs = paired-rest c s ne h }

Left-tail :
    (a : ℕ) (s : List ℕ) (o : Option Instr)
    → a ≢ 61
    → a ≢ 0
    → head_or s 0 ≡ a
    → paired false s ≡ true
    → Left s (o, tail s)
Left-tail a [] o ne nz e h = absurd (nz (sym e))
Left-tail a (d ∷ s) o ne nz e h =
    let rest = paired-rest d s (λ q. ne (sym e ∙ q)) h in
    record { shorter = omega arith; pairs = rest }

Left-pair :
    (s : List ℕ) (o : Option Instr) → head_or s 0 ≡ 61 → paired true s ≡ true → Left s (o, tail s)
Left-pair [] o e h = absurd (cc h)
Left-pair (d ∷ s) o e h = record { shorter = omega arith; pairs = rw (e) at h }

Left-digits :
    (c : ℕ) (s : List ℕ) (o : Option Instr)
    → is_digit c ≡ true
    → paired false (c ∷ s) ≡ true
    → Left s (o, skip_digits (c ∷ s))
unfolding skip_digits
Left-digits c s o d h = rw d (record {
  shorter = skip_digits-length s;
  pairs = skip_digits-paired s (paired-rest c s (λ e. absurd (ground arith)) h);
})

Left-skip :
    (c : ℕ) (s : List ℕ) (o : Option Instr)
    → c ≢ 61
    → paired false (c ∷ s) ≡ true
    → Left s (o, skip_digits s)
Left-skip c s o ne h = record {
  shorter = skip_digits-length s;
  pairs = skip_digits-paired s (paired-rest c s ne h);
}

paired-head : (s : List ℕ) → paired true s ≡ true → head_or s 0 ≡ 61
paired-head [] h = absurd (cc h)
paired-head (d ∷ s) h = ground (arith, h)

compile_char-Left : (c : ℕ) (s : List ℕ) → paired false (c ∷ s) ≡ true → Left s (compile_char c s)
unfolding compile_char
compile_char-Left c s h =
    if_split P (c == 32 || c == 10 || c == 9) _ _ (λ b. Left-rest c s _ (ground arith) h)
      (λ n1.
        if_split P (is_digit c) _ _ (λ b. Left-digits c s _ b h)
          (λ n2.
            if_split P (c == 43) _ _ (λ b. Left-rest c s _ (ground arith) h)
              (λ n3.
                if_split P (c == 45) _ _ (λ b. Left-rest c s _ (ground arith) h)
                  (λ n4.
                    if_split P (c == 42) _ _ (λ b. Left-rest c s _ (ground arith) h)
                      (λ n5.
                        if_split P (c == 61) _ _ (λ b. equals b) (λ n6. letters (ground arith)))))))
  where
    P : Option Instr × List ℕ → Type 0
    P = Left s

    equals :
        c == 61 ≡ true
        → Left s (
            if head_or s 0 == 61
            then (some (record { opcode = 0x09; operand = 0 }), tail s)
            else (none, c ∷ s))
    equals b =
        let second : paired true s ≡ true = rw b at h in
        if_split P (head_or s 0 == 61) _ _ (λ e. Left-pair s _ (ground arith) second)
          (λ n. absurd (ground (arith, paired-head s second)))

    jump :
        c ≢ 61
        → P (
            if is_one_of (head_or s 0) 122 90
            then (some (record { opcode = 0x0C; operand = 0 }), tail s)
            else if is_one_of (head_or s 0) 109 77
            then (some (record { opcode = 0x0B; operand = read_target 0 s }), skip_digits s)
            else (none, s))
    jump ne =
        if_split P (is_one_of (head_or s 0) 122 90) _ _
          (λ z.
            Left-tail (head_or s 0) s _ (ground arith) (ground arith) refl (paired-rest c s ne h))
          (λ n.
            if_split P (is_one_of (head_or s 0) 109 77) _ _ (λ m. Left-skip c s _ ne h)
              (λ n'. Left-rest c s _ ne h))

    letters :
        c ≢ 61
        → P (
            if is_one_of c 106 74
            then if is_one_of (head_or s 0) 122 90
              then (some (record { opcode = 0x0C; operand = 0 }), tail s)
              else if is_one_of (head_or s 0) 109 77
              then (some (record { opcode = 0x0B; operand = read_target 0 s }), skip_digits s)
              else (none, s)
            else if is_one_of c 112 80
            then (some (record { opcode = 0x10; operand = 0 }), s)
            else if is_one_of c 104 72
            then (some (record { opcode = 0x11; operand = 0 }), s)
            else (none, s))
    letters ne =
        if_split P (is_one_of c 106 74) _ _ (λ j. jump ne)
          (λ n.
            if_split P (is_one_of c 112 80) _ _ (λ p. Left-rest c s _ ne h)
              (λ n'.
                if_split P (is_one_of c 104 72) _ _ (λ q. Left-rest c s _ ne h)
                  (λ n''. Left-rest c s _ ne h)))

-- What the loop writes fits the space that is left.
abbrev pub Ends : ℕ → Option (List Instr) → Type 0
Ends room none = ⊥
Ends room (some out) = length out ≤ room

emit-Ends :
    (o : Option Instr) (ip : ℕ) (rest : Option (List Instr))
    → ip < max_instructions - 1
    → Ends (max_instructions - 1 - written o ip) rest
    → Ends (max_instructions - 1 - ip) (emit o rest)
emit-Ends none ip rest h e = e
emit-Ends (some x) ip none h e = e
emit-Ends (some x) ip (some out) h e = omega arith

-- Where every '=' has another to its pair, the loop ends within a round for each character and one
-- more, and no more instructions are written than the runtime has room for but one.
compile-Ends :
    (f ip : ℕ) (s : List ℕ)
    → length s < f
    → paired false s ≡ true
    → Ends (max_instructions - 1 - ip) (compile f ip s)
unfolding compile
compile-Ends zero ip s h p = absurd (omega arith)
compile-Ends (suc f) ip [] h p = omega arith
compile-Ends (suc f) ip (c ∷ s) h p = elim (Bool-cases (ltb ip (max_instructions - 1))) [
  | inr full ↦ rw full (omega arith)
  | inl room ↦
      let l = compile_char-Left c s p in
      rw room (
        emit-Ends (compile_char c s).0 ip _ (ground arith) (
          compile-Ends f (written (compile_char c s).0 ip) (compile_char c s).1
            (omega (arith, l.shorter)) l.pairs))
]
