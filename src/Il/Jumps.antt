-- ===== src/Il/Jumps.antt =====
-- The jumps that `il_compile_source` of kernel/il_runtime.c writes.
use os.Base.{
  ℕ, zero, suc, ◌≡◌, refl, true, false, ◌||◌, Option, none, some, List, [], ◌∷◌, ltb, ◌==◌, arith,
  Bool-cases, inl, inr, ◌-◌,
}
use os.Il.{
  max_instructions, Instr, is_digit, read_target, is_one_of, head_or, compile_char, emit, written,
  compile,
}
use os.Il.Compile.{if_split}

-- An instruction that is no jump, or a jump to 0.
abbrev ToZero : Option Instr → Type 0
ToZero none = Unit {0}
ToZero (some i) = i.opcode ≡ 0x0B → i.operand ≡ 0

abbrev pub AllToZero : Option (List Instr) → Type 0
AllToZero none = Unit {0}
AllToZero (some []) = Unit {0}
AllToZero (some (i ∷ out)) = (i.opcode ≡ 0x0B → i.operand ≡ 0) × AllToZero (some out)

-- The character behind the 'j' is still there, and is no digit.
read_target-letter : (s : List ℕ) → is_one_of (head_or s 0) 109 77 ≡ true → read_target 0 s ≡ 0
unfolding read_target
read_target-letter [] h = refl
read_target-letter (c ∷ s) h = let letter : is_digit c ≡ false = ground arith in rw letter refl

compile_char-ToZero : (c : ℕ) (s : List ℕ) → ToZero (compile_char c s).0
unfolding compile_char
compile_char-ToZero c s =
    if_split P (c == 32 || c == 10 || c == 9) _ _ (λ b. tt)
      (λ n.
        if_split P (is_digit c) _ _ (λ b e. absurd (omega arith))
          (λ n.
            if_split P (c == 43) _ _ (λ b e. refl)
              (λ n.
                if_split P (c == 45) _ _ (λ b e. refl)
                  (λ n.
                    if_split P (c == 42) _ _ (λ b e. refl)
                      (λ n.
                        if_split P (c == 61) _ _
                          (λ b. if_split P (head_or s 0 == 61) _ _ (λ b e. refl) (λ n. tt))
                          (λ n.
                            if_split P (is_one_of c 106 74) _ _
                              (λ b.
                                if_split P (is_one_of (head_or s 0) 122 90) _ _ (λ b e. refl)
                                  (λ n.
                                    if_split P (is_one_of (head_or s 0) 109 77) _ _
                                      (λ m e. read_target-letter s m) (λ n. tt)))
                              (λ n.
                                if_split P (is_one_of c 112 80) _ _ (λ b e. refl)
                                  (λ n.
                                    if_split P (is_one_of c 104 72) _ _ (λ b e. refl)
                                      (λ n. tt)))))))))
  where
    P : Option Instr × List ℕ → Type 0
    P out = ToZero out.0

emit-AllToZero :
    (o : Option Instr) (rest : Option (List Instr))
    → ToZero o
    → AllToZero rest
    → AllToZero (emit o rest)
emit-AllToZero none rest z a = a
emit-AllToZero (some i) none z a = tt
emit-AllToZero (some i) (some out) z a = (z, a)

-- Every jump in every program that `il_compile_source` writes has the target 0: the number behind
-- "jm" is never read.
compile-AllToZero : (f ip : ℕ) (s : List ℕ) → AllToZero (compile f ip s)
unfolding compile
compile-AllToZero zero ip s = tt
compile-AllToZero (suc f) ip [] = tt
compile-AllToZero (suc f) ip (c ∷ s) = elim (Bool-cases (ltb ip (max_instructions - 1))) [
  | inr full ↦ rw full tt
  | inl room ↦ rw room (
      emit-AllToZero (compile_char c s).0 _ (compile_char-ToZero c s)
        (compile-AllToZero f (written (compile_char c s).0 ip) (compile_char c s).1))
]
