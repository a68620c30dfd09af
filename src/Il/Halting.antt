-- ===== src/Il/Halting.antt =====
-- Programs for `il_run` of kernel/il_runtime.c without jumps.
use os.Base.{
  ℕ, zero, suc, ◌+◌, ◌-◌, ◌<◌, ◌≤◌, ◌≡◌, refl, Bool, true, false, ◌&&◌, some, ltb, arith,
  Bool-cases, inl, inr,
}
use os.Il.{
  max_instructions, Op, op_nop, op_loadi, op_add, op_sub, op_mul, op_eq, op_jmp, op_jz, op_call,
  op_ret, op_print, op_halt, op_unknown, op_of, Runtime, binary, add_u64, sub_u64, mul_u64, eq_u64,
  exec, step, run_loop, started, run,
}
use os.Il.Refine.{exec-code}

-- The operations that do not set the instruction pointer.
abbrev pub is_straight : Op → Bool
is_straight op_jmp = false
is_straight op_jz = false
is_straight op_call = false
is_straight op_ret = false
is_straight op_nop = true
is_straight op_loadi = true
is_straight op_add = true
is_straight op_sub = true
is_straight op_mul = true
is_straight op_eq = true
is_straight op_print = true
is_straight op_halt = true
is_straight op_unknown = true

binary-ip : (f : ℕ → ℕ → ℕ) (r : Runtime) → (binary f r).ip ≡ r.ip
binary-ip f r = ground arith

exec-ip : (o : Op) (x : ℕ) (r : Runtime) → is_straight o ≡ true → (exec o x r).ip ≡ r.ip
unfolding exec
exec-ip op_nop x r h = refl
exec-ip op_add x r h = binary-ip add_u64 r
exec-ip op_sub x r h = binary-ip sub_u64 r
exec-ip op_mul x r h = binary-ip mul_u64 r
exec-ip op_eq x r h = binary-ip eq_u64 r
exec-ip op_halt x r h = refl
exec-ip op_unknown x r h = refl
exec-ip op_loadi x r h = ground arith
exec-ip op_print x r h = ground arith
exec-ip op_jmp x r h = absurd (cc h)
exec-ip op_jz x r h = absurd (cc h)
exec-ip op_call x r h = absurd (cc h)
exec-ip op_ret x r h = absurd (cc h)

-- No instruction jumps.
abbrev pub IsStraight : Runtime → Type 0
IsStraight r = (i : ℕ) → i < max_instructions → is_straight (op_of (r.instructions i).opcode) ≡ true

abbrev pub Halts : ℕ → Runtime → Type 0
Halts f r = (r' : Runtime) × (run_loop f r ≡ some r') × (r'.ip ≤ max_instructions)

run_loop-Halts :
    (f : ℕ) (r : Runtime)
    → IsStraight r
    → r.ip ≤ max_instructions
    → max_instructions - r.ip < f
    → Halts f r
unfolding run_loop step
run_loop-Halts zero r s h lt = absurd (omega arith)
run_loop-Halts (suc f) r s h lt = elim (Bool-cases (r.running && ltb r.ip max_instructions)) [
  | inr stop ↦ (r, rw stop refl, h)
  | inl go ↦
      let i = r.instructions r.ip in
      let r1 : Runtime = record r { ip = r.ip + 1 } in
      let inside : r.ip < max_instructions = ground arith in
      let next : (step r).ip ≡ r.ip + 1 = exec-ip (op_of i.opcode) i.operand r1 (s r.ip inside) in
      let code : (step r).instructions ≡ r.instructions = exec-code (op_of i.opcode) i.operand r1 in
      let (r', e, small) =
        run_loop-Halts f (step r) (λ j hj. rw code (s j hj)) (omega (arith, next))
          (omega (arith, next)) in
      (r', rw go e, small)
]

-- A program without jumps, calls and returns ends within one round for each of its instructions
-- and one more, whatever the runtime held before.
run_halts :
    (r : Runtime)
    → IsStraight r
    → (r' : Runtime) × (run (max_instructions + 1) r ≡ some r') × (r'.ip ≤ max_instructions)
unfolding run
run_halts r s = run_loop-Halts (max_instructions + 1) (started r) s (omega arith) (omega arith)
