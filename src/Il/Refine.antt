-- ===== src/Il/Refine.antt =====
-- The loop of `il_run` of kernel/il_runtime.c beside a machine on a list of numbers.
use os.Base.{
  subst, ap₂, ℕ, zero, suc, ◌+◌, ◌-◌, ◌<◌, ◌≤◌, ◌≡◌, refl, sym, ◌∙◌, ap, Bool, true, false, ◌&&◌,
  Option, none, some, List, [], ◌∷◌, ltb, ◌==◌, if◌then◌else◌, update, arith, length, slice,
  Bool-cases, inl, inr, lt→ltb, ==_self,
}
use os.Il.{
  max_stack, max_instructions, Op, op_nop, op_loadi, op_add, op_sub, op_mul, op_eq, op_jmp, op_jz,
  op_call, op_ret, op_print, op_halt, op_unknown, op_of, Instr, Runtime, binary, add_u64, sub_u64,
  mul_u64, eq_u64, exec, step, run_loop, started, run,
}

-- The same machine with a list for its stack, the top first.
pub record Machine : Type 0 where
  pub pc : ℕ
  pub values : List ℕ
  pub going : Bool
  pub output : List ℕ

abbrev operate : (ℕ → ℕ → ℕ) → List ℕ → List ℕ
operate f [] = []
operate f (b ∷ []) = b ∷ []
operate f (b ∷ a ∷ s) = f a b ∷ s

abbrev grow : ℕ → List ℕ → List ℕ
grow v s = if ltb (length s) max_stack then v ∷ s else s

abbrev jump_if_zero : ℕ → List ℕ → Machine → Machine
jump_if_zero x [] m = m
jump_if_zero x (v ∷ s) m = record m { values = s; pc = if v == 0 then x else m.pc }

abbrev return : List ℕ → Machine → Machine
return [] m = record m { going = false }
return (v ∷ s) m = record m { values = s; pc = v }

abbrev print : List ℕ → Machine → Machine
print [] m = m
print (v ∷ s) m = record m { values = s; output = v ∷ m.output }

pub perform : Op → ℕ → Machine → Machine
perform op_nop x m = m
perform op_loadi x m = record m { values = grow x m.values }
perform op_add x m = record m { values = operate add_u64 m.values }
perform op_sub x m = record m { values = operate sub_u64 m.values }
perform op_mul x m = record m { values = operate mul_u64 m.values }
perform op_eq x m = record m { values = operate eq_u64 m.values }
perform op_print x m = print m.values m
perform op_halt x m = record m { going = false }
perform op_jmp x m = record m { pc = x }
perform op_jz x m = jump_if_zero x m.values m
perform op_call x m = record m { values = grow m.pc m.values; pc = x }
perform op_ret x m = return m.values m
perform op_unknown x m = record m { going = false }

-- The rounds of the loop on that machine.
pub perform_all : ℕ → (ℕ → Instr) → Machine → Option Machine
unfolding perform
perform_all zero code m = none
perform_all (suc f) code m =
    let i = code m.pc in
    let rest =
      perform_all f code (perform (op_of i.opcode) i.operand (record m { pc = m.pc + 1 })) in
    if m.going && ltb m.pc max_instructions then rest else some m

abbrev view_stack : (ℕ → ℕ) → ℕ → List ℕ
view_stack stack sp = slice stack sp (max_stack - sp)

abbrev pub view : Runtime → Machine
view r = record {
  pc = r.ip;
  values = view_stack r.stack r.sp;
  going = r.running;
  output = r.printed;
}

view-empty : (stack : ℕ → ℕ) (sp : ℕ) → ltb sp max_stack ≡ false → view_stack stack sp ≡ []
view-empty stack sp h = let e : max_stack - sp ≡ 0 = ground arith in rw e refl

view-top :
    (stack : ℕ → ℕ) (sp : ℕ)
    → ltb sp max_stack ≡ true
    → view_stack stack sp ≡ stack sp ∷ view_stack stack (sp + 1)
view-top stack sp h =
    let e : max_stack - sp ≡ suc (max_stack - (sp + 1)) = ground arith in rw e refl

length-slice : (a : ℕ → ℕ) (i n : ℕ) → length (slice a i n) ≡ n
length-slice a i zero = refl
length-slice a i (suc n) = ap suc (length-slice a (i + 1) n)

-- A write below a slice.
slice-update : (a : ℕ → ℕ) (j v i n : ℕ) → j < i → slice (update a j v) i n ≡ slice a i n
slice-update a j v i zero h = refl
slice-update a j v i (suc n) h =
    let away : (j == i) ≡ false = ground arith in
    rw away (ap (λ l. a i ∷ l) (slice-update a j v (i + 1) n (omega arith)))

view-written :
    (stack : ℕ → ℕ) (sp v : ℕ)
    → sp < max_stack
    → view_stack (update stack sp v) sp ≡ v ∷ view_stack stack (sp + 1)
view-written stack sp v h =
    view-top (update stack sp v) sp (lt→ltb sp max_stack h)
    ∙ rw (==_self sp)
        (ap (λ l. v ∷ l) (slice-update stack sp v (sp + 1) (max_stack - (sp + 1)) (omega arith)))

view-push :
    (stack : ℕ → ℕ) (sp v : ℕ)
    → ltb 0 sp ≡ true
    → sp ≤ max_stack
    → (view_stack (update stack (sp - 1) v) (sp - 1) ≡ v ∷ view_stack stack sp)
      × (grow v (view_stack stack sp) ≡ v ∷ view_stack stack sp)
view-push stack sp v h small =
    (view-written stack (sp - 1) v (ground arith) ∙ rw back refl, rw (length-slice, room) refl)
  where
    back : sp - 1 + 1 ≡ sp
    back = ground arith

    room : ltb (max_stack - sp) max_stack ≡ true
    room = ground arith

view-full :
    (stack : ℕ → ℕ) (sp v : ℕ)
    → ltb 0 sp ≡ false
    → grow v (view_stack stack sp) ≡ view_stack stack sp
view-full stack sp v h =
    let full : ltb (max_stack - sp) max_stack ≡ false = ground arith in rw (length-slice, full) refl

view-binary :
    (f : ℕ → ℕ → ℕ) (stack : ℕ → ℕ) (sp : ℕ)
    → ltb sp (max_stack - 1) ≡ true
    → view_stack (update stack (sp + 1) (f (stack (sp + 1)) (stack sp))) (sp + 1)
      ≡ operate f (view_stack stack sp)
view-binary f stack sp h =
    view-written stack (sp + 1) (f (stack (sp + 1)) (stack sp)) (ground arith)
    ∙ rw (view-top stack sp (ground arith), view-top stack (sp + 1) (ground arith)) refl

view-unary :
    (f : ℕ → ℕ → ℕ) (stack : ℕ → ℕ) (sp : ℕ)
    → ltb sp (max_stack - 1) ≡ false
    → view_stack stack sp ≡ operate f (view_stack stack sp)
view-unary f stack sp h = elim (Bool-cases (ltb sp max_stack)) [
  | inl one ↦ rw (view-top stack sp one, view-empty stack (sp + 1) (ground arith)) refl
  | inr empty ↦ rw (view-empty stack sp empty) refl
]

-- A machine with another stack.
abbrev with_values : Machine → List ℕ → Machine
with_values m s = record m { values = s }

binary-view :
    (f : ℕ → ℕ → ℕ) (r : Runtime)
    → r.sp ≤ max_stack
    → (view (binary f r) ≡ with_values (view r) (operate f (view r).values))
      × ((binary f r).sp ≤ max_stack)
binary-view f r h = elim (Bool-cases (ltb r.sp (max_stack - 1))) [
  | inl two ↦
      rw two (ap (λ s. with_values (view r) s) (view-binary f r.stack r.sp two), ground arith)
  | inr few ↦ rw few (ap (λ s. with_values (view r) s) (view-unary f r.stack r.sp few), h)
]

exec-view :
    (o : Op) (x : ℕ) (r : Runtime)
    → r.sp ≤ max_stack
    → (view (exec o x r) ≡ perform o x (view r)) × ((exec o x r).sp ≤ max_stack)
unfolding exec perform
exec-view op_nop x r h = (refl, h)
exec-view op_add x r h = binary-view add_u64 r h
exec-view op_sub x r h = binary-view sub_u64 r h
exec-view op_mul x r h = binary-view mul_u64 r h
exec-view op_eq x r h = binary-view eq_u64 r h
exec-view op_halt x r h = (refl, h)
exec-view op_jmp x r h = (refl, h)
exec-view op_unknown x r h = (refl, h)
exec-view op_loadi x r h = elim (Bool-cases (ltb 0 r.sp)) [
  | inl room ↦
      let (a, b) = view-push r.stack r.sp x room h in
      rw room (ap (λ s. with_values (view r) s) (a ∙ sym b), omega arith)
  | inr full ↦ rw full (ap (λ s. with_values (view r) s) (sym (view-full r.stack r.sp x full)), h)
]
exec-view op_call x r h = elim (Bool-cases (ltb 0 r.sp)) [
  | inl room ↦
      let (a, b) = view-push r.stack r.sp r.ip room h in
      rw room (ap (λ s. record (view r) { values = s; pc = x }) (a ∙ sym b), omega arith)
  | inr full ↦
      rw full (
        ap (λ s. record (view r) { values = s; pc = x }) (sym (view-full r.stack r.sp r.ip full)),
        h,
      )
]
exec-view op_print x r h = elim (Bool-cases (ltb r.sp max_stack)) [
  | inl some_left ↦ rw some_left (rw (view-top r.stack r.sp some_left) refl, ground arith)
  | inr empty ↦ rw empty (rw (view-empty r.stack r.sp empty) refl, h)
]
exec-view op_jz x r h = elim (Bool-cases (ltb r.sp max_stack)) [
  | inl some_left ↦ rw some_left (rw (view-top r.stack r.sp some_left) refl, ground arith)
  | inr empty ↦ rw empty (rw (view-empty r.stack r.sp empty) refl, h)
]
exec-view op_ret x r h = elim (Bool-cases (ltb r.sp max_stack)) [
  | inl some_left ↦ rw some_left (rw (view-top r.stack r.sp some_left) refl, ground arith)
  | inr empty ↦ rw empty (rw (view-empty r.stack r.sp empty) refl, h)
]

binary-code : (f : ℕ → ℕ → ℕ) (r : Runtime) → (binary f r).instructions ≡ r.instructions
binary-code f r = ground arith

pub exec-code : (o : Op) (x : ℕ) (r : Runtime) → (exec o x r).instructions ≡ r.instructions
unfolding exec
exec-code op_nop x r = refl
exec-code op_add x r = binary-code add_u64 r
exec-code op_sub x r = binary-code sub_u64 r
exec-code op_mul x r = binary-code mul_u64 r
exec-code op_eq x r = binary-code eq_u64 r
exec-code op_halt x r = refl
exec-code op_jmp x r = refl
exec-code op_unknown x r = refl
exec-code op_loadi x r = ground arith
exec-code op_call x r = ground arith
exec-code op_print x r = ground arith
exec-code op_jz x r = ground arith
exec-code op_ret x r = ground arith

-- The machine that a run ends in, and whether the stack pointer is in the array then.
abbrev pub Represents : Option Runtime → Option Machine → Type 0
Represents none o = o ≡ none
Represents (some r) o = (o ≡ some (view r)) × (r.sp ≤ max_stack)

run_loop-Represents :
    (f : ℕ) (r : Runtime)
    → r.sp ≤ max_stack
    → Represents (run_loop f r) (perform_all f r.instructions (view r))
unfolding run_loop perform_all step
run_loop-Represents zero r h = refl
run_loop-Represents (suc f) r h = elim (Bool-cases (r.running && ltb r.ip max_instructions)) [
  | inr stop ↦ rw stop (refl, h)
  | inl go ↦
      let i = r.instructions r.ip in
      let r1 : Runtime = record r { ip = r.ip + 1 } in
      let (same, small) = exec-view (op_of i.opcode) i.operand r1 h in
      let code = exec-code (op_of i.opcode) i.operand r1 in
      rw go (
        subst (λ o. Represents (run_loop f (step r)) o) (ap₂ (λ c m. perform_all f c m) code same)
          (run_loop-Represents f (step r) small))
]

-- A run of `il_run` is a run of the machine whose stack is a list of at most 1024 numbers: with the
-- same fuel both end or neither does, and at the end they have the same instruction pointer, the same
-- numbers on the stack and the same output, and the stack pointer lies in the array or one behind it.
-- On that machine a push on a full stack is dropped, also the one of a CALL, which jumps all the same;
-- arithmetic, PRINT and JZ without their operands do nothing, and RET on an empty stack stops.
pub run-Refines :
    (f : ℕ) (r : Runtime)
    → Represents (run f r) (
        perform_all f r.instructions
          (record { pc = 0; values = []; going = true; output = r.printed }))
unfolding run
run-Refines f r = run_loop-Represents f (started r) (omega arith)
