-- ===== src/Il.antt =====
-- kernel/il_runtime.c: the stack machine and its compiler.
pub mod Refine
pub mod Halting
pub mod Compile
pub mod Jumps
mod Tests
use os.Base.{
  ℕ, zero, suc, ◌+◌, ◌-◌, ◌*◌, ◌%◌, ◌^◌, Bool, true, false, ◌&&◌, ◌||◌, Option, none, some, List,
  [], ◌∷◌, ltb, leb, ◌==◌, if◌then◌else◌, update, length, ℤ, pos, minus_one,
}
use os.Str.{katoi}

-- IL_MAX_STACK and IL_MAX_INSTRUCTIONS
abbrev pub max_stack : ℕ
max_stack = 1024

abbrev pub max_instructions : ℕ
max_instructions = 4096

-- The opcodes that the `switch` of `il_run` has a case for, and its default.
pub data Op : Type 0 where
  op_nop op_loadi op_add op_sub op_mul op_eq op_jmp op_jz op_call op_ret op_print op_halt
        op_unknown :
      Op

abbrev pub op_of : ℕ → Op
op_of opcode =
    if opcode == 0x00
    then op_nop
    else if opcode == 0x01
    then op_loadi
    else if opcode == 0x04
    then op_add
    else if opcode == 0x05
    then op_sub
    else if opcode == 0x06
    then op_mul
    else if opcode == 0x09
    then op_eq
    else if opcode == 0x0B
    then op_jmp
    else if opcode == 0x0C
    then op_jz
    else if opcode == 0x0E
    then op_call
    else if opcode == 0x0F
    then op_ret
    else if opcode == 0x10
    then op_print
    else if opcode == 0x11
    then op_halt
    else op_unknown

-- `il_instruction_t`
pub record Instr : Type 0 where
  pub opcode : ℕ
  pub operand : ℕ

-- `il_runtime_t` without the globals, which no instruction uses, and with the numbers that
-- IL_PRINT has written, latest first.
pub record Runtime : Type 0 where
  pub instructions : ℕ → Instr
  pub ip : ℕ
  pub stack : ℕ → ℕ
  pub sp : ℕ
  pub running : Bool
  pub printed : List ℕ

-- stack[--sp] = v
abbrev pub push : ℕ → Runtime → Runtime
push v r = record r { stack = update r.stack (r.sp - 1) v; sp = r.sp - 1 }

-- b = stack[sp++]; a = stack[sp++]; stack[--sp] = f(a, b)
abbrev pub binary : (ℕ → ℕ → ℕ) → Runtime → Runtime
binary f r =
    if ltb r.sp (max_stack - 1)
    then record r {
      stack = update r.stack (r.sp + 1) (f (r.stack (r.sp + 1)) (r.stack r.sp));
      sp = r.sp + 1;
    }
    else r

-- u64 arithmetic
abbrev pub add_u64 : ℕ → ℕ → ℕ
add_u64 a b = (a + b) % 2 ^ 64

abbrev pub sub_u64 : ℕ → ℕ → ℕ
sub_u64 a b = (a + 2 ^ 64 - b) % 2 ^ 64

abbrev pub mul_u64 : ℕ → ℕ → ℕ
mul_u64 a b = a * b % 2 ^ 64

abbrev pub eq_u64 : ℕ → ℕ → ℕ
eq_u64 a b = if a == b then 1 else 0

-- The cases of the `switch`.
pub exec : Op → ℕ → Runtime → Runtime
exec op_nop x r = r
exec op_loadi x r = if ltb 0 r.sp then push x r else r
exec op_add x r = binary add_u64 r
exec op_sub x r = binary sub_u64 r
exec op_mul x r = binary mul_u64 r
exec op_eq x r = binary eq_u64 r
exec op_print x r =
    if ltb r.sp max_stack then record r { printed = r.stack r.sp ∷ r.printed; sp = r.sp + 1 } else r
exec op_halt x r = record r { running = false }
exec op_jmp x r = record r { ip = x }
exec op_jz x r =
    if ltb r.sp max_stack
    then record r { sp = r.sp + 1; ip = if r.stack r.sp == 0 then x else r.ip }
    else r
exec op_call x r = if ltb 0 r.sp then record (push r.ip r) { ip = x } else record r { ip = x }
exec op_ret x r =
    if ltb r.sp max_stack
    then record r { ip = r.stack r.sp; sp = r.sp + 1 }
    else record r { running = false }
exec op_unknown x r = record r { running = false }

-- One round of the loop.
pub step : Runtime → Runtime
unfolding exec
step r = let i = r.instructions r.ip in exec (op_of i.opcode) i.operand (record r { ip = r.ip + 1 })

-- The loop; none means that the fuel ran out.
pub run_loop : ℕ → Runtime → Option Runtime
unfolding step
run_loop zero r = none
run_loop (suc f) r =
    let rest = run_loop f (step r) in
    if r.running && ltb r.ip max_instructions then rest else some r

abbrev pub started : Runtime → Runtime
started r = record r { running = true; ip = 0; sp = max_stack }

pub run : ℕ → Runtime → Option Runtime
run fuel r = run_loop fuel (started r)

pub reset : Runtime → Runtime
reset r = record r { ip = 0; sp = max_stack; running = false }

pub destroy : Runtime → Runtime
destroy r = record r { running = false }

-- rt->instructions[i] = prog[i]
pub store_program : (ℕ → Instr) → ℕ → List Instr → ℕ → Instr
store_program code i [] = code
store_program code i (x ∷ prog) = store_program (update code i x) (i + 1) prog

-- `il_load_program` of a runtime that is not NULL and `len` instructions.
pub load_program : List Instr → Runtime → Runtime × ℤ
unfolding store_program
load_program prog r =
    if ltb max_instructions (length prog)
    then (r, minus_one)
    else (record r { instructions = store_program r.instructions 0 prog }, pos 0)

abbrev pub is_digit : ℕ → Bool
is_digit c = leb 48 c && leb c 57

-- What is left of a source behind its digits.
pub skip_digits : List ℕ → List ℕ
skip_digits [] = []
skip_digits (c ∷ s) = let rest = skip_digits s in if is_digit c then rest else c ∷ s

-- target = target * 10 + digit, on usize
pub read_target : ℕ → List ℕ → ℕ
read_target target [] = target
read_target target (c ∷ s) =
    let rest = read_target ((target * 10 + (c - 48)) % 2 ^ 64) s in
    if is_digit c then rest else target

abbrev pub is_one_of : ℕ → ℕ → ℕ → Bool
is_one_of c a b = c == a || c == b

abbrev pub head_or : List ℕ → ℕ → ℕ
head_or [] d = d
head_or (c ∷ s) d = c

abbrev pub tail : List ℕ → List ℕ
tail [] = []
tail (c ∷ s) = s

-- What one round of `il_compile_source` does at a character: it writes an instruction or none, and
-- goes on at what is left of the source.
pub compile_char : ℕ → List ℕ → Option Instr × List ℕ
unfolding skip_digits read_target
compile_char c s =
    if c == 32 || c == 10 || c == 9
    then (none, s)
    else if is_digit c
    then (some (record { opcode = 0x01; operand = katoi (some (c ∷ s)) 10 }), skip_digits (c ∷ s))
    else if c == 43
    then (some (record { opcode = 0x04; operand = 0 }), s)
    else if c == 45
    then (some (record { opcode = 0x05; operand = 0 }), s)
    else if c == 42
    then (some (record { opcode = 0x06; operand = 0 }), s)
    else if c == 61
    then if head_or s 0 == 61
      then (some (record { opcode = 0x09; operand = 0 }), tail s)
      else (none, c ∷ s)
    else if is_one_of c 106 74
    then if is_one_of (head_or s 0) 122 90
      then (some (record { opcode = 0x0C; operand = 0 }), tail s)
      else if is_one_of (head_or s 0) 109 77
      then (some (record { opcode = 0x0B; operand = read_target 0 s }), skip_digits s)
      else (none, s)
    else if is_one_of c 112 80
    then (some (record { opcode = 0x10; operand = 0 }), s)
    else if is_one_of c 104 72
    then (some (record { opcode = 0x11; operand = 0 }), s)
    else (none, s)

-- out[ip++] = instruction, where there is one.
abbrev pub emit : Option Instr → Option (List Instr) → Option (List Instr)
emit none rest = rest
emit (some x) none = none
emit (some x) (some rest) = some (x ∷ rest)

abbrev pub written : Option Instr → ℕ → ℕ
written none ip = ip
written (some x) ip = ip + 1

-- The loop of `il_compile_source`, with `ip` instructions written: what it writes from here on.
-- None means that the fuel ran out.
pub compile : ℕ → ℕ → List ℕ → Option (List Instr)
compile zero ip s = none
compile (suc f) ip [] = some []
compile (suc f) ip (c ∷ s) =
    let (o, rest) = compile_char c s in
    let more = emit o (compile f (written o ip) rest) in
    if ltb ip (max_instructions - 1) then more else some []
