-- ===== src/Il/Tests.antt =====
-- Runs and compilations of kernel/il_runtime.c, and its theorems at them.
use os.Base.{ℕ, ◌≡◌, refl, true, false, Option, none, some, List, [], ◌∷◌}
use os.Il.{Instr, Runtime, run, run_loop, step, exec, store_program}
use os.Il.Refine.{perform_all, Represents, run-Refines}

-- 2 3 + p h
abbrev sum : List Instr
sum =
    record { opcode = 0x01; operand = 2 }
    ∷ record { opcode = 0x01; operand = 3 }
    ∷ record { opcode = 0x04; operand = 0 }
    ∷ record { opcode = 0x10; operand = 0 }
    ∷ record { opcode = 0x11; operand = 0 }
    ∷ []

abbrev sum_runtime : Runtime
sum_runtime = record {
  instructions = store_program (λ i. record { opcode = 0; operand = 0 }) 0 sum;
  ip = 0;
  stack = λ i. 0;
  sp = 0;
  running = false;
  printed = [];
}

abbrev empty_runtime : Runtime
empty_runtime = record sum_runtime { instructions = λ i. record { opcode = 0; operand = 0 } }

abbrev printed_by : Option Runtime → List ℕ
printed_by none = []
printed_by (some r) = r.printed

prints_5 : printed_by (run 9 sum_runtime) ≡ 5 ∷ []
unfolding run run_loop step exec store_program
prints_5 = refl

run-Refines_example : Represents (run 9 sum_runtime) (
    perform_all 9 sum_runtime.instructions
      (record { pc = 0; values = []; going = true; output = [] }))
run-Refines_example = run-Refines 9 sum_runtime
