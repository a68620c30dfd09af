-- ===== src/Pipe/Tests.antt =====
-- The theorems of kernel/pipe.c at small pipes.
use os.Base.{
  ℕ, ◌≡◌, refl, ◌++◌, none, some, List, [], ◌∷◌, arith, ◌==◌, update, pos, minus_one, if◌then◌else◌,
}
use os.Kernel.{Kernel}
use os.Kernel.Sample.{sample_kernel}
use os.Pipe.{Pipe, Pipes, copy_out}
use os.Pipe.Ring.{contents, IsValid}
use os.Pipe.Fifo.{Op, reads, writes, run, run-fifo}

-- Three bytes, the last of them behind the end of the buffer.
abbrev wrapped : Pipe
wrapped = record {
  buffer = λ j. if j == 4094 then 10 else if j == 4095 then 20 else if j == 0 then 30 else 0;
  read_pos = 4094;
  write_pos = 1;
  count = 3;
  reader = none;
  writer = some 2;
  read_fd = pos 0;
  write_fd = pos 1;
}

-- One byte of room.
abbrev nearly_full : Pipe
nearly_full = record wrapped { read_pos = 0; write_pos = 4095; count = 4095 }

abbrev some_pipes : Pipes
some_pipes i = wrapped

abbrev full_pipes : Pipes
full_pipes i = nearly_full

abbrev half_closed : Pipes
half_closed = update some_pipes 1 (record wrapped { read_fd = minus_one; write_fd = pos 3 })

abbrev ignores : ℕ → ℕ → Kernel → Kernel
ignores h s k = k

wrapped-IsValid : IsValid wrapped
wrapped-IsValid = record { in_ring = omega arith; bounded = omega arith; meets = omega arith }

nearly_full-IsValid : IsValid nearly_full
nearly_full-IsValid = record { in_ring = omega arith; bounded = omega arith; meets = omega arith }

contents-wrapped : contents wrapped ≡ 10 ∷ 20 ∷ 30 ∷ []
unfolding contents copy_out
contents-wrapped = refl

abbrev history : List (Op × Kernel)
history =
    (writes (7 ∷ 8 ∷ []), sample_kernel) ∷ (reads 4, sample_kernel) ∷ (reads 9, sample_kernel) ∷ []

run-fifo_example :
    let (g, a, ps') = run ignores 0 history some_pipes in
    g ++ contents (ps' 0) ≡ contents wrapped ++ a
run-fifo_example = run-fifo ignores 0 history some_pipes (λ i. wrapped-IsValid)
