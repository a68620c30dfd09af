-- ===== src/User/Tests.antt =====
-- A task with one page that may be written and one that may only be read, and the theorems about the
-- copies of kernel/syscall.c there.
use os.Base.{ℕ, ◌+◌, ◌%◌, ◌==◌, if◌then◌else◌}
use os.Vmm.{Vm}

-- The tables lie at 4096, 8192, 12288 and 16384; address 12288 is in the page at 65536, and 16384 in
-- the one at 69632.
abbrev tables : Vm
tables = record {
  words = λ a.
      if a == 4096
      then 8192 + 7
      else if a == 8192
      then 12288 + 7
      else if a == 12288
      then 16384 + 7
      else if a == 16384 + 24
      then 65536 + 7
      else if a == 16384 + 32
      then 69632 + 5
      else 0;
  cr3 = 4096;
  pmm = record { bitmap = λ i. 0; last_free = 0 };
}

abbrev memory : ℕ → ℕ
memory p = p % 251
