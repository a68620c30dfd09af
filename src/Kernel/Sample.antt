-- ===== src/Kernel/Sample.antt =====
-- A small kernel for the runs of the kernel's modules: task 0 runs, task 1 is ready, task 2 sleeps
-- until tick 40, and the scheduler's list holds the three in this order.
use os.Base.{ℕ, zero, suc, true, false, Option, none, some, []}
use os.Kernel.{Kernel, Task, TaskState, Signals, running, ready, blocked, unused, sig_default}

abbrev pub bare : TaskState → Option ℕ → Option ℕ → Task
bare s prv nxt = record {
  state = s;
  pid = 0;
  exit_code = 0;
  next = nxt;
  prev = prv;
  runtime_ticks = 0;
  stack_base = 0;
  guard_page_addr = 0;
  event_data = 40;
  waiting_event = 0x534C4550;
  is_user = false;
  started = true;
  address_space = 0;
  fd_table = λ j. record { node = none; offset = 0; flags = 0 };
  ipc_wait_next = none;
}

abbrev pub sample_tasks : ℕ → Task
sample_tasks zero = bare running none (some 1)
sample_tasks (suc zero) = bare ready (some 0) (some 2)
sample_tasks (suc (suc zero)) = bare blocked (some 1) none
sample_tasks (suc (suc (suc i))) = bare unused none none

abbrev pub sample_signals : Signals
sample_signals = record {
  handlers = λ t s. none;
  pending = λ t s. false;
  defaults = λ s. sig_default;
}

abbrev pub sample_kernel : Kernel
sample_kernel = record {
  tasks = sample_tasks;
  ready_head = some 0;
  ready_tail = some 2;
  current = some 0;
  pending_stack = 0;
  pending_task = none;
  freed = [];
  closed = [];
  cr3 = 7;
  kernel_cr3 = 7;
  signals = sample_signals;
}

-- The same tasks before the scheduler starts.
abbrev pub idle_kernel : Kernel
idle_kernel = record sample_kernel { current = none; kernel_cr3 = 0 }
