-- ===== src/Kernel.antt =====
-- The kernel's shared state: the task table of kernel/task.c, the scheduler's variables of
-- kernel/scheduler.c, the signal tables of kernel/signal.c and what they touch of kernel/vmm.c and
-- kernel/heap.c. A pointer to a task is its index in `task_pool`, none for NULL; the index is the
-- field `slot_index`.
pub mod Sample
use os.Base.{ℕ, Bool, true, false, Option, List, update}

-- TASK_STATE_*
pub data TaskState : Type 0 where
  ready running blocked zombie unused : TaskState

abbrev pub is_ready : TaskState → Bool
is_ready ready = true
is_ready running = false
is_ready blocked = false
is_ready zombie = false
is_ready unused = false

abbrev pub is_running : TaskState → Bool
is_running ready = false
is_running running = true
is_running blocked = false
is_running zombie = false
is_running unused = false

abbrev pub is_blocked : TaskState → Bool
is_blocked ready = false
is_blocked running = false
is_blocked blocked = true
is_blocked zombie = false
is_blocked unused = false

abbrev pub is_unused : TaskState → Bool
is_unused ready = false
is_unused running = false
is_unused blocked = false
is_unused zombie = false
is_unused unused = true

-- A `vfs_node_t` as far as descriptors see it: which node, and whether its `close` is set.
pub record Node : Type 0 where
  pub id : ℕ
  pub has_close : Bool

-- `fd_entry_t`
pub record FdEntry : Type 0 where
  pub node : Option Node
  pub offset : ℕ
  pub flags : ℕ

-- `task_t`, the fields that the modelled code reads or writes.
pub record Task : Type 0 where
  pub state : TaskState
  pub pid : ℕ
  pub exit_code : ℕ
  pub next : Option ℕ
  pub prev : Option ℕ
  pub runtime_ticks : ℕ
  pub stack_base : ℕ
  pub guard_page_addr : ℕ
  pub event_data : ℕ
  pub waiting_event : ℕ
  pub is_user : Bool
  pub started : Bool
  pub address_space : ℕ
  pub fd_table : ℕ → FdEntry
  pub ipc_wait_next : Option ℕ

-- `signal_action_t`
pub data SignalAction : Type 0 where
  sig_default sig_ignored sig_handler : SignalAction

-- The tables of kernel/signal.c. A handler is named by a number; `pending_signals[slot]` is its 32
-- bits.
pub record Signals : Type 0 where
  pub handlers : ℕ → ℕ → Option ℕ
  pub pending : ℕ → ℕ → Bool
  pub defaults : ℕ → SignalAction

pub record Kernel : Type 0 where
  pub tasks : ℕ → Task
  pub ready_head : Option ℕ
  pub ready_tail : Option ℕ
  pub current : Option ℕ
  -- g_pending_stack (0 for NULL) and g_pending_task
  pub pending_stack : ℕ
  pub pending_task : Option ℕ
  -- the pointers given to `kfree`, and the nodes given to their `close`, latest first
  pub freed : List ℕ
  pub closed : List ℕ
  -- the CR3 register, and `kernel_cr3` of kernel/vmm.c
  pub cr3 : ℕ
  pub kernel_cr3 : ℕ
  pub signals : Signals

-- TASK_MAX_TASKS
abbrev pub max_tasks : ℕ
max_tasks = 32

abbrev pub set_task : ℕ → Task → Kernel → Kernel
set_task i t k = record k { tasks = update k.tasks i t }

abbrev pub set_state : ℕ → TaskState → Kernel → Kernel
set_state i s k = record k { tasks = update k.tasks i (record (k.tasks i) { state = s }) }
