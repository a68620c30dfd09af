-- ===== src/Sched/Block.antt =====
-- `scheduler_block_task` and `scheduler_unblock_task` of kernel/scheduler.c.
use os.Base.{
  ◌≡◌, ◌≢◌, refl, ==_self, ==_ne, Bool-cases, inl, inr, ℕ, Option, none, some, if◌then◌else◌,
}
use os.Kernel.{Kernel, ready, blocked, is_blocked, set_state}
use os.Signal.{Outcome, returns, dispatch}

-- A signal that is pending is delivered at once, and may end the running task.
pub block_task : (ℕ → ℕ → Kernel → Kernel) → Option ℕ → Kernel → Outcome
block_task call none k = returns k
block_task call (some i) k = dispatch call (some i) (set_state i blocked k)

pub unblock_task : Option ℕ → Kernel → Kernel
unblock_task none k = k
unblock_task (some i) k = if is_blocked (k.tasks i).state then set_state i ready k else k

-- The task that is unblocked, and the others.
pub unblock_task-at :
    (x : ℕ) (k : Kernel)
    → (((unblock_task (some x) k).tasks x).state
        ≡ (if is_blocked (k.tasks x).state then ready else (k.tasks x).state))
      × (((unblock_task (some x) k).tasks x).ipc_wait_next ≡ (k.tasks x).ipc_wait_next)
unfolding unblock_task
unblock_task-at x k = elim (Bool-cases (is_blocked (k.tasks x).state)) [
  | inl b ↦ rw (b, ==_self x) (refl, refl)
  | inr b ↦ rw b (refl, refl)
]

pub unblock_task-others :
    (x : ℕ) (k : Kernel) (j : ℕ) → x ≢ j → (unblock_task (some x) k).tasks j ≡ k.tasks j
unfolding unblock_task
unblock_task-others x k j ne = elim (Bool-cases (is_blocked (k.tasks x).state)) [
  | inl b ↦ rw (b, ==_ne x j ne) refl
  | inr b ↦ rw b refl
]
