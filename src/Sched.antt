-- ===== src/Sched.antt =====
-- kernel/scheduler.c: the list of tasks, the choice of the next task, and the switch to it.
pub mod Ready
pub mod Next
pub mod Switch
pub mod Space
pub mod Frame
pub mod Tests
pub mod Block
use os.Base.{
  ℕ, zero, suc, true, Option, none, some, ◌∷◌, ◌==◌, ptr_eq, if◌then◌else◌, update, ◌≡◌, ap,
}
use os.Kernel.{
  Kernel, Task, ready, running, zombie, is_ready, is_running, max_tasks, set_task, set_state,
}

-- `enqueue_task` at a task.
pub enqueue_task : ℕ → Kernel → Kernel
enqueue_task i k =
    let k1 = set_task i (record (k.tasks i) { next = none; prev = k.ready_tail }) k in
    let linked : Kernel = elim k.ready_tail [
      | some t ↦ set_task t (record (k1.tasks t) { next = some i }) k1
      | none ↦ record k1 { ready_head = some i }
    ] in
    record linked { ready_tail = some i }

pub init : Kernel → Kernel
init k = record k { ready_head = none; ready_tail = none; current = none }

pub add_task : Option ℕ → Kernel → Kernel
unfolding enqueue_task
add_task none k = k
add_task (some i) k = enqueue_task i (set_state i ready k)

-- iter->next ? iter->next : ready_head
abbrev pub ring_next : Kernel → ℕ → Option ℕ
ring_next k i = elim (k.tasks i).next [ some j ↦ some j | none ↦ k.ready_head ]

-- The do-while loop of `scheduler_find_next`. `none` means that the fuel ran out, and `some none`
-- that the function returns NULL.
pub search_ready : ℕ → Kernel → ℕ → ℕ → Option (Option ℕ)
search_ready zero k first iter = none
search_ready (suc f) k first iter =
    let rest : Option (Option ℕ) = elim (ring_next k iter) [
      | none ↦ some none
      | some j ↦ let more = search_ready f k first j in if j == first then some none else more
    ] in
    if is_ready (k.tasks iter).state then some (some iter) else rest

-- current_task ? current_task->next : ready_head, and ready_head if that is NULL
abbrev pub first_candidate : Kernel → Option ℕ
first_candidate k = elim k.current [ some c ↦ ring_next k c | none ↦ k.ready_head ]

-- `scheduler_find_next`: `none` means that the fuel ran out. The table has `max_tasks` entries, so a
-- list without repetition is walked within the fuel; on one that runs into a circle beside the first
-- candidate the loop in C does not end.
pub find_next : Kernel → Option (Option ℕ)
unfolding search_ready
find_next k = elim k.ready_head [
  | none ↦ some none
  | some h ↦ elim (first_candidate k) [
    | none ↦ some none
    | some first ↦ search_ready max_tasks k first first
  ]
]

-- The task that a search returned, if it returned one.
abbrev pub chosen : Option (Option ℕ) → Option ℕ
chosen none = none
chosen (some r) = r

-- `vmm_switch` of kernel/vmm.c; 0 is NULL.
pub vmm_switch : ℕ → Kernel → Kernel
vmm_switch pml4 k =
    let base = if k.kernel_cr3 == 0 then k.cr3 else k.kernel_cr3 in
    record k { kernel_cr3 = base; cr3 = if pml4 == 0 then base else pml4 }

-- `task_release_pending` of kernel/task.c.
pub release_pending : Kernel → Kernel
release_pending k =
    let k1 = record k {
      pending_stack = 0;
      pending_task = none;
      freed = k.pending_stack ∷ k.freed;
    } in
    let k2 : Kernel = elim k.pending_task [ none ↦ k1 | some t ↦ set_state t zombie k1 ] in
    if k.pending_stack == 0 then k else k2

-- The previous task goes back from running to ready.
pub requeue : Option ℕ → (ℕ → Task) → ℕ → Task
requeue none t = t
requeue (some p) t =
    if is_running (t p).state then update t p (record (t p) { state = ready }) else t

-- The address space of task `n` is loaded if it is not that of the previous task.
pub load_space : Option ℕ → (ℕ → Task) → ℕ → Kernel → Kernel
unfolding vmm_switch
load_space none t n k = k
load_space (some p) t n k =
    if (t p).address_space == (t n).address_space then k else vmm_switch (t n).address_space k

-- The task table when the address space is loaded: `n` is running.
pub tasks_for : ℕ → Kernel → ℕ → Task
unfolding requeue
tasks_for n k = let t = requeue k.current k.tasks in update t n (record (t n) { state = running })

-- `scheduler_schedule` up to its `context_switch`, which goes to task `n`.
pub switch_to : ℕ → Kernel → Kernel
unfolding tasks_for load_space
switch_to n k =
    let t = tasks_for n k in
    load_space k.current t n
      (record k { tasks = update t n (record (t n) { started = true }); current = some n })

-- `scheduler_schedule`. A task that was switched away from before resumes behind its own
-- `context_switch` and releases what is pending; one that starts enters its own code. Where the
-- search does not end, the state is the one in which the function hangs.
pub schedule : Kernel → Kernel
unfolding switch_to release_pending
schedule k = elim (chosen (find_next k)) [
  | none ↦ k
  | some n ↦
      let k' = switch_to n k in
      if ptr_eq k.current (some n)
      then k
      else if (k.tasks n).started
      then release_pending k'
      else k'
]

abbrev yield_at : Option ℕ → Kernel → Kernel
yield_at none k = k
yield_at (some c) k = schedule k

pub yield : Kernel → Kernel
yield k = yield_at k.current k

-- `scheduler_start` up to its `context_switch`.
pub start : Kernel → Kernel
unfolding vmm_switch
start k = elim k.ready_head [
  | none ↦ k
  | some h ↦
      let k1 = set_state h running (record k { current = some h }) in
      let k2 =
        if (k1.tasks h).address_space == 0 then k1 else vmm_switch (k1.tasks h).address_space k1 in
      set_task h (record (k2.tasks h) { started = true }) k2
]

pub yield-schedule : (k : Kernel) (c : ℕ) → k.current ≡ some c → yield k ≡ schedule k
unfolding yield
yield-schedule k c e = ap (λ cur. yield_at cur k) e
