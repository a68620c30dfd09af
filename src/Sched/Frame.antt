-- ===== src/Sched/Frame.antt =====
-- What kernel/scheduler.c leaves of a task as it was: all but its state and its `started` flag.
use os.Base.{
  ℕ, ◌≡◌, refl, ◌∙◌, Bool, true, Option, none, some, List, arith, ◌==◌, ptr_eq, Bool-cases,
  Option-cases, inl, inr, update,
}
use os.Kernel.{Kernel, Task, TaskState, ready, running, zombie, is_running}
use os.Sched.{chosen, find_next, requeue, tasks_for, release_pending, switch_to, schedule}
use os.Sched.Ready.{ReadyList, ReadyList-frame}
use os.Sched.Switch.{load_space-frame}

pub record SameCore (t u : Task) : Type 0 where
  pub pid : u.pid ≡ t.pid
  pub exit_code : u.exit_code ≡ t.exit_code
  pub next : u.next ≡ t.next
  pub prev : u.prev ≡ t.prev
  pub stack_base : u.stack_base ≡ t.stack_base
  pub guard : u.guard_page_addr ≡ t.guard_page_addr
  pub fd_table : u.fd_table ≡ t.fd_table
  pub event_data : u.event_data ≡ t.event_data
  pub waiting_event : u.waiting_event ≡ t.waiting_event
  pub wait_next : u.ipc_wait_next ≡ t.ipc_wait_next

SameCore-refl : (t : Task) → SameCore t t
SameCore-refl t = record {
  pid = refl;
  exit_code = refl;
  next = refl;
  prev = refl;
  stack_base = refl;
  guard = refl;
  fd_table = refl;
  event_data = refl;
  waiting_event = refl;
  wait_next = refl;
}

SameCore-trans : (t u v : Task) → SameCore t u → SameCore u v → SameCore t v
SameCore-trans t u v a b = record {
  pid = b.pid ∙ a.pid;
  exit_code = b.exit_code ∙ a.exit_code;
  next = b.next ∙ a.next;
  prev = b.prev ∙ a.prev;
  stack_base = b.stack_base ∙ a.stack_base;
  guard = b.guard ∙ a.guard;
  fd_table = b.fd_table ∙ a.fd_table;
  event_data = b.event_data ∙ a.event_data;
  waiting_event = b.waiting_event ∙ a.waiting_event;
  wait_next = b.wait_next ∙ a.wait_next;
}

-- A write of one task that keeps its core keeps every task's core.
update-SameCore :
    (t : ℕ → Task) (p : ℕ) (u : Task) (i : ℕ) → SameCore (t p) u → SameCore (t i) (update t p u i)
update-SameCore t p u i s = elim (Bool-cases (p == i)) [
  | inl e ↦ let same : p ≡ i = ground arith in rw e (rw (← same) s)
  | inr e ↦ rw e (SameCore-refl (t i))
]

set_flag : (t : Task) (s : TaskState) (b : Bool) → SameCore t (record t { state = s; started = b })
set_flag t s b = record {
  pid = refl;
  exit_code = refl;
  next = refl;
  prev = refl;
  stack_base = refl;
  guard = refl;
  fd_table = refl;
  event_data = refl;
  waiting_event = refl;
  wait_next = refl;
}

requeue-SameCore : (cur : Option ℕ) (t : ℕ → Task) (i : ℕ) → SameCore (t i) (requeue cur t i)
unfolding requeue
requeue-SameCore none t i = SameCore-refl (t i)
requeue-SameCore (some p) t i = elim (Bool-cases (is_running (t p).state)) [
  | inl e ↦ rw (e, requeue) (update-SameCore t p _ i (set_flag (t p) ready (t p).started))
  | inr e ↦ rw (e, requeue) (SameCore-refl (t i))
]

tasks_for-SameCore : (k : Kernel) (n i : ℕ) → SameCore (k.tasks i) (tasks_for n k i)
unfolding tasks_for
tasks_for-SameCore k n i =
    let t = requeue k.current k.tasks in
    SameCore-trans (k.tasks i) (t i) _ (requeue-SameCore k.current k.tasks i)
      (update-SameCore t n _ i (set_flag (t n) running (t n).started))

switch_to-SameCore : (k : Kernel) (n i : ℕ) → SameCore (k.tasks i) ((switch_to n k).tasks i)
unfolding switch_to
switch_to-SameCore k n i =
    let t = tasks_for n k in
    rw (load_space-frame, switch_to)
      (SameCore-trans (k.tasks i) (t i) _ (tasks_for-SameCore k n i)
        (update-SameCore t n _ i (set_flag (t n) (t n).state true)))

release_pending-SameCore : (k : Kernel) (i : ℕ) → SameCore (k.tasks i) ((release_pending k).tasks i)
unfolding release_pending
release_pending-SameCore k i = elim (Bool-cases (k.pending_stack == 0)) [
  | inl z ↦ rw (z, release_pending) (SameCore-refl (k.tasks i))
  | inr z ↦ elim (Option-cases k.pending_task) [
    | inl o ↦ rw (z, o, release_pending) (SameCore-refl (k.tasks i))
    | inr (t, o) ↦
        rw (z, o, release_pending)
          (update-SameCore k.tasks t _ i (set_flag (k.tasks t) zombie (k.tasks t).started))
  ]
]

pub schedule-SameCore : (k : Kernel) (i : ℕ) → SameCore (k.tasks i) ((schedule k).tasks i)
unfolding schedule
schedule-SameCore k i = elim (Option-cases (chosen (find_next k))) [
  | inl f ↦ rw (f, schedule) (SameCore-refl (k.tasks i))
  | inr (n, f) ↦ elim (Bool-cases (ptr_eq k.current (some n))) [
    | inl same ↦ rw (f, schedule, same) (SameCore-refl (k.tasks i))
    | inr other ↦
        let w = switch_to-SameCore k n i in
        elim (Bool-cases (k.tasks n).started) [
          | inl st ↦
              rw (f, schedule, other, st)
                (SameCore-trans (k.tasks i) _ _ w (release_pending-SameCore (switch_to n k) i))
          | inr st ↦ rw (f, schedule, other, st) w
        ]
  ]
]

-- The scheduler's own list is not touched either.
abbrev SameList : Kernel → Kernel → Type 0
SameList k l = (l.ready_head ≡ k.ready_head) × (l.ready_tail ≡ k.ready_tail)

release_pending-SameList : (k : Kernel) → SameList k (release_pending k)
unfolding release_pending
release_pending-SameList k = elim (Bool-cases (k.pending_stack == 0)) [
  | inl z ↦ rw (z, release_pending) (refl, refl)
  | inr z ↦ elim (Option-cases k.pending_task) [
    | inl o ↦ rw (z, o, release_pending) (refl, refl)
    | inr (t, o) ↦ rw (z, o, release_pending) (refl, refl)
  ]
]

switch_to-SameList : (k : Kernel) (n : ℕ) → SameList k (switch_to n k)
unfolding switch_to
switch_to-SameList k n = rw (load_space-frame, switch_to) (refl, refl)

schedule-SameList : (k : Kernel) → SameList k (schedule k)
unfolding schedule
schedule-SameList k = elim (Option-cases (chosen (find_next k))) [
  | inl f ↦ rw (f, schedule) (refl, refl)
  | inr (n, f) ↦ elim (Bool-cases (ptr_eq k.current (some n))) [
    | inl same ↦ rw (f, schedule, same) (refl, refl)
    | inr other ↦
        let w = switch_to-SameList k n in
        let v = release_pending-SameList (switch_to n k) in
        elim (Bool-cases (k.tasks n).started) [
          | inl st ↦ rw (f, schedule, other, st) (v.0 ∙ w.0, v.1 ∙ w.1)
          | inr st ↦ rw (f, schedule, other, st) w
        ]
  ]
]

-- `scheduler_schedule` keeps the scheduler's list as it is: the same tasks in the same order, well
-- linked in both directions.
schedule-ReadyList : (k : Kernel) (xs : List ℕ) → ReadyList k xs → ReadyList (schedule k) xs
schedule-ReadyList k xs r =
    let l = schedule-SameList k in
    ReadyList-frame k (schedule k) xs l.0 l.1
      (λ i. let c = schedule-SameCore k i in (c.prev, c.next)) r
