-- ===== src/Sched/Switch.antt =====
-- `scheduler_schedule` and `scheduler_start` of kernel/scheduler.c.
use os.Base.{
  ℕ, zero, suc, ◌≡◌, refl, ◌∙◌, sym, ap, ◌≢◌, true, false, Option, none, some, ◌∷◌, arith,
  if◌then◌else◌, ◌==◌, ◌&&◌, not, ◌⊎◌, ptr_eq, Bool-cases, Option-cases, inl, inr,
}
use os.Kernel.{Kernel, Task, TaskState, ready, running, zombie, is_running, max_tasks}
use os.Sched.{
  ring_next, search_ready, first_candidate, find_next, requeue, load_space, release_pending,
  switch_to, schedule, chosen,
}

-- What `find_next` returns is ready.
search_ready-IsReady :
    (f : ℕ) (k : Kernel) (first x n : ℕ)
    → search_ready f k first x ≡ some (some n)
    → (k.tasks n).state ≡ ready
unfolding search_ready
search_ready-IsReady zero k first x n e = cc
search_ready-IsReady (suc f) k first x n e = elim (Option-cases (ring_next k x)) [
  | inl o ↦ ground arith
  | inr (j, o) ↦ ground (arith, search_ready-IsReady f k first j n)
]

pub find_next-IsReady :
    (k : Kernel) (n : ℕ) → find_next k ≡ some (some n) → (k.tasks n).state ≡ ready
unfolding find_next
find_next-IsReady k n e = elim (Option-cases k.ready_head) [
  | inl o ↦ absurd (cc (rw (o, find_next) at e))
  | inr (h, o) ↦ elim (Option-cases (first_candidate k)) [
    | inl p ↦ absurd (cc (rw (o, p, find_next) at e))
    | inr (x, p) ↦ search_ready-IsReady max_tasks k x x n (rw (o, p, find_next) at e)
  ]
]

-- At most one task is running, and it is the current one; a task whose stack waits to be released
-- is dead.
pub record IsSafe (k : Kernel) : Type 0 where
  pub exclusive : (i : ℕ) → (k.tasks i).state ≡ running → k.current ≡ some i
  pub pending_dead : (t : ℕ) → k.pending_task ≡ some t → (k.tasks t).state ≡ zombie

requeue_state :
    (cur : Option ℕ) (t : ℕ → Task) (i : ℕ)
    → ((requeue cur t) i).state
      ≡ (if ptr_eq cur (some i) && is_running (t i).state then ready else (t i).state)
unfolding requeue
requeue_state none t i = refl
requeue_state (some p) t i = ground arith

-- Loading an address space changes CR3 and `kernel_cr3` only.
pub load_space-frame :
    (cur : Option ℕ) (t : ℕ → Task) (n : ℕ) (k : Kernel)
    → load_space cur t n k ≡ record k {
      cr3 = (load_space cur t n k).cr3;
      kernel_cr3 = (load_space cur t n k).kernel_cr3;
    }
unfolding load_space
load_space-frame none t n k = refl
load_space-frame (some p) t n k = elim (Bool-cases ((t p).address_space == (t n).address_space)) [
  | inl e ↦ rw e
  | inr e ↦ rw e
]

-- The fields of the state after a switch.
switch_to_state :
    (k : Kernel) (n i : ℕ)
    → ((switch_to n k).tasks i).state ≡ (
        if n == i
        then running
        else if ptr_eq k.current (some i) && is_running (k.tasks i).state
        then ready
        else (k.tasks i).state)
unfolding switch_to
switch_to_state k n i =
    rw (load_space-frame, switch_to)
      (ground (arith, requeue_state k.current k.tasks i, requeue_state k.current k.tasks n))

pub switch_to_rest :
    (k : Kernel) (n : ℕ)
    → ((switch_to n k).current ≡ some n)
      × ((switch_to n k).pending_task ≡ k.pending_task)
      × ((switch_to n k).pending_stack ≡ k.pending_stack)
      × ((switch_to n k).freed ≡ k.freed)
unfolding switch_to
switch_to_rest k n = rw (load_space-frame, switch_to) (refl, refl, refl, refl)

-- The state that a task other than the new one has after a switch.
abbrev pub left_state : Option ℕ → ℕ → TaskState → TaskState
left_state cur i st = if ptr_eq cur (some i) && is_running st then ready else st

left-not-running :
    (cur : Option ℕ) (i : ℕ) (st : TaskState)
    → (st ≡ running → cur ≡ some i)
    → left_state cur i st ≢ running
left-not-running none i st h e = cc (h e)
left-not-running (some p) i st h e = elim (Bool-cases (is_running st)) [
  | inl r ↦ ground (arith, h)
  | inr r ↦ ground arith
]

pub left-zombie : (cur : Option ℕ) (i : ℕ) → left_state cur i zombie ≡ zombie
left-zombie none i = refl
left-zombie (some p) i = ground arith

switch_to-IsSafe :
    (k : Kernel) (n : ℕ) → IsSafe k → (k.tasks n).state ≡ ready → IsSafe (switch_to n k)
switch_to-IsSafe k n s r =
    let (cur, pend, _, _) = switch_to_rest k n in
    record { exclusive = λ i e. cur ∙ only i e; pending_dead = λ t e. dead t (sym pend ∙ e) }
  where
    only : (i : ℕ) → ((switch_to n k).tasks i).state ≡ running → some n ≡ some i
    only i e = elim (Bool-cases (n == i)) [
      | inl same ↦ ground arith
      | inr other ↦ absurd (
          left-not-running k.current i (k.tasks i).state (s.exclusive i)
            (rw other at (sym (switch_to_state k n i) ∙ e)))
    ]

    dead : (t : ℕ) → k.pending_task ≡ some t → ((switch_to n k).tasks t).state ≡ zombie
    dead t e =
        let z = s.pending_dead t e in
        let ne : (n == t) ≡ false = ground arith in
        switch_to_state k n t ∙ rw (ne, z) (left-zombie k.current t)

release_pending-state :
    (k : Kernel) (i : ℕ) → IsSafe k → ((release_pending k).tasks i).state ≡ (k.tasks i).state
unfolding release_pending
release_pending-state k i s = elim (Option-cases k.pending_task) [
  | inl o ↦ rw (o, release_pending) (ground arith)
  | inr (t, o) ↦ rw (o, release_pending) (ground (arith, s.pending_dead t))
]

release_pending-rest :
    (k : Kernel)
    → ((release_pending k).current ≡ k.current)
      × ((release_pending k).freed
          ≡ (if k.pending_stack == 0 then k.freed else k.pending_stack ∷ k.freed))
unfolding release_pending
release_pending-rest k = elim (Option-cases k.pending_task) [
  | inl o ↦ rw (o, release_pending) (ground arith)
  | inr (t, o) ↦ rw (o, release_pending) (ground arith)
]

release_pending-task :
    (k : Kernel) (t : ℕ) → (release_pending k).pending_task ≡ some t → k.pending_task ≡ some t
unfolding release_pending
release_pending-task k t e = elim (Option-cases k.pending_task) [
  | inl o ↦ let e' = rw (o, release_pending) at e in ground arith
  | inr (u, o) ↦ let e' = rw (o, release_pending) at e in ground arith
]

release_pending-IsSafe : (k : Kernel) → IsSafe k → IsSafe (release_pending k)
release_pending-IsSafe k s = record {
  exclusive =
      λ i e. (release_pending-rest k).0 ∙ s.exclusive i (sym (release_pending-state k i s) ∙ e);
  pending_dead = λ t e. release_pending-state k t s ∙ s.pending_dead t (release_pending-task k t e);
}

-- The state that task `i` has after a switch to task `n`.
abbrev pub state_after : Kernel → ℕ → ℕ → TaskState
state_after k n i = if n == i then running else left_state k.current i (k.tasks i).state

-- What a switch to task `n` has done.
pub record Switched (k : Kernel) (n : ℕ) (k' : Kernel) : Type 0 where
  pub current : k'.current ≡ some n
  pub states : (i : ℕ) → (k'.tasks i).state ≡ state_after k n i
  pub freed : k'.freed ≡ (
      if (k.tasks n).started && not (k.pending_stack == 0)
      then k.pending_stack ∷ k.freed
      else k.freed)
  pub safe : IsSafe k'

ptr_eq-eq : (p : Option ℕ) (n : ℕ) → ptr_eq p (some n) ≡ true → p ≡ some n
ptr_eq-eq none n h = cc
ptr_eq-eq (some m) n h = ground arith

chosen-some : (o : Option (Option ℕ)) (n : ℕ) → chosen o ≡ some n → o ≡ some (some n)
chosen-some none n e = absurd (cc e)
chosen-some (some r) n e = ap some e

-- In a state where at most one task runs and the task whose stack is pending is dead, either
-- `scheduler_find_next` gives no other ready task and nothing is changed, or there is a switch to the task `n` that `scheduler_find_next` returns, which was ready: `n` is current and running,
-- the previous task is put back to ready if it was running, every other task keeps its state, and
-- the stack that a dead task left is freed exactly if `n` resumes inside this function rather than
-- starting. At most one task runs afterwards.
pub schedule_cases :
    (k : Kernel)
    → IsSafe k
    → ((schedule k ≡ k) × ((n : ℕ) → find_next k ≡ some (some n) → k.current ≡ some n))
      ⊎ ((n : ℕ) × (find_next k ≡ some (some n))
          × ((k.tasks n).state ≡ ready)
          × Switched k n (schedule k))
unfolding schedule
schedule_cases k s = elim (Option-cases (chosen (find_next k))) [
  | inl o ↦ inl (rw (o, schedule), λ n e. absurd (cc (sym o ∙ ap chosen e)))
  | inr (n, o) ↦ elim (Bool-cases (ptr_eq k.current (some n))) [
    | inl same ↦
        inl (rw (o, schedule, same), λ m e. ptr_eq-eq k.current n same ∙ sym o ∙ ap chosen e)
    | inr other ↦
        let found = chosen-some (find_next k) n o in
        let r = find_next-IsReady k n found in
        let w = switch_to-IsSafe k n s r in
        let (cur, pend, stack, freed) = switch_to_rest k n in
        inr (
          n,
          found,
          r,
          elim (Bool-cases (k.tasks n).started) [
            | inl st ↦
                rw (o, schedule, other, st)
                  (record {
                    current = (release_pending-rest (switch_to n k)).0 ∙ cur;
                    states = λ i. release_pending-state (switch_to n k) i w ∙ switch_to_state k n i;
                    freed =
                        (release_pending-rest (switch_to n k)).1
                        ∙ rw (stack, freed, st) (ground arith);
                    safe = release_pending-IsSafe (switch_to n k) w;
                  })
            | inr st ↦
                rw (o, schedule, other, st)
                  (record {
                    current = cur;
                    states = switch_to_state k n;
                    freed = rw st freed;
                    safe = w;
                  })
          ],
        )
  ]
]
