-- ===== src/Task/Exit.antt =====
-- The end of a task: `fd_table_close_all`, `task_defer_release` and `task_exit_with_status`.
use os.Base.{
  ℕ, zero, suc, ◌+◌, ◌-◌, ◌≤◌, ◌<◌, ◌≡◌, refl, ◌≢◌, ◌∙◌, sym, ap, Bool, not, ◌&&◌, ◌||◌, ◌⊎◌, none,
  some, arith, if◌then◌else◌, ◌==◌, ltb, leb, Bool-cases, inl, inr, ==_self, ==_ne,
}
use os.Kernel.{Kernel, ready, running, zombie, set_task}
use os.Sched.{schedule, yield, yield-schedule}
use os.Sched.Switch.{IsSafe, schedule_cases, left-zombie}
use os.Sched.Frame.{schedule-SameCore}
use os.Task.{begin_exit, defer_release, exit_with_status}
use os.Task.Fd.{max_fds, closed_entry, close_at, close_from, close_all}

close_from-table :
    (c n i j : ℕ) (k : Kernel)
    → ((close_from c n i k).tasks c).fd_table j
      ≡ (if leb i j && ltb j (i + n) then closed_entry else (k.tasks c).fd_table j)
unfolding close_from
close_from-table c zero i j k = ground arith
close_from-table c (suc n) i j k = ground (arith, close_from-table c n (i + 1) j (close_at c i k))

-- What closing leaves of the rest of the state.
close_at-rest :
    (c i : ℕ) (k : Kernel)
    → ((close_at c i k).current ≡ k.current)
      × ((close_at c i k).pending_task ≡ k.pending_task)
      × ((x : ℕ) → ((close_at c i k).tasks x).state ≡ (k.tasks x).state)
      × (((close_at c i k).tasks c).exit_code ≡ (k.tasks c).exit_code)
unfolding close_at
close_at-rest c i k = (refl, refl, λ x. ground arith, ground arith)

close_from-rest :
    (c n i : ℕ) (k : Kernel)
    → ((close_from c n i k).current ≡ k.current)
      × ((close_from c n i k).pending_task ≡ k.pending_task)
      × ((x : ℕ) → ((close_from c n i k).tasks x).state ≡ (k.tasks x).state)
      × (((close_from c n i k).tasks c).exit_code ≡ (k.tasks c).exit_code)
unfolding close_from
close_from-rest c zero i k = (refl, refl, λ x. refl, refl)
close_from-rest c (suc n) i k =
    let a = close_at-rest c i k in
    let b = close_from-rest c n (i + 1) (close_at c i k) in
    (b.0 ∙ a.0, b.1 ∙ a.1, λ x. b.2 x ∙ a.2 x, b.3 ∙ a.3)

record Closing (status c : ℕ) (k k' : Kernel) : Type 0 where
  current : k'.current ≡ k.current
  pending : k'.pending_task ≡ k.pending_task
  states : (x : ℕ) → (k'.tasks x).state ≡ (k.tasks x).state
  code : (k'.tasks c).exit_code ≡ status
  table : (j : ℕ) → 3 ≤ j → j < max_fds → ((k'.tasks c).fd_table j).node ≡ none

begin_exit-Closing : (status c : ℕ) (k : Kernel) → Closing status c k (begin_exit (some c) status k)
unfolding begin_exit close_all
begin_exit-Closing status c k =
    let k0 = set_task c (record (k.tasks c) { exit_code = status }) k in
    let r = close_from-rest c (max_fds - 3) 3 k0 in
    record {
      current = r.0;
      pending = r.1;
      states = λ x. ground (arith, r.2 x, r.2 c);
      code = ground (arith, r.3);
      table = λ j a b. ground (arith, close_from-table c (max_fds - 3) 3 j k0);
    }

-- `task_defer_release` at a task.
record Deferred (c : ℕ) (k k' : Kernel) : Type 0 where
  current : k'.current ≡ k.current
  pending : (t : ℕ) → k'.pending_task ≡ some t → (t ≡ c) ⊎ (k.pending_task ≡ some t)
  states : (x : ℕ) → (k'.tasks x).state ≡ (if c == x then zombie else (k.tasks x).state)
  code : (k'.tasks c).exit_code ≡ (k.tasks c).exit_code
  table : (k'.tasks c).fd_table ≡ (k.tasks c).fd_table

defer_release-Deferred : (c : ℕ) (k : Kernel) → Deferred c k (defer_release (some c) k)
unfolding defer_release
defer_release-Deferred c k = elim (Bool-cases parks) [
  | inl p ↦
      rw (p, defer_release)
        (record {
          current = refl;
          pending = λ t e. inl (ground arith);
          states = λ x. ground arith;
          code = ground arith;
          table = ground arith;
        })
  | inr p ↦
      rw (p, defer_release)
        (record {
          current = refl;
          pending = λ t e. inr e;
          states = λ x. ground arith;
          code = ground arith;
          table = ground arith;
        })
]
  where
    parks : Bool
    parks = not ((k.tasks c).stack_base == 0) || not ((k.tasks c).guard_page_addr == 0)

-- The exiting task is dead before the scheduler is called, and the state is safe.
module _ (status c : ℕ) (k : Kernel) (s : IsSafe k) (e : k.current ≡ some c) where
  abbrev dying : Kernel
  dying = defer_release (some c) (begin_exit (some c) status k)

  a : Closing status c k (begin_exit (some c) status k)
  a = begin_exit-Closing status c k

  b : Deferred c (begin_exit (some c) status k) dying
  b = defer_release-Deferred c (begin_exit (some c) status k)

  dying-state : (x : ℕ) → (dying.tasks x).state ≡ (if c == x then zombie else (k.tasks x).state)
  dying-state x = ground (arith, b.states x, a.states x)

  dying-current : dying.current ≡ some c
  dying-current = b.current ∙ a.current ∙ e

  dying-IsSafe : IsSafe dying
  dying-IsSafe = record {
    exclusive = λ i r. ground (arith, dying-state i, s.exclusive i);
    pending_dead = λ t r. elim (b.pending t r) [
      | inl same ↦ ground (arith, dying-state t)
      | inr old ↦ ground (arith, dying-state t, s.pending_dead t (sym a.pending ∙ old))
    ];
  }

  exit-schedule : exit_with_status status k ≡ schedule dying
  unfolding exit_with_status
  exit-schedule =
      ap (λ cur. yield (defer_release cur (begin_exit cur status k))) e
      ∙ yield-schedule dying c dying-current

pub record Exited (status c : ℕ) (k k' : Kernel) : Type 0 where
  pub state : (k'.tasks c).state ≡ zombie
  pub code : (k'.tasks c).exit_code ≡ status
  pub table : (j : ℕ) → 3 ≤ j → j < max_fds → ((k'.tasks c).fd_table j).node ≡ none
  pub switched :
      (k'.current ≡ some c)
      ⊎ ((n : ℕ) × (n ≢ c) × (k'.current ≡ some n) × ((k'.tasks n).state ≡ running))
  pub safe : IsSafe k'

-- When the running task exits, in a state where at most one task runs, it is a zombie with its exit
-- status and every descriptor but the three standard ones is closed. Either it stays the current
-- task, or another task is current and running. At most one task runs, as before.
pub exit_with_status-Exited :
    (status c : ℕ) (k : Kernel)
    → IsSafe k
    → k.current ≡ some c
    → Exited status c k (exit_with_status status k)
exit_with_status-Exited status c k s e =
    rw (exit-schedule status c k s e) (elim (schedule_cases d (dying-IsSafe status c k s e)) [
      | inl (stays, _) ↦ rw stays (record {
        state = dead_state;
        code = b0.code ∙ a0.code;
        table = λ j lo hi. rw b0.table (a0.table j lo hi);
        switched = inl (dying-current status c k s e);
        safe = dying-IsSafe status c k s e;
      })
      | inr (n, found, r, w) ↦
          let core = schedule-SameCore d c in
          record {
            state = w.states c ∙ rw (==_ne n c (n_ne n r), dead_state) (left-zombie d.current c);
            code = core.exit_code ∙ b0.code ∙ a0.code;
            table = λ j lo hi. rw (core.fd_table, b0.table) (a0.table j lo hi);
            switched = inr (n, n_ne n r, w.current, w.states n ∙ rw (==_self n));
            safe = w.safe;
          }
    ])
  where
    d : Kernel
    d = dying status c k s e

    a0 : Closing status c k (begin_exit (some c) status k)
    a0 = begin_exit-Closing status c k

    b0 : Deferred c (begin_exit (some c) status k) d
    b0 = defer_release-Deferred c (begin_exit (some c) status k)

    dead_state : (d.tasks c).state ≡ zombie
    dead_state = dying-state status c k s e c ∙ rw (==_self c)

    n_ne : (n : ℕ) → (d.tasks n).state ≡ ready → n ≢ c
    n_ne n r same = ground (arith, dead_state)
