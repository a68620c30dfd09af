-- ===== src/Sched/Space.antt =====
-- The address space that kernel/scheduler.c loads with each switch.
use os.Base.{
  ℕ, ◌≡◌, refl, ◌≢◌, true, Option, none, some, arith, if◌then◌else◌, ◌==◌, ptr_eq, ==_self,
  Bool-cases, Option-cases, inl, inr, update,
}
use os.Kernel.{Kernel, Task}
use os.Sched.Switch.{load_space-frame, switch_to_rest}
use os.Sched.{
  chosen, find_next, requeue, tasks_for, load_space, release_pending, switch_to, schedule, start,
}

-- What CR3 should hold for a task: its own tables, or those of the boot code.
abbrev pub space_of : ℕ → Kernel → ℕ → ℕ
space_of boot k c = if (k.tasks c).address_space == 0 then boot else (k.tasks c).address_space

-- `boot` is the CR3 of the boot code. Either it is remembered, or no switch has changed CR3 yet; and
-- the current task's address space is loaded.
pub record IsLoaded (boot : ℕ) (k : Kernel) : Type 0 where
  pub boot_ne : boot ≢ 0
  pub remembered : (if k.kernel_cr3 == 0 then k.cr3 else k.kernel_cr3) ≡ boot
  pub loaded : (c : ℕ) → k.current ≡ some c → k.cr3 ≡ space_of boot k c

requeue_space :
    (cur : Option ℕ) (t : ℕ → Task) (i : ℕ)
    → ((requeue cur t) i).address_space ≡ (t i).address_space
unfolding requeue
requeue_space none t i = refl
requeue_space (some p) t i = ground arith

tasks_for_space :
    (k : Kernel) (n i : ℕ) → (tasks_for n k i).address_space ≡ (k.tasks i).address_space
unfolding tasks_for
tasks_for_space k n i =
    ground (arith, requeue_space k.current k.tasks i, requeue_space k.current k.tasks n)

switch_to_space :
    (k : Kernel) (n i : ℕ) → ((switch_to n k).tasks i).address_space ≡ (k.tasks i).address_space
unfolding switch_to
switch_to_space k n i =
    rw (load_space-frame, switch_to) (ground (arith, tasks_for_space k n i, tasks_for_space k n n))

-- What loading does, from the tables that the switch has written.
load_space-loads :
    (boot p n : ℕ) (t : ℕ → Task) (k : Kernel)
    → boot ≢ 0
    → (if k.kernel_cr3 == 0 then k.cr3 else k.kernel_cr3) ≡ boot
    → k.cr3 ≡ (if (t p).address_space == 0 then boot else (t p).address_space)
    → let k' = load_space (some p) t n k in
      ((if k'.kernel_cr3 == 0 then k'.cr3 else k'.kernel_cr3) ≡ boot)
      × (k'.cr3 ≡ (if (t n).address_space == 0 then boot else (t n).address_space))
unfolding load_space
load_space-loads boot p n t k b r l =
    elim (Bool-cases ((t p).address_space == (t n).address_space)) [
      | inl e ↦ rw (e, load_space) (ground arith)
      | inr e ↦ rw (e, load_space) (ground arith)
    ]

switch_to-IsLoaded :
    (boot : ℕ) (k : Kernel) (p n : ℕ)
    → IsLoaded boot k
    → k.current ≡ some p
    → IsLoaded boot (switch_to n k)
switch_to-IsLoaded boot k p n v o = record {
  boot_ne = v.boot_ne;
  remembered = loads.0;
  loaded = λ c e. ground (arith, loads, switch_to_space k n c, switch_to_rest k n);
}
  where
    after : Kernel
    after = record k {
      tasks = update (tasks_for n k) n (record (tasks_for n k n) { started = true });
      current = some n;
    }

    shape : switch_to n k ≡ load_space (some p) (tasks_for n k) n after
    shape = unfold switch_to in rw (o, switch_to)

    loads :
        ((if (switch_to n k).kernel_cr3 == 0
            then (switch_to n k).cr3
            else (switch_to n k).kernel_cr3)
          ≡ boot)
        × ((switch_to n k).cr3 ≡ space_of boot k n)
    loads =
        rw (shape, ← tasks_for_space k n n)
          (load_space-loads boot p n (tasks_for n k) after v.boot_ne v.remembered
            (rw (tasks_for_space k n p) (v.loaded p o)))

release_pending-IsLoaded :
    (boot : ℕ) (k : Kernel) → IsLoaded boot k → IsLoaded boot (release_pending k)
unfolding release_pending
release_pending-IsLoaded boot k v = elim (Bool-cases (k.pending_stack == 0)) [
  | inl z ↦ rw (z, release_pending) v
  | inr z ↦ elim (Option-cases k.pending_task) [
    | inl o ↦
        rw (z, o, release_pending)
          (record { boot_ne = v.boot_ne; remembered = v.remembered; loaded = v.loaded })
    | inr (t, o) ↦
        rw (z, o, release_pending)
          (record {
            boot_ne = v.boot_ne;
            remembered = v.remembered;
            loaded = λ c e. ground (arith, v.loaded c);
          })
  ]
]

-- If CR3 holds the tables of the current task, or the boot tables where it has none, and the boot
-- tables are remembered or still loaded, then the same holds after a call of `scheduler_schedule`
-- by that task, for the task that is current then.
pub schedule-IsLoaded :
    (boot : ℕ) (k : Kernel) (p : ℕ)
    → IsLoaded boot k
    → k.current ≡ some p
    → IsLoaded boot (schedule k)
unfolding schedule
schedule-IsLoaded boot k p v o = elim (Option-cases (chosen (find_next k))) [
  | inl f ↦ rw (f, schedule) v
  | inr (n, f) ↦ elim (Bool-cases (ptr_eq k.current (some n))) [
    | inl same ↦ rw (f, schedule, same) v
    | inr other ↦
        let w = switch_to-IsLoaded boot k p n v o in
        elim (Bool-cases (k.tasks n).started) [
          | inl st ↦ rw (f, schedule, other, st) (release_pending-IsLoaded boot (switch_to n k) w)
          | inr st ↦ rw (f, schedule, other, st) w
        ]
  ]
]

-- `scheduler_start`, entered on the boot tables with nothing remembered, establishes this for the
-- first task of the list.
pub start-IsLoaded :
    (boot : ℕ) (k : Kernel) (h : ℕ)
    → boot ≢ 0
    → k.cr3 ≡ boot
    → k.kernel_cr3 ≡ 0
    → k.ready_head ≡ some h
    → IsLoaded boot (start k) × ((start k).current ≡ some h)
unfolding start
start-IsLoaded boot k h b c z e = elim (Bool-cases ((k.tasks h).address_space == 0)) [
  | inl none' ↦
      rw (e, start, ==_self h)
        (rw (none', z)
          (record { boot_ne = b; remembered = ground arith; loaded = λ i p. ground arith }, refl))
  | inr own ↦
      rw (e, start, ==_self h)
        (rw (own, z)
          (record { boot_ne = b; remembered = ground arith; loaded = λ i p. ground arith }, refl))
]
