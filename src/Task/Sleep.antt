-- ===== src/Task/Sleep.antt =====
-- `task_wake_sleepers` of kernel/task.c.
use os.Base.{
  ℕ, zero, suc, ◌+◌, ◌≤◌, ◌<◌, ◌≡◌, refl, ◌∙◌, Bool, ◌&&◌, arith, if◌then◌else◌, ◌==◌, leb,
  Bool-cases, inl, inr, update, update_self, update_ne, ap, ◌≢◌,
}
use os.Kernel.{Kernel, Task, ready, is_blocked, max_tasks}
use os.Task.{wake_task, wake_from, wake_sleepers, waiting_sleep}

wake_from-before : (now n i : ℕ) (t : ℕ → Task) (j : ℕ) → j < i → wake_from now n i t j ≡ t j
unfolding wake_from
wake_from-before now zero i t j h = refl
wake_from-before now (suc n) i t j h =
    wake_from-before now n (i + 1) (update t i (wake_task now (t i))) j (omega arith)
    ∙ update_ne t i j (wake_task now (t i)) (omega arith)

wake_from-each :
    (now n i : ℕ) (t : ℕ → Task) (j : ℕ)
    → i ≤ j
    → j < i + n
    → wake_from now n i t j ≡ wake_task now (t j)
unfolding wake_from
wake_from-each now zero i t j lo hi = absurd (omega arith)
wake_from-each now (suc n) i t j lo hi = elim (Bool-cases (i == j)) [
  | inl e ↦
      let same : i ≡ j = ground arith in
      wake_from-before now n (i + 1) (update t i (wake_task now (t i))) j (omega arith)
      ∙ rw same (update_self t j (wake_task now (t j)))
  | inr e ↦
      let ne : i ≢ j = ground arith in
      wake_from-each now n (i + 1) (update t i (wake_task now (t i))) j (omega arith) (omega arith)
      ∙ ap (wake_task now) (update_ne t i j (wake_task now (t i)) ne)
]

-- Whether a task sleeps.
abbrev is_asleep : Task → Bool
is_asleep t = is_blocked t.state && (t.waiting_event == waiting_sleep)

wake_task_lem :
    (now : ℕ) (t : Task)
    → (wake_task now t).state ≡ (if is_asleep t && leb t.event_data now then ready else t.state)
unfolding wake_task
wake_task_lem now t = ground arith

-- A timer tick makes exactly those tasks of the table ready that sleep and whose deadline has
-- come; no other blocked task is woken, whatever its event data, and no other state changes.
wake_sleepers-state :
    (now : ℕ) (k : Kernel) (j : ℕ)
    → j < max_tasks
    → ((wake_sleepers now k).tasks j).state ≡ (
        if is_blocked (k.tasks j).state
          && ((k.tasks j).waiting_event == waiting_sleep)
          && leb (k.tasks j).event_data now
        then ready
        else (k.tasks j).state)
unfolding wake_sleepers
wake_sleepers-state now k j h =
    ap (λ t. t.state) (wake_from-each now max_tasks 0 k.tasks j (omega arith) h)
    ∙ wake_task_lem now (k.tasks j)
