-- ===== src/Ipc/Close.antt =====
-- `ipc_close` of kernel/ipc.c wakes every task that waits.
use os.Base.{
  ℕ, zero, suc, ◌^◌, ◌<◌, ◌≤◌, ◌≡◌, ◌≢◌, refl, sym, ◌∙◌, ap, subst, false, Option, none, some, List,
  [], ◌∷◌, ==_self, if◌then◌else◌, update_ne, length, arith, ℤ,
}
use os.Kernel.{Kernel, Task, ready, is_blocked, max_tasks}
use os.Sched.Block.{unblock_task, unblock_task-at, unblock_task-others}
use os.Sched.Ready.{NotIn}
use os.Ipc.{Channels, channel_of, set_wait_next, wake_all, close_at, close}

-- The tasks of a wait list, in its order.
abbrev pub Waiting : (ℕ → Task) → Option ℕ → List ℕ → Type 0
Waiting t w [] = w ≡ none
Waiting t w (x ∷ xs) = (w ≡ some x) × Waiting t (t x).ipc_wait_next xs

abbrev pub Distinct : List ℕ → Type 0
Distinct [] = Unit {0}
Distinct (x ∷ xs) = NotIn x xs × Distinct xs

-- What waking does to each task of a list.
abbrev pub AllWoken : (ℕ → Task) → (ℕ → Task) → List ℕ → Type 0
AllWoken t u [] = Unit {0}
AllWoken t u (x ∷ xs) =
    ((u x).state ≡ (if is_blocked (t x).state then ready else (t x).state))
    × ((u x).ipc_wait_next ≡ none)
    × AllWoken t u xs

-- One round of the loop.
abbrev wake : ℕ → Kernel → Kernel
wake x k = unblock_task (some x) (set_wait_next x none k)

wake-one :
    (x : ℕ) (k : Kernel)
    → (((wake x k).tasks x).state
        ≡ (if is_blocked (k.tasks x).state then ready else (k.tasks x).state))
      × (((wake x k).tasks x).ipc_wait_next ≡ none)
wake-one x k =
    let (state, link) = unblock_task-at x (set_wait_next x none k) in
    (rw (==_self x) at state, rw (==_self x) at link)

wake-others : (x : ℕ) (k : Kernel) (j : ℕ) → x ≢ j → (wake x k).tasks j ≡ k.tasks j
wake-others x k j ne =
    unblock_task-others x (set_wait_next x none k) j ne ∙ update_ne k.tasks x j _ ne

Waiting-frame :
    (t u : ℕ → Task) (w : Option ℕ) (x : ℕ) (xs : List ℕ)
    → ((j : ℕ) → x ≢ j → u j ≡ t j)
    → NotIn x xs
    → Waiting t w xs
    → Waiting u w xs
Waiting-frame t u w x [] same ni h = h
Waiting-frame t u w x (y ∷ ys) same ni h =
    (h.0, rw (same y ni.0) (Waiting-frame t u (t y).ipc_wait_next x ys same ni.1 h.1))

AllWoken-frame :
    (t t' u : ℕ → Task) (x : ℕ) (xs : List ℕ)
    → ((j : ℕ) → x ≢ j → t' j ≡ t j)
    → NotIn x xs
    → AllWoken t' u xs
    → AllWoken t u xs
AllWoken-frame t t' u x [] same ni a = tt
AllWoken-frame t t' u x (y ∷ ys) same ni a =
    (rw (same y ni.0) at a.0, a.1, AllWoken-frame t t' u x ys same ni.1 a.2)

-- The tasks of the list are woken, and no other task changes.
abbrev WakesAll : (ℕ → Task) → (ℕ → Task) → List ℕ → Type 0
WakesAll t u xs = AllWoken t u xs × ((j : ℕ) → NotIn j xs → u j ≡ t j)

wake_all-lem :
    (f : ℕ) (w : Option ℕ) (xs : List ℕ) (k : Kernel)
    → Waiting k.tasks w xs
    → Distinct xs
    → length xs ≤ f
    → WakesAll k.tasks (wake_all f w k).tasks xs
unfolding wake_all
wake_all-lem zero w [] k h d l = (tt, λ j n. refl)
wake_all-lem zero w (x ∷ xs) k h d l = absurd (omega arith)
wake_all-lem (suc f) w [] k h d l = rw h (tt, λ j n. refl)
wake_all-lem (suc f) w (x ∷ xs) k h d l =
    let next = (k.tasks x).ipc_wait_next in
    let (woken, others) =
      wake_all-lem f next xs (wake x k)
        (Waiting-frame k.tasks (wake x k).tasks next x xs (wake-others x k) d.0 h.1) d.1
        (omega arith) in
    let last = others x d.0 in
    let u = (wake_all f next (wake x k)).tasks in
    subst (λ v. WakesAll k.tasks (wake_all (suc f) v k).tasks (x ∷ xs)) (sym h.0)
      (
        (
          ap (λ t. t.state) last ∙ (wake-one x k).0,
          ap (λ t. t.ipc_wait_next) last ∙ (wake-one x k).1,
          AllWoken-frame k.tasks (wake x k).tasks u x xs (wake-others x k) d.0 woken,
        ),
        λ j n. others j n.1 ∙ wake-others x k j (λ e. n.0 (sym e)),
      )

-- Closing a channel wakes every task that waits on it: of a wait list of distinct tasks of the table
-- each blocked one becomes ready, and none is linked any more; the other tasks stay as they are. The
-- channel is out of use with no waiting task, and its generation, which is never 0, has changed.
pub close-Woken :
    (channel : ℤ) (i : ℕ) (xs : List ℕ) (cs : Channels) (k : Kernel)
    → channel_of channel cs ≡ some i
    → Waiting k.tasks (cs i).wait_head xs
    → Distinct xs
    → length xs ≤ max_tasks
    → (cs i).generation < 2 ^ 32
    → let (cs', k') = close channel cs k in
      AllWoken k.tasks k'.tasks xs
      × ((j : ℕ) → NotIn j xs → k'.tasks j ≡ k.tasks j)
      × ((cs' i).in_use ≡ false)
      × ((cs' i).wait_head ≡ none)
      × ((cs' i).generation ≢ (cs i).generation)
      × ((cs' i).generation ≢ 0)
unfolding close close_at
close-Woken channel i xs cs k e h d l g =
    let (woken, others) = wake_all-lem max_tasks (cs i).wait_head xs k h d l in
    rw (e, close, ==_self i) (woken, others, refl, refl, ground arith, ground arith)
