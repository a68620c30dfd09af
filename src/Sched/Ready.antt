-- ===== src/Sched/Ready.antt =====
-- The doubly linked list of tasks of kernel/scheduler.c, read off from `ready_head`.
use mathlib.Core.List.{Mem, Nodup, Nodup-cons, not-mem-nil, mem-cons_self, mem-cons_of_mem}
use mathlib.Core.List.{mem-cons, perm_append_comm}
use mathlib.Core.List.Perm
use mathlib.Core.Logic.Or
use mathlib.Core.HLevel.{⊥_prop}
use os.Base.{
  ℕ, ◌≤◌, ◌<◌, ◌≡◌, refl, ◌∙◌, sym, ap, ◌≢◌, Option, none, some, List, [], ◌∷◌, ◌++◌, arith, length,
  length-append, subst,
}
use os.Kernel.{Kernel, Task, max_tasks}
use os.Sched.{enqueue_task}

abbrev pub head? : List ℕ → Option ℕ
head? [] = none
head? (x ∷ xs) = some x

-- From a task on, with `prv` before it, the links run through the list and end at `last`.
abbrev pub Chain : (ℕ → Task) → Option ℕ → List ℕ → Option ℕ → Type 0
Chain t prv [] last = last ≡ prv
Chain t prv (x ∷ xs) last = ((t x).prev ≡ prv) × ((t x).next ≡ head? xs) × Chain t (some x) xs last

-- The scheduler's list holds just these tasks, in this order, each once.
pub record ReadyList (k : Kernel) (xs : List ℕ) : Type 0 where
  pub head : k.ready_head ≡ head? xs
  pub chain : Chain k.tasks none xs k.ready_tail
  pub nodup : Nodup xs
  pub size : length xs ≤ max_tasks

abbrev pub NotIn : ℕ → List ℕ → Type 0
NotIn x [] = Unit {0}
NotIn x (y ∷ ys) = (x ≢ y) × NotIn x ys

pub not-mem-NotIn : (x : ℕ) (ys : List ℕ) → ¬ Mem x ys → NotIn x ys
not-mem-NotIn x [] h = tt
not-mem-NotIn x (y ∷ ys) h =
    (λ e. h (subst_mem e), not-mem-NotIn x ys (λ m. h (mem-cons_of_mem _ m)))
  where
    subst_mem : x ≡ y → Mem x (y ∷ ys)
    subst_mem e = rw e mem-cons_self

pub NotIn-not-mem : (x : ℕ) (ys : List ℕ) → NotIn x ys → ¬ Mem x ys
NotIn-not-mem x [] h m = not-mem-nil m
NotIn-not-mem x (y ∷ ys) h m = Or.elim ⊥_prop (mem-cons.0 m) (λ e. h.0 e) (NotIn-not-mem x ys h.1)

-- The links of tasks that do not change.
Chain-frame :
    (t u : ℕ → Task) (prv : Option ℕ) (xs : List ℕ) (last : Option ℕ)
    → ((x : ℕ) → Mem x xs → ((u x).prev ≡ (t x).prev) × ((u x).next ≡ (t x).next))
    → Chain t prv xs last
    → Chain u prv xs last
Chain-frame t u prv [] last same h = h
Chain-frame t u prv (x ∷ xs) last same h = (
  (same x mem-cons_self).0 ∙ h.0,
  (same x mem-cons_self).1 ∙ h.1,
  Chain-frame t u (some x) xs last (λ y m. same y (mem-cons_of_mem x m)) h.2,
)

-- Changing a task's other fields keeps the list.
pub ReadyList-frame :
    (k l : Kernel) (xs : List ℕ)
    → l.ready_head ≡ k.ready_head
    → l.ready_tail ≡ k.ready_tail
    → ((x : ℕ) → ((l.tasks x).prev ≡ (k.tasks x).prev) × ((l.tasks x).next ≡ (k.tasks x).next))
    → ReadyList k xs
    → ReadyList l xs
ReadyList-frame k l xs eh et same r = record {
  head = eh ∙ r.head;
  chain = rw et (Chain-frame k.tasks l.tasks none xs k.ready_tail (λ x m. same x) r.chain);
  nodup = r.nodup;
  size = r.size;
}

-- The last task of a list is in it.
Chain-last :
    (t : ℕ → Task) (prv : Option ℕ) (x : ℕ) (xs : List ℕ) (l : ℕ)
    → Chain t prv (x ∷ xs) (some l)
    → Mem l (x ∷ xs)
Chain-last t prv x [] l h = let e : l ≡ x = ground (arith, h.2) in rw e mem-cons_self
Chain-last t prv x (y ∷ ys) l h = mem-cons_of_mem x (Chain-last t (some x) y ys l h.2)

-- Two tables that differ as after linking task `i` behind task `l`.
record Linked (t u : ℕ → Task) (l i : ℕ) : Type 0 where
  prevs : (x : ℕ) → x ≢ i → (u x).prev ≡ (t x).prev
  nexts : (x : ℕ) → x ≢ i → x ≢ l → (u x).next ≡ (t x).next
  at_prev : (u i).prev ≡ some l
  at_next : (u i).next ≡ none
  at_last : (u l).next ≡ some i

Chain-append :
    (t u : ℕ → Task) (prv : Option ℕ) (x : ℕ) (xs : List ℕ) (l i : ℕ)
    → Linked t u l i
    → Nodup (x ∷ xs)
    → NotIn i (x ∷ xs)
    → Chain t prv (x ∷ xs) (some l)
    → Chain u prv ((x ∷ xs) ++ (i ∷ [])) (some i)
Chain-append t u prv x [] l i k nd ni h =
    let e : l ≡ x = ground (arith, h.2) in
    (
      k.prevs x (λ e. ni.0 (sym e)) ∙ h.0,
      rw (← e) k.at_last,
      (k.at_prev ∙ ap some e, k.at_next, refl),
    )
Chain-append t u prv x (y ∷ ys) l i k nd ni h = (
  k.prevs x (λ e. ni.0 (sym e)) ∙ h.0,
  k.nexts x (λ e. ni.0 (sym e)) x_ne_l ∙ h.1,
  Chain-append t u (some x) y ys l i k (Nodup-cons.0 nd).1 ni.1 h.2,
)
  where
    x_ne_l : x ≢ l
    x_ne_l e = (Nodup-cons.0 nd).0 (let m = Chain-last t (some x) y ys l h.2 in rw e m)

Chain-some :
    (t : ℕ → Task) (prv : Option ℕ) (x : ℕ) (xs : List ℕ) (last : Option ℕ)
    → Chain t prv (x ∷ xs) last
    → (l : ℕ) × (last ≡ some l)
Chain-some t prv x [] last h = (x, h.2)
Chain-some t prv x (y ∷ ys) last h = Chain-some t (some x) y ys last h.2

enqueue_task-Linked :
    (k : Kernel) (l i : ℕ)
    → i ≢ l
    → k.ready_tail ≡ some l
    → Linked k.tasks (enqueue_task i k).tasks l i
      × ((enqueue_task i k).ready_head ≡ k.ready_head)
      × ((enqueue_task i k).ready_tail ≡ some i)
unfolding enqueue_task
enqueue_task-Linked k l i ne e =
    rw (e, enqueue_task)
      (
        record {
          prevs = λ x nx. ground arith;
          nexts = λ x nx nl. ground arith;
          at_prev = ground arith;
          at_next = ground arith;
          at_last = ground arith;
        },
        refl,
        refl,
      )

Nodup-snoc : (xs : List ℕ) (i : ℕ) → Nodup xs → NotIn i xs → Nodup (xs ++ (i ∷ []))
Nodup-snoc xs i nd ni =
    Perm.nodup (perm_append_comm (i ∷ []) xs) (Nodup-cons.1 (NotIn-not-mem i xs ni, nd))

-- `enqueue_task` of a task that is not in a well linked list with room appends it, and the list is
-- well linked in both directions.
enqueue_task-ReadyList :
    (k : Kernel) (xs : List ℕ) (i : ℕ)
    → ReadyList k xs
    → NotIn i xs
    → length xs < max_tasks
    → ReadyList (enqueue_task i k) (xs ++ (i ∷ []))
enqueue_task-ReadyList k [] i r ni room =
    unfold enqueue_task in
    rw (r.chain, enqueue_task)
      (record {
        head = refl;
        chain = (ground arith, ground arith, refl);
        nodup = Nodup-snoc [] i r.nodup tt;
        size = omega arith;
      })
enqueue_task-ReadyList k (x ∷ xs) i r ni room =
    let (l, e) = Chain-some k.tasks none x xs k.ready_tail r.chain in
    let last =
      Chain-last k.tasks none x xs l (subst (λ t. Chain k.tasks none (x ∷ xs) t) e r.chain) in
    let (linked, head, tail) =
      enqueue_task-Linked k l i (λ same. NotIn-not-mem i (x ∷ xs) ni (rw same last)) e in
    record {
      head = head ∙ r.head;
      chain = rw tail (
          Chain-append k.tasks (enqueue_task i k).tasks none x xs l i linked r.nodup ni
            (subst (λ t. Chain k.tasks none (x ∷ xs) t) e r.chain));
      nodup = Nodup-snoc (x ∷ xs) i r.nodup ni;
      size = omega (arith, length-append (x ∷ xs) (i ∷ []));
    }
