-- ===== src/Sched/Next.antt =====
-- `scheduler_find_next` of kernel/scheduler.c is round robin.
use mathlib.Core.List.{Nodup, Nodup-cons, perm_append_comm, append_assoc}
use mathlib.Core.List.Perm
use os.Base.{
  ℕ, zero, suc, ◌≤◌, ◌<◌, ◌≡◌, refl, ◌∙◌, sym, Bool, true, false, Option, none, some, List, [], ◌∷◌,
  ◌++◌, arith, length, length-append, if◌then◌else◌, ==_ne, ==_self,
}
use os.Kernel.{Kernel, Task, is_ready, max_tasks}
use os.Sched.{ring_next, search_ready, first_candidate, find_next}
use os.Sched.Ready.{head?, Chain, ReadyList, NotIn, not-mem-NotIn}

-- The first task of a list that is ready.
unfoldable pub first_ready : (ℕ → Task) → List ℕ → Option ℕ
first_ready t [] = none
first_ready t (x ∷ xs) = if is_ready (t x).state then some x else first_ready t xs

abbrev head_or : List ℕ → ℕ → ℕ
head_or [] e = e
head_or (x ∷ xs) e = x

-- `ring_next` leads through the list and then to `e`.
abbrev Ring : Kernel → List ℕ → ℕ → Type 0
Ring k [] e = Unit {0}
Ring k (x ∷ xs) e = (ring_next k x ≡ some (head_or xs e)) × Ring k xs e

some_if {ℓ} :
    {A : Type ℓ} (b : Bool) (x y : A) → (if b then some x else some y) ≡ some (if b then x else y)
some_if true x y = refl
some_if false x y = refl

-- Walking a ring once finds its first ready task, and stops.
search_ready-Ring :
    (k : Kernel) (first x : ℕ) (xs : List ℕ) (fuel : ℕ)
    → Ring k (x ∷ xs) first
    → NotIn first xs
    → length xs < fuel
    → search_ready fuel k first x ≡ some (first_ready k.tasks (x ∷ xs))
unfolding search_ready first_ready
search_ready-Ring k first x xs zero r n h = absurd (omega arith)
search_ready-Ring k first x [] (suc f) r n h = rw (r.0, search_ready, ==_self first) (some_if _ _ _)
search_ready-Ring k first x (y ∷ ys) (suc f) r n h =
    rw
      (
        r.0,
        search_ready,
        ==_ne y first (λ e. n.0 (sym e)),
        search_ready-Ring k first y ys f r.1 n.1 (omega arith),
      )
      (some_if _ _ _)

Ring-append :
    (k : Kernel) (xs ys : List ℕ) (e : ℕ)
    → Ring k xs (head_or ys e)
    → Ring k ys e
    → Ring k (xs ++ ys) e
Ring-append k [] ys e h g = g
Ring-append k (x ∷ []) ys e h g = (h.0, g)
Ring-append k (x ∷ y ∷ xs) ys e h g = (h.0, Ring-append k (y ∷ xs) ys e h.1 g)

Ring-split :
    (k : Kernel) (xs ys : List ℕ) (e : ℕ)
    → Ring k (xs ++ ys) e
    → Ring k xs (head_or ys e) × Ring k ys e
Ring-split k [] ys e h = (tt, h)
Ring-split k (x ∷ []) ys e h = ((h.0, tt), h.1)
Ring-split k (x ∷ y ∷ xs) ys e h = let (a, b) = Ring-split k (y ∷ xs) ys e h.1 in ((h.0, a), b)

Chain-Ring :
    (k : Kernel) (h : ℕ) (prv : Option ℕ) (xs : List ℕ) (last : Option ℕ)
    → k.ready_head ≡ some h
    → Chain k.tasks prv xs last
    → Ring k xs h
Chain-Ring k h prv [] last e c = tt
Chain-Ring k h prv (x ∷ []) last e c = (rw (c.1, ring_next) e, tt)
Chain-Ring k h prv (x ∷ y ∷ ys) last e c =
    (rw (c.1, ring_next), Chain-Ring k h (some x) (y ∷ ys) last e c.2)

-- The loop finds the first ready task of a ring that starts at the candidate.
find_next-Ring :
    (k : Kernel) (h x : ℕ) (xs : List ℕ)
    → k.ready_head ≡ some h
    → first_candidate k ≡ some x
    → Ring k (x ∷ xs) x
    → Nodup (x ∷ xs)
    → length xs < max_tasks
    → find_next k ≡ some (first_ready k.tasks (x ∷ xs))
unfolding find_next
find_next-Ring k h x xs eh ec r nd hl =
    rw
      (
        eh,
        find_next,
        ec,
        search_ready-Ring k x x xs max_tasks r (not-mem-NotIn x xs (Nodup-cons.0 nd).0) hl,
      )
      refl

Ring-last :
    (k : Kernel) (xs : List ℕ) (c e : ℕ) → Ring k (xs ++ (c ∷ [])) e → ring_next k c ≡ some e
Ring-last k [] c e r = r.0
Ring-last k (x ∷ []) c e r = r.1.0
Ring-last k (x ∷ y ∷ xs) c e r = Ring-last k (y ∷ xs) c e r.1

head?-cons :
    (before after : List ℕ) (c : ℕ) → head? (before ++ (c ∷ after)) ≡ some (head_or before c)
head?-cons [] after c = refl
head?-cons (b ∷ bs) after c = refl

head_or-snoc : (before : List ℕ) (c e : ℕ) → head_or (before ++ (c ∷ [])) e ≡ head_or before c
head_or-snoc [] c e = refl
head_or-snoc (b ∷ bs) c e = refl

module _ (k : Kernel) (before after : List ℕ) (c : ℕ) (r : ReadyList k (before ++ (c ∷ after)))
    (e : k.current ≡ some c) where
  -- the head of the list, and the task that the search starts from
  abbrev front : ℕ
  front = head_or before c

  abbrev start : ℕ
  start = head_or after front

  abbrev order : List ℕ
  order = after ++ (before ++ (c ∷ []))

  is_front : k.ready_head ≡ some front
  is_front = r.head ∙ head?-cons before after c

  halves : Ring k (before ++ (c ∷ [])) start × Ring k after front
  halves = Ring-split k (before ++ (c ∷ [])) after front (
      rw (append_assoc before (c ∷ []) after)
        (Chain-Ring k front none (before ++ (c ∷ after)) k.ready_tail is_front r.chain))

  candidate : first_candidate k ≡ some start
  candidate = rw (e, first_candidate) (Ring-last k before c start halves.0)

  ring : Ring k order start
  ring =
      Ring-append k after (before ++ (c ∷ [])) start (rw (head_or-snoc before c start) halves.1)
        halves.0

  distinct : Nodup order
  distinct =
      Perm.nodup (perm_append_comm (before ++ (c ∷ [])) after)
        (rw (append_assoc before (c ∷ []) after) r.nodup)

  fits : length order ≤ max_tasks
  fits = omega (
    arith,
    r.size,
    length-append before (c ∷ after),
    length-append before (c ∷ []),
    length-append after (before ++ (c ∷ [])),
  )

-- On a well linked list that holds the current task, the search of `scheduler_find_next` ends, within
-- a round for each entry of the table, and returns the first ready task behind the current one, going round the list, the current task itself last, and NULL
-- exactly if that list holds no ready task.
pub find_next_round_robin :
    (k : Kernel) (before after : List ℕ) (c : ℕ)
    → ReadyList k (before ++ (c ∷ after))
    → k.current ≡ some c
    → find_next k ≡ some (first_ready k.tasks (after ++ (before ++ (c ∷ []))))
find_next_round_robin k [] [] c r e =
    find_next-Ring k c c [] (is_front k [] [] c r e) (candidate k [] [] c r e) (ring k [] [] c r e)
      (distinct k [] [] c r e) (omega (arith, fits k [] [] c r e))
find_next_round_robin k (b ∷ bs) [] c r e =
    find_next-Ring k b b (bs ++ (c ∷ [])) (is_front k (b ∷ bs) [] c r e)
      (candidate k (b ∷ bs) [] c r e) (ring k (b ∷ bs) [] c r e) (distinct k (b ∷ bs) [] c r e)
      (omega (arith, fits k (b ∷ bs) [] c r e))
find_next_round_robin k before (a ∷ as') c r e =
    find_next-Ring k (head_or before c) a (as' ++ (before ++ (c ∷ [])))
      (is_front k before (a ∷ as') c r e) (candidate k before (a ∷ as') c r e)
      (ring k before (a ∷ as') c r e) (distinct k before (a ∷ as') c r e)
      (omega (arith, fits k before (a ∷ as') c r e))
