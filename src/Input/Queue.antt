-- ===== src/Input/Queue.antt =====
-- The ring of kernel/input.c is a queue of at most 255 events.
use os.Base.{
  ℕ, zero, suc, ◌+◌, ◌-◌, ◌%◌, ◌^◌, ◌<◌, ◌≡◌, ◌≢◌, ◌⊎◌, refl, ◌∙◌, ap, ap₂, true, false, none, some,
  List, [], ◌∷◌, ◌++◌, leb, ◌==◌, ==_self, update, arith, Bool-cases, inl, inr,
}
use os.Input.{queue_size, Event, Input, push_event, pop_event, queue_depth}

-- The events from a position of the ring on.
abbrev pub span : (ℕ → Event) → ℕ → ℕ → List Event
span es t zero = []
span es t (suc n) = es (t % queue_size) ∷ span es (t + 1) n

unfoldable pub waiting : Input → List Event
waiting s = span s.events s.tail (queue_depth s)

pub record InRing (s : Input) : Type 0 where
  pub head_in : s.head < queue_size
  pub tail_in : s.tail < queue_size

span-mod :
    (es : ℕ → Event) (t u n : ℕ) → t % queue_size ≡ u % queue_size → span es t n ≡ span es u n
span-mod es t u zero e = refl
span-mod es t u (suc n) e =
    ap₂ (λ a b. es a ∷ b) e (span-mod es (t + 1) (u + 1) n (omega (arith, e)))

span-snoc :
    (es : ℕ → Event) (t n : ℕ) → span es t (suc n) ≡ span es t n ++ (es ((t + n) % queue_size) ∷ [])
span-snoc es t zero = let e : t + 0 ≡ t = omega arith in rw e refl
span-snoc es t (suc n) =
    let e : t + suc n ≡ t + 1 + n = omega arith in
    rw e (ap (λ l. es (t % queue_size) ∷ l) (span-snoc es (t + 1) n))

span-away :
    (es : ℕ → Event) (x : Event) (h t n : ℕ)
    → ((i : ℕ) → i < n → (t + i) % queue_size ≢ h)
    → span (update es h x) t n ≡ span es t n
span-away es x h t zero away = refl
span-away es x h t (suc n) away =
    let first : t % queue_size ≢ h = λ e. away 0 (omega arith) (omega (arith, e)) in
    let other : (h == t % queue_size) ≡ false = ground arith in
    rw other (
      ap (λ l. es (t % queue_size) ∷ l)
        (span-away es x h (t + 1) n (λ i lt e. away (suc i) (omega arith) (omega (arith, e)))))

-- The depth, and the head from the tail and the depth.
depth_facts :
    (s : Input)
    → InRing s
    → (queue_depth s < queue_size) × ((s.tail + queue_depth s) % queue_size ≡ s.head)
unfolding queue_depth
depth_facts s v = elim (Bool-cases (leb s.tail s.head)) [
  | inl below ↦ rw below (omega (arith, v.head_in), ground (arith, v.head_in, v.tail_in))
  | inr above ↦ rw above (ground (arith, v.tail_in), ground (arith, v.head_in, v.tail_in))
]

-- A depth that fits the positions is the depth.
depth_unique :
    (s : Input) (n : ℕ)
    → InRing s
    → n < queue_size
    → (s.tail + n) % queue_size ≡ s.head
    → queue_depth s ≡ n
depth_unique s n v small e = let (lt, at) = depth_facts s v in omega (arith, v.tail_in, lt, at)

-- `input_push_event` on positions inside the ring puts the event behind the waiting ones and returns
-- true; or 255 events wait already, it returns false, counts the event as dropped, and the waiting
-- ones stay. The positions stay inside the ring.
push_event-Queued :
    (e : Event) (s : Input)
    → InRing s
    → let (s', ok) = push_event e s in
      InRing s'
      × (((ok ≡ true) × (waiting s' ≡ waiting s ++ (e ∷ [])))
          ⊎ ((ok ≡ false)
              × (queue_depth s ≡ 255)
              × (s'.dropped ≡ (s.dropped + 1) % 2 ^ 32)
              × (waiting s' ≡ waiting s)))
unfolding push_event waiting queue_depth
push_event-Queued e s v = elim (Bool-cases ((s.head + 1) % queue_size == s.tail)) [
  | inl full ↦
      let (lt, at) = depth_facts s v in
      rw full (
        record { head_in = v.head_in; tail_in = v.tail_in },
        inr (
          refl,
          depth_unique s 255 v (omega arith) (ground (arith, v.head_in, v.tail_in)),
          refl,
          refl,
        ),
      )
  | inr room ↦
      let (lt, at) = depth_facts s v in
      let ok : InRing (grown e s) = record { head_in = omega arith; tail_in = v.tail_in } in
      let more : queue_depth (grown e s) ≡ suc (queue_depth s) =
        depth_unique (grown e s) (suc (queue_depth s)) ok
          (ground (arith, at, lt, v.tail_in, v.head_in)) (omega (arith, at)) in
      rw room (
        ok,
        inl (
          refl,
          ap (λ n. span (update s.events s.head e) s.tail n) more
              ∙ span-snoc (update s.events s.head e) s.tail (queue_depth s)
              ∙ ap₂ (λ a b. a ++ (b ∷ []))
                  (span-away s.events e s.head s.tail (queue_depth s)
                    (λ i small same. omega (arith, at, lt, v.tail_in)))
                  (rw (at, ==_self s.head) refl),
        ),
      )
]
  where
    grown : Event → Input → Input
    grown e s = record s { events = update s.events s.head e; head = (s.head + 1) % queue_size }

-- `input_pop_event` on positions inside the ring hands out the first waiting event and leaves the
-- others, or there is none and nothing changes.
pop_event-Front :
    (s : Input)
    → InRing s
    → let (s', o) = pop_event s in
      InRing s'
      × (((o ≡ none) × (waiting s ≡ []) × (s' ≡ s))
          ⊎ ((e : Event) × (o ≡ some e) × (waiting s ≡ e ∷ waiting s')))
unfolding pop_event waiting
pop_event-Front s v = elim (Bool-cases (s.tail == s.head)) [
  | inl empty ↦
      let nothing : queue_depth s ≡ 0 =
        depth_unique s 0 v (omega arith) (ground (arith, v.tail_in)) in
      rw empty (v, inl (refl, rw nothing refl, refl))
  | inr some_left ↦
      let (lt, at) = depth_facts s v in
      let ok : InRing (shrunk s) = record { head_in = v.head_in; tail_in = omega arith } in
      let apart : s.tail ≢ s.head = ground arith in
      let nonzero : 0 < queue_depth s = omega (arith, at, apart, v.tail_in) in
      let rest : queue_depth (shrunk s) ≡ queue_depth s - 1 =
        depth_unique (shrunk s) (queue_depth s - 1) ok (omega (arith, lt))
          (omega (arith, at, nonzero)) in
      let less : queue_depth s ≡ suc (queue_depth (shrunk s)) = omega (arith, rest, nonzero) in
      let at_tail : s.tail % queue_size ≡ s.tail = omega (arith, v.tail_in) in
      rw some_left (
        ok,
        inr (
          s.events s.tail,
          refl,
          ap (λ n. span s.events s.tail n) less
              ∙ ap₂ (λ a b. s.events a ∷ b) at_tail
                  (span-mod s.events (s.tail + 1) ((s.tail + 1) % queue_size)
                    (queue_depth (shrunk s)) (omega arith)),
        ),
      )
]
  where
    shrunk : Input → Input
    shrunk s = record s { tail = (s.tail + 1) % queue_size }
