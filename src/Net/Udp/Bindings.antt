-- ===== src/Net/Udp/Bindings.antt =====
-- The table of UDP handlers of kernel/net_stack.c as a map from ports to handlers.
use os.Base.{
  ℕ, zero, suc, ◌+◌, ◌<◌, ◌≤◌, ◌≡◌, ◌≢◌, refl, sym, ◌∙◌, ap, subst, true, false, ◌⊎◌, Option, none,
  some, ◌==◌, update, update_self, update_ne, is_some, arith, Bool-cases, inl, inr, ==_self, ==_ne,
}
use os.Net.{Net, Binding, max_handlers}
use os.Net.Udp.{find_port, set_binding, bind_at, bind, unbind, handler_of}

-- No port is bound twice, and a port that is bound has a handler.
pub record IsValid (table : ℕ → Binding) : Type 0 where
  pub unique :
      (i j : ℕ) → i < 8 → j < 8 → (table i).port ≢ 0 → (table i).port ≡ (table j).port → i ≡ j
  pub bound : (i : ℕ) → i < 8 → (table i).port ≢ 0 → is_some (table i).handler ≡ true

eq-of : (a b : ℕ) → (a == b) ≡ true → a ≡ b
eq-of a b h = ground (arith, h)

ne-of : (a b : ℕ) → (a == b) ≡ false → a ≢ b
ne-of a b h = ground (arith, h)

-- What the searching loop returns: the first binding with the port.
record FirstPort (n i port k : ℕ) (table : ℕ → Binding) : Type 0 where
  from : i ≤ k
  below : k < i + n
  here : (table k).port ≡ port
  first : (j : ℕ) → i ≤ j → j < k → (table j).port ≢ port

abbrev Absent : ℕ → ℕ → ℕ → (ℕ → Binding) → Type 0
Absent n i port table = (j : ℕ) → i ≤ j → j < i + n → (table j).port ≢ port

step : (i j : ℕ) → i ≤ j → (i ≡ j) ⊎ (suc i ≤ j)
step i j low = ground (arith, low)

find_port-cases :
    (n i port : ℕ) (table : ℕ → Binding)
    → ((k : ℕ) × (find_port n i port table ≡ some k) × FirstPort n i port k table)
      ⊎ ((find_port n i port table ≡ none) × Absent n i port table)
unfolding find_port
find_port-cases zero i port table = inr (refl, λ j low high. absurd (omega (arith, low, high)))
find_port-cases (suc n) i port table = elim (Bool-cases ((table i).port == port)) [
  | inl e ↦ inl (
    i,
    rw (find_port, e) refl,
    record {
      from = omega arith;
      below = omega arith;
      here = eq-of (table i).port port e;
      first = λ j low high. absurd (omega (arith, low, high));
    },
  )
  | inr e ↦
      let here : (j : ℕ) → i ≡ j → (table j).port ≢ port =
        λ j same. subst (λ j. (table j).port ≢ port) same (ne-of (table i).port port e) in
      elim (find_port-cases n (suc i) port table) [
        | inl (k, found, f) ↦ inl (
          k,
          rw (find_port, e) found,
          record {
            from = omega (arith, f.from);
            below = omega (arith, f.below);
            here = f.here;
            first = λ j low high. elim (step i j low) [
              | inl same ↦ here j same
              | inr later ↦ f.first j later high
            ];
          },
        )
        | inr (missing, a) ↦ inr (
          rw (find_port, e) missing,
          λ j low high. elim (step i j low) [
            | inl same ↦ here j same
            | inr later ↦ a j later (omega (arith, high))
          ],
        )
      ]
]

handler_of-Absent :
    (n i port : ℕ) (table : ℕ → Binding) → Absent n i port table → handler_of n i port table ≡ none
unfolding handler_of
handler_of-Absent zero i port table a = refl
handler_of-Absent (suc n) i port table a =
    let e : ((table i).port == port) ≡ false =
      ==_ne (table i).port port (a i (omega arith) (omega arith)) in
    rw (handler_of, e)
      (handler_of-Absent n (suc i) port table
        (λ j low high. a j (omega (arith, low)) (omega (arith, high))))

handler_of-first :
    (n i port k : ℕ) (table : ℕ → Binding)
    → FirstPort n i port k table
    → is_some (table k).handler ≡ true
    → handler_of n i port table ≡ (table k).handler
unfolding handler_of
handler_of-first zero i port k table f h = absurd (omega (arith, f.from, f.below))
handler_of-first (suc n) i port k table f h = elim (Bool-cases (k == i)) [
  | inl e ↦
      let same : k ≡ i = eq-of k i e in
      let at : ((table i).port == port) ≡ true =
        subst (λ x. ((table x).port == port) ≡ true) same
          (subst (λ p. ((table k).port == p) ≡ true) f.here (==_self (table k).port)) in
      let has : is_some (table i).handler ≡ true =
        subst (λ x. is_some (table x).handler ≡ true) same h in
      rw (handler_of, at, has) (ap (λ x. (table x).handler) (sym same))
  | inr e ↦
      let ne : k ≢ i = ne-of k i e in
      let later : suc i ≤ k = ground (arith, f.from, ne) in
      let other : ((table i).port == port) ≡ false =
        ==_ne (table i).port port (f.first i (omega arith) (omega (arith, later))) in
      rw (handler_of, other)
        (handler_of-first n (suc i) port k table
          (record {
            from = later;
            below = omega (arith, f.below);
            here = f.here;
            first = λ j low high. f.first j (omega (arith, low)) high;
          })
          h)
]

-- A change of a binding of another port does not matter.
handler_of-update :
    (n i port k : ℕ) (b : Binding) (table : ℕ → Binding)
    → b.port ≢ port
    → (table k).port ≢ port
    → handler_of n i port (update table k b) ≡ handler_of n i port table
unfolding handler_of
handler_of-update zero i port k b table new old = refl
handler_of-update (suc n) i port k b table new old =
    let rest = handler_of-update n (suc i) port k b table new old in
    elim (Bool-cases (k == i)) [
      | inr e ↦ rw (handler_of, e, rest) refl
      | inl e ↦
          let b_other : (b.port == port) ≡ false = ==_ne b.port port new in
          let old_other : ((table i).port == port) ≡ false =
            ==_ne (table i).port port (subst (λ x. (table x).port ≢ port) (eq-of k i e) old) in
          rw (handler_of, e, b_other, old_other, rest) refl
    ]

-- Putting a binding whose port stands nowhere else keeps the table valid.
update-IsValid :
    (table : ℕ → Binding) (k : ℕ) (b : Binding)
    → IsValid table
    → ((j : ℕ) → j < 8 → j ≢ k → b.port ≢ 0 → (table j).port ≢ b.port)
    → (b.port ≢ 0 → is_some b.handler ≡ true)
    → IsValid (update table k b)
update-IsValid table k b v apart has = record {
  unique = λ i j low_i low_j some_port same. elim (Bool-cases (k == i)) [
    | inl ei ↦ elim (Bool-cases (k == j)) [
      | inl ej ↦ sym (eq-of k i ei) ∙ eq-of k j ej
      | inr ej ↦ absurd (
          apart j low_j (λ e. ne-of k j ej (sym e)) (λ z. some_port (new i ei ∙ z))
            (sym (old j ej) ∙ sym same ∙ new i ei))
    ]
    | inr ei ↦ elim (Bool-cases (k == j)) [
      | inl ej ↦ absurd (
          apart i low_i (λ e. ne-of k i ei (sym e)) (λ z. some_port (same ∙ new j ej ∙ z))
            (sym (old i ei) ∙ same ∙ new j ej))
      | inr ej ↦
          v.unique i j low_i low_j (λ z. some_port (old i ei ∙ z))
            (sym (old i ei) ∙ same ∙ old j ej)
    ]
  ];
  bound = λ i low some_port. elim (Bool-cases (k == i)) [
    | inl ei ↦ rw (ei) (has (λ z. some_port (new i ei ∙ z)))
    | inr ei ↦ rw (ei) (v.bound i low (λ z. some_port (old i ei ∙ z)))
  ];
}
  where
    new : (i : ℕ) → (k == i) ≡ true → (update table k b i).port ≡ b.port
    new i e = rw (e) refl

    old : (i : ℕ) → (k == i) ≡ false → (update table k b i).port ≡ (table i).port
    old i e = rw (e) refl

-- The table after port `port` got handler `h`, none when it is unbound: valid, and a map that differs
-- from the old one at that port only.
pub record Rebound (port : ℕ) (h : Option ℕ) (old new : ℕ → Binding) : Type 0 where
  pub valid : IsValid new
  pub here : handler_of max_handlers 0 port new ≡ h
  pub others :
      (q : ℕ) → q ≢ port → q ≢ 0 → handler_of max_handlers 0 q new ≡ handler_of max_handlers 0 q old

put-Rebound :
    (port k h : ℕ) (table : ℕ → Binding)
    → IsValid table
    → port ≢ 0
    → k < 8
    → ((j : ℕ) → j < 8 → j ≢ k → (table j).port ≢ port)
    → ((q : ℕ) → q ≢ port → q ≢ 0 → (table k).port ≢ q)
    → Rebound port (some h) table (update table k (record { port = port; handler = some h }))
put-Rebound port k h table v p low alone other =
    let b : Binding = record { port = port; handler = some h } in
    let at : update table k b k ≡ b = update_self table k b in
    let away : (j : ℕ) → j < k → (update table k b j).port ≢ port = λ j lower.
      let ne : k ≢ j = ground (arith, lower) in
      subst (λ x. x.port ≢ port) (sym (update_ne table k j b ne))
        (alone j (omega (arith, lower, low)) (λ e. ne (sym e))) in
    record {
      valid = update-IsValid table k b v (λ j l n z. alone j l n) (λ z. refl);
      here =
          handler_of-first 8 0 port k (update table k b)
            (record {
              from = omega arith;
              below = omega (arith, low);
              here = ap (λ x. x.port) at;
              first = λ j l lower. away j lower;
            })
            (ap (λ x. is_some x.handler) at)
          ∙ ap (λ x. x.handler) at;
      others = λ q ne z. handler_of-update 8 0 q k b table (λ e. ne (sym e)) (other q ne z);
    }

-- `net_udp_bind` of a port and a handler that are not NULL: when it returns true, the handler stands
-- at the port and the other ports keep theirs; it returns false, changing nothing, only when the port
-- is not bound and all eight bindings are taken. The table stays valid.
pub bind-Rebound :
    (port h : ℕ) (net : Net)
    → IsValid net.udp_bindings
    → port ≢ 0
    → (((bind port (some h) net).0 ≡ true)
        × Rebound port (some h) net.udp_bindings (bind port (some h) net).1.udp_bindings)
      ⊎ ((bind port (some h) net ≡ (false, net))
          × ((j : ℕ)
              → j < 8
              → ((net.udp_bindings j).port ≢ port) × ((net.udp_bindings j).port ≢ 0)))
unfolding bind
bind-Rebound port h net v p =
    let table = net.udp_bindings in
    let e : (port == 0) ≡ false = ==_ne port 0 p in
    elim (find_port-cases 8 0 port table) [
      | inl (k, found, f) ↦
          let same : bind port (some h) net ≡ bind_at port (some h) net (some k) =
            rw (bind, e, found) refl in
          let low : k < 8 = omega (arith, f.below) in
          let rebound =
            put-Rebound port k h table v p low
              (λ j l ne q. ne (v.unique j k l low (λ z. p (sym q ∙ z)) (q ∙ sym f.here)))
              (λ q ne z e. ne (sym e ∙ f.here)) in
          inl (
            ap (λ r. r.0) same,
            subst (λ r. Rebound port (some h) table r.1.udp_bindings) (sym same)
                (subst
                  (λ x.
                    Rebound port (some h) table
                      (update table k (record { port = x; handler = some h })))
                  (sym f.here) rebound),
          )
      | inr (missing, absent) ↦ elim (find_port-cases 8 0 0 table) [
        | inl (k, found, f) ↦
            let same : bind port (some h) net ≡ (true, set_binding k port (some h) net) =
              rw (bind, e, missing, found) refl in
            inl (
              ap (λ r. r.0) same,
              subst (λ r. Rebound port (some h) table r.1.udp_bindings) (sym same)
                  (put-Rebound port k h table v p (omega (arith, f.below))
                    (λ j l ne. absent j (omega arith) (omega (arith, l)))
                    (λ q ne z e. z (sym e ∙ f.here))),
            )
        | inr (full, taken) ↦ inr (
          rw (bind, e, missing, full) refl,
          λ j l.
              (absent j (omega arith) (omega (arith, l)), taken j (omega arith) (omega (arith, l))),
        )
      ]
    ]

-- `net_udp_unbind` of a port that is not zero leaves no handler at the port, none of the others
-- changed, and the table valid.
pub unbind-Rebound :
    (port : ℕ) (net : Net)
    → IsValid net.udp_bindings
    → port ≢ 0
    → Rebound port none net.udp_bindings (unbind port net).udp_bindings
unfolding unbind
unbind-Rebound port net v p =
    let table = net.udp_bindings in
    let e : (port == 0) ≡ false = ==_ne port 0 p in
    elim (find_port-cases 8 0 port table) [
      | inr (missing, absent) ↦
          let same : unbind port net ≡ net = rw (unbind, e, missing) refl in
          subst (λ n. Rebound port none table n.udp_bindings) (sym same)
            (record {
              valid = v;
              here = handler_of-Absent 8 0 port table absent;
              others = λ q ne z. refl;
            })
      | inl (k, found, f) ↦
          let b : Binding = record { port = 0; handler = none } in
          let same : unbind port net ≡ set_binding k 0 none net = rw (unbind, e, found) refl in
          let low : k < 8 = omega (arith, f.below) in
          let gone : (j : ℕ) → j < 8 → (update table k b j).port ≢ port = λ j l.
            elim (Bool-cases (k == j)) [
              | inl c ↦ rw (c) (λ z. p (sym z))
              | inr c ↦ rw (c) (λ q.
                  ne-of k j c (sym (v.unique j k l low (λ z. p (sym q ∙ z)) (q ∙ sym f.here))))
            ] in
          subst (λ n. Rebound port none table n.udp_bindings) (sym same)
            (record {
              valid =
                  update-IsValid table k b v (λ j l n z. absurd (z refl)) (λ z. absurd (z refl));
              here =
                  handler_of-Absent 8 0 port (update table k b)
                    (λ j low' high. gone j (omega (arith, high)));
              others = λ q ne z.
                  handler_of-update 8 0 q k b table (λ c. z (sym c)) (λ c. ne (sym c ∙ f.here));
            })
    ]
