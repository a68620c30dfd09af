-- ===== src/Wm/Focus.antt =====
-- `wm_focus_window` of kernel/wm.c, and the left press that calls it.
use mathlib.Core.List.{Permᴰ, Memᴰ}
use mathlib.Core.Option.{some-injective}
use os.Base.{
  ℕ, ◌<◌, ◌≡◌, ◌≢◌, ◌⊎◌, refl, sym, ap, ◌∙◌, subst, Bool, true, false, Option, none, some, List, [],
  ◌∷◌, ◌==◌, if◌then◌else◌, arith, Bool-cases, inl, inr, ℤ,
}
use os.Wm.{
  Window, Wm, Drag, mouse_down, first_match, is_at, get_focused, get_window_at, contains, focus_all,
  focus_window, render, handle_event, clicked_on,
}
use os.Wm.Order.{All, All-map, Distinct, IsSorted, render-All, render-Permᴰ, render-IsSorted}

-- The addresses and the places of the windows differ, and the counter is above the places.
pub record IsValid (wm : Wm) : Type 0 where
  pub addresses : Distinct (λ w. w.address) wm.windows
  pub places : Distinct (λ w. w.z_order) wm.windows
  pub below : All (λ w. w.z_order < wm.z_counter) wm.windows

-- The window that was drawn last.
abbrev pub front : List Window → Option Window
front [] = none
front (w ∷ []) = some w
front (w ∷ v ∷ ws) = front (v ∷ ws)

abbrev pub in_front : ℕ → Window → Window
in_front z w = record w { focused = true; z_order = z }

-- Either the window in front, or one behind it without the focus.
abbrev Ranked : Window → Window → Type 0
Ranked top v = (v ≡ top) ⊎ ((v.focused ≡ false) × (v.z_order < top.z_order))

All-mem : (P : Window → Type 0) (v : Window) (ws : List Window) → All P ws → Memᴰ v ws → P v
All-mem P v [] k m = elim m [ ]
All-mem P v (w ∷ ws) k (Memᴰ.head e) = subst P (sym e) k.0
All-mem P v (w ∷ ws) k (Memᴰ.tail m) = All-mem P v ws k.1 m

Permᴰ-mem : {v : Window} {l r : List Window} → Permᴰ l r → Memᴰ v l → Memᴰ v r
Permᴰ-mem Permᴰ.nil m = m
Permᴰ-mem (Permᴰ.cons e p) (Memᴰ.head f) = Memᴰ.head (f ∙ e)
Permᴰ-mem (Permᴰ.cons e p) (Memᴰ.tail m) = Memᴰ.tail (Permᴰ-mem p m)
Permᴰ-mem (Permᴰ.swap e f) (Memᴰ.head g) = Memᴰ.tail (Memᴰ.head (g ∙ e))
Permᴰ-mem (Permᴰ.swap e f) (Memᴰ.tail (Memᴰ.head g)) = Memᴰ.head (g ∙ f)
Permᴰ-mem (Permᴰ.swap e f) (Memᴰ.tail (Memᴰ.tail m)) = Memᴰ.tail (Memᴰ.tail m)
Permᴰ-mem (Permᴰ.trans p q) m = Permᴰ-mem q (Permᴰ-mem p m)

-- The windows that are not at `a` lose the focus and keep their places.
focus_all-Ranked :
    (a z : ℕ) (top : Window) (ws : List Window)
    → top.z_order ≡ z
    → All (λ w. w.z_order < z) ws
    → All (λ w. w.address ≢ a) ws
    → All (Ranked top) (focus_all a z ws)
unfolding focus_all
focus_all-Ranked a z top [] e k n = tt
focus_all-Ranked a z top (w ∷ ws) e k n =
    let other : (w.address == a) ≡ false = ground (arith, n.0) in
    rw (other) (inr (refl, omega (arith, k.0)), focus_all-Ranked a z top ws e k.1 n.1)

-- The window at `a` comes to the front.
focus_all-found :
    (a z : ℕ) (w : Window) (ws : List Window)
    → Distinct (λ v. v.address) ws
    → All (λ v. v.z_order < z) ws
    → first_match (is_at a) ws ≡ some w
    → All (Ranked (in_front z w)) (focus_all a z ws) × Memᴰ (in_front z w) (focus_all a z ws)
unfolding focus_all first_match
focus_all-found a z w [] d k e = absurd (cc e)
focus_all-found a z w (v ∷ ws) d k e = elim (Bool-cases (v.address == a)) [
  | inl here ↦
      let same : v ≡ w = some-injective v w (simp (first_match, here) at e) in
      let found : in_front z v ≡ in_front z w = ap (in_front z) same in
      let at : v.address ≡ a = ground (arith, here) in
      rw (focus_all, here)
        (
          (
            inl found,
            focus_all-Ranked a z (in_front z w) ws refl k.1 (
                All-map (λ u. u.address ≢ v.address) (λ u. u.address ≢ a) ws
                  (λ u n q. n (q ∙ sym at)) d.0),
          ),
          Memᴰ.head (sym found),
        )
  | inr other ↦
      let rest : first_match (is_at a) ws ≡ some w = rw (first_match, other) at e in
      let (ranked, found) = focus_all-found a z w ws d.1 k.1 rest in
      rw (focus_all, other) ((inr (refl, omega (arith, k.0)), ranked), Memᴰ.tail found)
]

-- The last of a sorted list is the one in front.
front-top :
    (top : Window) (ws : List Window)
    → IsSorted ws
    → All (Ranked top) ws
    → Memᴰ top ws
    → front ws ≡ some top
front-top top [] s r m = elim m [ ]
front-top top (w ∷ []) s r (Memᴰ.head e) = ap some (sym e)
front-top top (w ∷ []) s r (Memᴰ.tail m) = elim m [ ]
front-top top (w ∷ v ∷ ws) s r (Memᴰ.head e) = elim r.1.0 [
  | inl q ↦ front-top top (v ∷ ws) s.1 r.1 (Memᴰ.head (sym q))
  | inr lower ↦ absurd (omega (arith, lower.1, s.0.0, ap (λ (u : Window). u.z_order) e))
]
front-top top (w ∷ v ∷ ws) s r (Memᴰ.tail m) = front-top top (v ∷ ws) s.1 r.1 m

focused-top :
    (top : Window) (ws : List Window)
    → top.focused ≡ true
    → All (Ranked top) ws
    → Memᴰ top ws
    → first_match (λ w. w.focused) ws ≡ some top
unfolding first_match
focused-top top [] t r m = elim m [ ]
focused-top top (w ∷ ws) t r m = elim r.0 [
  | inl q ↦
      let on : w.focused ≡ true = ap (λ (u : Window). u.focused) q ∙ t in
      subst (λ b. (if b then some w else first_match (λ v. v.focused) ws) ≡ some top) (sym on)
        (ap some q)
  | inr lower ↦ elim m [
    | Memᴰ.head e ↦ absurd (cc (ap (λ (u : Window). u.focused) e, t, lower.0))
    | Memᴰ.tail n ↦
        subst (λ b. (if b then some w else first_match (λ v. v.focused) ws) ≡ some top)
          (sym lower.0) (focused-top top ws t r.1 n)
  ]
]

-- In a list of windows at different places, `wm_focus_window` of the window at `a` and `wm_render` bring
-- that window to the front, which is the end of the list, and it is the one with the focus.
pub render-focus_window :
    (a : ℕ) (w : Window) (wm : Wm)
    → IsValid wm
    → first_match (is_at a) wm.windows ≡ some w
    → let wm' = render (focus_window a wm) in
      let top = in_front wm.z_counter w in
      (front wm'.windows ≡ some top) × (get_focused wm' ≡ some top)
unfolding focus_window get_focused
render-focus_window a w wm valid e =
    let top = in_front wm.z_counter w in
    let (ranked, found) =
      focus_all-found a wm.z_counter w wm.windows valid.addresses valid.below e in
    let wm1 = focus_window a wm in
    let ranked' = render-All (Ranked top) wm1 ranked in
    let found' = Permᴰ-mem (render-Permᴰ wm1) found in
    (
      front-top top (render wm1).windows (render-IsSorted wm1).1 ranked' found',
      focused-top top (render wm1).windows refl ranked' found',
    )

-- A window that is found by its rectangle is found by its address.
first_match-at :
    (test : Window → Bool) (w : Window) (ws : List Window)
    → Distinct (λ v. v.address) ws
    → first_match test ws ≡ some w
    → (All (λ v. v.address ≢ w.address) ws → ⊥) × (first_match (is_at w.address) ws ≡ some w)
unfolding first_match
first_match-at test w [] d e = absurd (cc e)
first_match-at test w (v ∷ ws) d e = elim (Bool-cases (test v)) [
  | inl here ↦
      let same : v ≡ w = some-injective v w (simp (first_match, here) at e) in
      let at : v.address ≡ w.address = ap (λ (u : Window). u.address) same in
      let self : (v.address == w.address) ≡ true = ground (arith, at) in
      ((λ k. k.0 at), rw (first_match, self) (ap some same))
  | inr other ↦
      let rest : first_match test ws ≡ some w = rw (first_match, other) at e in
      let (listed, found) = first_match-at test w ws d.1 rest in
      elim (Bool-cases (v.address == w.address)) [
        | inl same ↦
            let at : v.address ≡ w.address = ground (arith, same) in
            absurd (
              listed (
                All-map (λ u. u.address ≢ v.address) (λ u. u.address ≢ w.address) ws
                  (λ u n q. n (q ∙ sym at)) d.0))
        | inr apart ↦ ((λ k. listed k.1), rw (first_match, apart) found)
      ]
]

-- A left press in the main loop on a point where `wm_get_window_at` finds a window, in a list of
-- windows at different addresses and places: that window is then at the end of the list, which is
-- drawn last, and has the focus.
pub handle_event-Focused :
    (x y : ℤ) (w : Window) (wm : Wm) (d : Drag)
    → IsValid wm
    → get_window_at x y wm ≡ some w
    → let top = in_front wm.z_counter w in
      (wm' : Wm) × (d' : Drag) × (handle_event (mouse_down x y 1) wm d ≡ some (wm', d'))
      × (front wm'.windows ≡ some top)
      × (get_focused wm' ≡ some top)
unfolding handle_event get_window_at clicked_on
handle_event-Focused x y w wm d valid e =
    let at = (first_match-at (contains x y) w wm.windows valid.addresses e).1 in
    let r = render-focus_window w.address w wm valid at in
    (
      render (focus_window w.address wm),
      (clicked_on x y (some w) wm d).1,
      rw (handle_event, e) refl,
      r.0,
      r.1,
    )
