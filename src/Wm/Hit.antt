-- ===== src/Wm/Hit.antt =====
-- `wm_get_window_at` of kernel/wm.c on the list that `wm_render` leaves, and a drag of a window that
-- has been destroyed.
use mathlib.Core.List.{Permᴰ}
use mathlib.Core.List.Permᴰ
use mathlib.Core.Option.{some-injective}
use os.Base.{
  ℕ, ◌≤◌, ◌≡◌, ◌≢◌, refl, sym, ap, ◌∙◌, subst, Bool, true, false, none, some, List, [], ◌∷◌, ◌==◌,
  arith, Bool-cases, inl, inr, ℤ, Option-cases, ==_ne,
}
use os.Wm.{
  Window, Wm, Drag, mouse_move, first_match, is_at, get_window_at, contains, render, unlink,
  destroy_window, drag_to, drag_of, drag_if_held, drag_found, handle_event,
}
use os.Wm.Order.{All, All-map, Distinct, IsSorted, render-Permᴰ, render-IsSorted}
use os.Wm.Focus.{IsValid}

All-perm : (P : Window → Type 0) {l r : List Window} → Permᴰ l r → All P l → All P r
All-perm P Permᴰ.nil k = k
All-perm P (Permᴰ.cons e p) k = (subst P e k.0, All-perm P p k.1)
All-perm P (Permᴰ.swap e f) k = (subst P f k.1.0, (subst P e k.0, k.1.1))
All-perm P (Permᴰ.trans p q) k = All-perm P q (All-perm P p k)

first_match-lowest :
    (test : Window → Bool) (w : Window) (ws : List Window)
    → IsSorted ws
    → first_match test ws ≡ some w
    → All (λ v. test v ≡ true → w.z_order ≤ v.z_order) ws
unfolding first_match
first_match-lowest test w [] s e = tt
first_match-lowest test w (v ∷ ws) s e = elim (Bool-cases (test v)) [
  | inl here ↦
      let same : v ≡ w = some-injective v w (simp (first_match, here) at e) in
      let at : v.z_order ≡ w.z_order = ap (λ (u : Window). u.z_order) same in
      (
        (λ t. omega (arith, at)),
        All-map (λ u. v.z_order ≤ u.z_order) (λ u. test u ≡ true → w.z_order ≤ u.z_order) ws
            (λ u le t. omega (arith, le, at)) s.0,
      )
  | inr other ↦
      let rest : first_match test ws ≡ some w = rw (first_match, other) at e in
      ((λ t. absurd (cc (t, other))), first_match-lowest test w ws s.1 rest)
]

-- After `wm_render`, the window that `wm_get_window_at` finds at a point is the rearmost of the windows
-- that contain the point.
get_window_at-rearmost :
    (x y : ℤ) (w : Window) (wm : Wm)
    → get_window_at x y (render wm) ≡ some w
    → All (λ v. contains x y v ≡ true → w.z_order ≤ v.z_order) wm.windows
unfolding get_window_at
get_window_at-rearmost x y w wm e =
    All-perm (λ v. contains x y v ≡ true → w.z_order ≤ v.z_order) (Permᴰ.symm (render-Permᴰ wm))
      (first_match-lowest (contains x y) w (render wm).windows (render-IsSorted wm).1 e)

none_at : (a : ℕ) (ws : List Window) → All (λ v. v.address ≢ a) ws → first_match (is_at a) ws ≡ none
unfolding first_match
none_at a [] k = refl
none_at a (v ∷ ws) k =
    let other : (v.address == a) ≡ false = ==_ne v.address a k.0 in
    rw (first_match, other) (none_at a ws k.1)

unlinked :
    (a : ℕ) (ws : List Window)
    → Distinct (λ v. v.address) ws
    → first_match (is_at a) (unlink a ws) ≡ none
unfolding first_match unlink
unlinked a [] d = refl
unlinked a (v ∷ ws) d = elim (Bool-cases (v.address == a)) [
  | inl here ↦
      let at : v.address ≡ a = ground (arith, here) in
      rw (unlink, here)
        (none_at a ws (
          All-map (λ u. u.address ≢ v.address) (λ u. u.address ≢ a) ws (λ u n q. n (q ∙ sym at))
            d.0))
  | inr other ↦ rw (unlink, other) (rw (first_match, other) (unlinked a ws d.1))
]

pub destroy_window-windows :
    (a : ℕ) (wm wm' : Wm) (freed : List ℕ)
    → destroy_window a wm ≡ some (wm', freed)
    → record wm { windows = unlink a wm.windows } ≡ wm'
unfolding destroy_window
destroy_window-windows a wm wm' freed e = elim (Option-cases (first_match (is_at a) wm.windows)) [
  | inl gone ↦ absurd (cc (simp (destroy_window, gone) at e))
  | inr (w, found) ↦
      ap (λ (r : Wm × List ℕ). r.0) (some-injective _ _ (simp (destroy_window, found) at e))
]

-- Where the window that is being dragged is destroyed, in a list of windows at different addresses,
-- the next movement of the mouse follows the pointer to it, which is now free memory: the step of the
-- main loop has no result.
handle_event-dangling :
    (a : ℕ) (x y : ℤ) (wm wm' : Wm) (freed : List ℕ) (d : Drag)
    → IsValid wm
    → d.held ≡ true
    → d.window ≡ some a
    → destroy_window a wm ≡ some (wm', freed)
    → handle_event (mouse_move x y) wm' d ≡ none
unfolding handle_event drag_if_held drag_of drag_to drag_found
handle_event-dangling a x y wm wm' freed d valid held grabbed e =
    let gone = unlinked a wm.windows valid.addresses in
    subst (λ m. handle_event (mouse_move x y) m d ≡ none) (destroy_window-windows a wm wm' freed e)
      (simp (handle_event, drag_if_held, held, grabbed, drag_to, gone))
