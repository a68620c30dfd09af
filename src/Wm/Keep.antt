-- ===== src/Wm/Keep.antt =====
-- What the operations of kernel/wm.c on the list of windows keep: the addresses and places differ.
use os.Base.{
  ℕ, suc, ◌<◌, ◌≡◌, ◌≢◌, sym, ◌∙◌, true, false, ◌||◌, List, [], ◌∷◌, ◌==◌, arith, Bool-cases, inl,
  inr, ℤ, ==_ne,
}
use os.Wm.{
  Window, Wm, render, unlink, create_window, focus_all, focus_window, move_to, fresh_window,
  not_positive,
}
use os.Wm.Order.{All, All-map, Distinct, render-All, render-Distinct}
use os.Wm.Focus.{IsValid}

pub render-IsValid : (wm : Wm) → IsValid wm → IsValid (render wm)
unfolding render
render-IsValid wm v = record {
  addresses = render-Distinct (λ w. w.address) wm v.addresses;
  places = render-Distinct (λ w. w.z_order) wm v.places;
  below = render-All (λ w. w.z_order < wm.z_counter) wm v.below;
}

focus_all-All :
    (P : Window → Type 0) (a z : ℕ) (ws : List Window)
    → ((w : Window) → P w → P (record w { focused = true; z_order = z }))
    → ((w : Window) → P w → P (record w { focused = false }))
    → All P ws
    → All P (focus_all a z ws)
unfolding focus_all
focus_all-All P a z [] on off k = tt
focus_all-All P a z (w ∷ ws) on off k = elim (Bool-cases (w.address == a)) [
  | inl here ↦ rw (focus_all, here) (on w k.0, focus_all-All P a z ws on off k.1)
  | inr other ↦ rw (focus_all, other) (off w k.0, focus_all-All P a z ws on off k.1)
]

focus_all-addresses :
    (a z : ℕ) (ws : List Window)
    → Distinct (λ w. w.address) ws
    → Distinct (λ w. w.address) (focus_all a z ws)
unfolding focus_all
focus_all-addresses a z [] d = tt
focus_all-addresses a z (w ∷ ws) d = elim (Bool-cases (w.address == a)) [
  | inl here ↦
      rw (focus_all, here)
        (
          focus_all-All (λ v. v.address ≢ w.address) a z ws (λ v n. n) (λ v n. n) d.0,
          focus_all-addresses a z ws d.1,
        )
  | inr other ↦
      rw (focus_all, other)
        (
          focus_all-All (λ v. v.address ≢ w.address) a z ws (λ v n. n) (λ v n. n) d.0,
          focus_all-addresses a z ws d.1,
        )
]

-- Windows that are not at `a` keep their places.
focus_all-kept :
    (P : Window → Type 0) (a z : ℕ) (ws : List Window)
    → ((w : Window) → P w → P (record w { focused = false }))
    → All (λ w. w.address ≢ a) ws
    → All P ws
    → All P (focus_all a z ws)
unfolding focus_all
focus_all-kept P a z [] off n k = tt
focus_all-kept P a z (w ∷ ws) off n k =
    let other : (w.address == a) ≡ false = ==_ne w.address a n.0 in
    rw (focus_all, other) (off w k.0, focus_all-kept P a z ws off n.1 k.1)

focus_all-places :
    (a z : ℕ) (ws : List Window)
    → Distinct (λ w. w.address) ws
    → All (λ w. w.z_order < z) ws
    → Distinct (λ w. w.z_order) ws
    → Distinct (λ w. w.z_order) (focus_all a z ws)
unfolding focus_all
focus_all-places a z [] d k p = tt
focus_all-places a z (w ∷ ws) d k p = elim (Bool-cases (w.address == a)) [
  | inl here ↦
      let at : w.address ≡ a = ground (arith, here) in
      rw (focus_all, here)
        (
          focus_all-kept (λ v. v.z_order ≢ z) a z ws (λ v n. n)
              (All-map (λ u. u.address ≢ w.address) (λ u. u.address ≢ a) ws
                (λ u n q. n (q ∙ sym at)) d.0)
              (All-map (λ u. u.z_order < z) (λ u. u.z_order ≢ z) ws (λ u lt q. omega (arith, lt, q))
                k.1),
          focus_all-places a z ws d.1 k.1 p.1,
        )
  | inr other ↦
      rw (focus_all, other)
        (
          focus_all-All (λ v. v.z_order ≢ w.z_order) a z ws (λ v n q. omega (arith, k.0, q))
              (λ v n. n) p.0,
          focus_all-places a z ws d.1 k.1 p.1,
        )
]

pub focus_window-IsValid : (a : ℕ) (wm : Wm) → IsValid wm → IsValid (focus_window a wm)
unfolding focus_window
focus_window-IsValid a wm v = record {
  addresses = focus_all-addresses a wm.z_counter wm.windows v.addresses;
  places = focus_all-places a wm.z_counter wm.windows v.addresses v.below v.places;
  below =
      focus_all-All (λ w. w.z_order < suc wm.z_counter) a wm.z_counter wm.windows
        (λ w h. omega arith) (λ w h. h)
        (All-map (λ w. w.z_order < wm.z_counter) (λ w. w.z_order < suc wm.z_counter) wm.windows
          (λ w h. omega (arith, h)) v.below);
}

pub create_window-IsValid :
    (title : List ℕ) (x y w h : ℤ) (address buffer : ℕ) (wm : Wm)
    → IsValid wm
    → All (λ v. v.address ≢ address) wm.windows
    → IsValid (create_window title x y w h address buffer wm).0
unfolding create_window
create_window-IsValid title x y w h address buffer wm v n =
    let later =
      All-map (λ w. w.z_order < wm.z_counter) (λ w. w.z_order < suc wm.z_counter) wm.windows
        (λ w h. omega (arith, h)) v.below in
    elim (Bool-cases (not_positive w || not_positive h)) [
      | inl e ↦ rw (create_window, e) v
      | inr e ↦ elim (Bool-cases (address == 0)) [
        | inl f ↦ rw (create_window, e, f) v
        | inr f ↦ elim (Bool-cases (buffer == 0)) [
          | inl g ↦
              rw (create_window, e, f, g)
                (record { addresses = v.addresses; places = v.places; below = later })
          | inr g ↦
              rw (create_window, e, f, g)
                (focus_window-IsValid address
                  (record {
                    windows = fresh_window title x y w h wm.z_counter address buffer ∷ wm.windows;
                    z_counter = suc wm.z_counter;
                  })
                  (record {
                    addresses = (n, v.addresses);
                    places = (
                      All-map (λ u. u.z_order < wm.z_counter) (λ u. u.z_order ≢ wm.z_counter)
                          wm.windows (λ u lt q. omega (arith, lt, q)) v.below,
                      v.places,
                    );
                    below = (omega arith, later);
                  }))
        ]
      ]
    ]

pub unlink-All : (P : Window → Type 0) (a : ℕ) (ws : List Window) → All P ws → All P (unlink a ws)
unfolding unlink
unlink-All P a [] k = tt
unlink-All P a (w ∷ ws) k = elim (Bool-cases (w.address == a)) [
  | inl here ↦ rw (unlink, here) k.1
  | inr other ↦ rw (unlink, other) (k.0, unlink-All P a ws k.1)
]

pub unlink-Distinct :
    (f : Window → ℕ) (a : ℕ) (ws : List Window) → Distinct f ws → Distinct f (unlink a ws)
unfolding unlink
unlink-Distinct f a [] d = tt
unlink-Distinct f a (w ∷ ws) d = elim (Bool-cases (w.address == a)) [
  | inl here ↦ rw (unlink, here) d.1
  | inr other ↦
      rw (unlink, other) (unlink-All (λ v. f v ≢ f w) a ws d.0, unlink-Distinct f a ws d.1)
]

pub move_to-All :
    (P : Window → Type 0) (a : ℕ) (x y : ℤ) (ws : List Window)
    → ((w : Window) → P w → P (record w { x = x; y = y }))
    → All P ws
    → All P (move_to a x y ws)
unfolding move_to
move_to-All P a x y [] moved k = tt
move_to-All P a x y (w ∷ ws) moved k = elim (Bool-cases (w.address == a)) [
  | inl here ↦ rw (move_to, here) (moved w k.0, move_to-All P a x y ws moved k.1)
  | inr other ↦ rw (move_to, other) (k.0, move_to-All P a x y ws moved k.1)
]

-- Moving a window changes neither `f` of it nor of another.
pub move_to-Distinct :
    (f : Window → ℕ) (a : ℕ) (x y : ℤ) (ws : List Window)
    → ((w : Window) → f (record w { x = x; y = y }) ≡ f w)
    → Distinct f ws
    → Distinct f (move_to a x y ws)
unfolding move_to
move_to-Distinct f a x y [] same d = tt
move_to-Distinct f a x y (w ∷ ws) same d =
    let rest = move_to-All (λ v. f v ≢ f w) a x y ws (λ v n q. n (sym (same v) ∙ q)) d.0 in
    elim (Bool-cases (w.address == a)) [
      | inl here ↦ rw (move_to, here, same w) (rest, move_to-Distinct f a x y ws same d.1)
      | inr other ↦ rw (move_to, other) (rest, move_to-Distinct f a x y ws same d.1)
    ]
