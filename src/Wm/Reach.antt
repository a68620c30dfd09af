-- ===== src/Wm/Reach.antt =====
-- The states that the calls of kernel/wm.c lead to.
use os.Base.{
  ℕ, ◌<◌, ◌≡◌, ◌≢◌, refl, subst, Bool, true, false, ◌&&◌, Option, none, some, List, ◌==◌,
  Bool-cases, inl, inr, ℤ, sub_ℤ, Option-cases,
}
use os.Wm.{
  Window, Wm, Drag, Event, mouse_move, mouse_down, mouse_up, key_down, other_event, first_match,
  is_at, get_window_at, render, destroy_window, drag_to, drag_of, drag_if_held, drag_found,
  handle_event, process_mouse, create_window, focus_window, move_to, init, pressed_on, clicked_on,
  release,
}
use os.Wm.Order.{All}
use os.Wm.Focus.{IsValid}
use os.Wm.Keep.{
  render-IsValid, focus_window-IsValid, create_window-IsValid, unlink-All, unlink-Distinct,
  move_to-All, move_to-Distinct,
}
use os.Wm.Hit.{destroy_window-windows}

-- What a step may end in.
abbrev Ends : Option (Wm × Drag) → Type 0
Ends none = Unit {0}
Ends (some (wm, d)) = IsValid wm

drag_of-Ends :
    (x y : ℤ) (wm : Wm) (d : Drag) (o : Option ℕ) → IsValid wm → Ends (drag_of x y wm d o)
unfolding drag_of drag_to drag_found
drag_of-Ends x y wm d none v = v
drag_of-Ends x y wm d (some a) v = elim (Option-cases (first_match (is_at a) wm.windows)) [
  | inl gone ↦ rw (gone) tt
  | inr (w, found) ↦
      let x' = sub_ℤ x d.offset_x in
      let y' = sub_ℤ y d.offset_y in
      rw (found) (
        render-IsValid (record wm { windows = move_to a x' y' wm.windows })
          (record {
            addresses =
                move_to-Distinct (λ w. w.address) a x' y' wm.windows (λ w. refl) v.addresses;
            places = move_to-Distinct (λ w. w.z_order) a x' y' wm.windows (λ w. refl) v.places;
            below =
                move_to-All (λ w. w.z_order < wm.z_counter) a x' y' wm.windows (λ w h. h) v.below;
          }))
]

drag_if_held-Ends :
    (x y : ℤ) (left : Bool) (wm : Wm) (d : Drag) → IsValid wm → Ends (drag_if_held x y left (wm, d))
unfolding drag_if_held
drag_if_held-Ends x y left wm d v = elim (Bool-cases (d.held && left)) [
  | inl e ↦ rw (drag_if_held, e) (drag_of-Ends x y wm d d.window v)
  | inr e ↦ rw (drag_if_held, e) v
]

pressed-IsValid : (w : Window) (wm : Wm) → IsValid wm → IsValid (render (focus_window w.address wm))
pressed-IsValid w wm v =
    render-IsValid (focus_window w.address wm) (focus_window-IsValid w.address wm v)

handle_event-Ends : (e : Event) (wm : Wm) (d : Drag) → IsValid wm → Ends (handle_event e wm d)
unfolding handle_event clicked_on
handle_event-Ends (mouse_move x y) wm d v = drag_if_held-Ends x y true wm d v
handle_event-Ends (mouse_down x y button) wm d v = elim (Bool-cases (button == 1)) [
  | inl left ↦ elim (Option-cases (get_window_at x y wm)) [
    | inl missed ↦ rw (handle_event, left, missed) v
    | inr (w, hit) ↦ rw (handle_event, left, hit) (pressed-IsValid w wm v)
  ]
  | inr other ↦ rw (handle_event, other) v
]
handle_event-Ends (mouse_up button) wm d v = elim (Bool-cases (button == 1)) [
  | inl left ↦ rw (handle_event, left) v
  | inr other ↦ rw (handle_event, other) v
]
handle_event-Ends (key_down code) wm d v = v
handle_event-Ends other_event wm d v = v

pressed_on-Ends :
    (x y : ℤ) (left : Bool) (o : Option Window) (wm : Wm) (d : Drag)
    → IsValid wm
    → Ends (drag_if_held x y left (pressed_on x y o wm d))
unfolding pressed_on
pressed_on-Ends x y left none wm d v = drag_if_held-Ends x y left wm d v
pressed_on-Ends x y left (some w) wm d v =
    drag_if_held-Ends x y left (render (focus_window w.address wm)) (pressed_on x y (some w) wm d).1
      (pressed-IsValid w wm v)

process_mouse-Ends :
    (x y : ℤ) (button : ℕ) (pressed : Bool) (wm : Wm) (d : Drag)
    → IsValid wm
    → Ends (process_mouse x y button pressed wm d)
unfolding process_mouse
process_mouse-Ends x y button true wm d v = elim (Bool-cases (button == 1)) [
  | inl left ↦ rw (process_mouse, left) (pressed_on-Ends x y true (get_window_at x y wm) wm d v)
  | inr other ↦ rw (process_mouse, other) (drag_if_held-Ends x y false wm d v)
]
process_mouse-Ends x y button false wm d v = elim (Bool-cases (button == 1)) [
  | inl left ↦ rw (process_mouse, left) (drag_if_held-Ends x y true wm (release d) v)
  | inr other ↦ rw (process_mouse, other) (drag_if_held-Ends x y false wm d v)
]

-- The states that calls lead to from `wm_init`, where nothing is dragged: the windows, the static
-- variables of `wm_main_loop`, and those of `wm_process_mouse`. `kmalloc` does not return the address
-- of a window that is in the list.
pub data Reachable : Wm → Drag → Drag → Type 0 where
  start :
      (x y x' y' : ℤ)
      → Reachable init
          (record { held = false; offset_x = x; offset_y = y; window = none })
          (record { held = false; offset_x = x'; offset_y = y'; window = none })
  created :
      (title : List ℕ) (x y w h : ℤ) (address buffer : ℕ) (wm : Wm) (d g : Drag)
      → Reachable wm d g
      → All (λ v. v.address ≢ address) wm.windows
      → Reachable (create_window title x y w h address buffer wm).0 d g
  destroyed :
      (a : ℕ) (wm wm' : Wm) (freed : List ℕ) (d g : Drag)
      → Reachable wm d g
      → destroy_window a wm ≡ some (wm', freed)
      → Reachable wm' d g
  focus_moved :
      (a : ℕ) (wm : Wm) (d g : Drag) → Reachable wm d g → Reachable (focus_window a wm) d g
  handled :
      (e : Event) (wm wm' : Wm) (d d' g : Drag)
      → Reachable wm d g
      → handle_event e wm d ≡ some (wm', d')
      → Reachable wm' d' g
  processed :
      (x y : ℤ) (button : ℕ) (pressed : Bool) (wm wm' : Wm) (d g g' : Drag)
      → Reachable wm d g
      → process_mouse x y button pressed wm g ≡ some (wm', g')
      → Reachable wm' d g'

-- In every state that is reached from `wm_init` by creating, destroying and focusing windows, by the
-- events of `wm_main_loop` and by `wm_process_mouse`, in any order and each with its own variables
-- for the window that is dragged, the windows are at different addresses, no two have the same place
-- in the stack, and the counter is above all places.
pub Reachable-IsValid : (wm : Wm) (d g : Drag) → Reachable wm d g → IsValid wm
Reachable-IsValid wm d g (start x y x' y') = record { addresses = tt; places = tt; below = tt }
Reachable-IsValid wm d g (created title x y w h address buffer wm0 d0 g0 r n) =
    create_window-IsValid title x y w h address buffer wm0 (Reachable-IsValid wm0 d0 g0 r) n
Reachable-IsValid wm d g (destroyed a wm0 wm1 freed d0 g0 r e) =
    let v = Reachable-IsValid wm0 d0 g0 r in
    subst IsValid (destroy_window-windows a wm0 wm1 freed e) (record {
      addresses = unlink-Distinct (λ w. w.address) a wm0.windows v.addresses;
      places = unlink-Distinct (λ w. w.z_order) a wm0.windows v.places;
      below = unlink-All (λ w. w.z_order < wm0.z_counter) a wm0.windows v.below;
    })
Reachable-IsValid wm d g (focus_moved a wm0 d0 g0 r) =
    focus_window-IsValid a wm0 (Reachable-IsValid wm0 d0 g0 r)
Reachable-IsValid wm d g (handled e wm0 wm1 d0 d1 g0 r eq) =
    subst Ends eq (handle_event-Ends e wm0 d0 (Reachable-IsValid wm0 d0 g0 r))
Reachable-IsValid wm d g (processed x y button pressed wm0 wm1 d0 g0 g1 r eq) =
    subst Ends eq (process_mouse-Ends x y button pressed wm0 g0 (Reachable-IsValid wm0 d0 g0 r))
