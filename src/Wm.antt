-- ===== src/Wm.antt =====
-- kernel/wm.c: the list of windows, their stacking order, the focus and the mouse. A pointer to a
-- window is its address; a call that would follow a pointer to a window that is gone has the result
-- none. What the windows show is left out.
pub mod Order
pub mod Focus
pub mod Hit
pub mod Keep
pub mod Reach
mod Tests
use os.Base.{
  ℕ, suc, Bool, true, false, not, ◌&&◌, ◌||◌, Option, none, some, List, [], ◌∷◌, ◌==◌, ltb, leb,
  if◌then◌else◌, ℤ, pos, add_ℤ, sub_ℤ, leb_ℤ, ltb_ℤ, take,
}

abbrev pub titlebar_height : ℤ
titlebar_height = pos 28

-- `window_t`: `on_event` says whether a callback is set.
pub record Window : Type 0 where
  pub address : ℕ
  pub x : ℤ
  pub y : ℤ
  pub width : ℤ
  pub height : ℤ
  pub z_order : ℕ
  pub visible : Bool
  pub focused : Bool
  pub title : List ℕ
  pub buffer : ℕ
  pub on_event : Bool

-- `wm_windows` in the order of the links, and `wm_z_counter`.
pub record Wm : Type 0 where
  pub windows : List Window
  pub z_counter : ℕ

abbrev pub init : Wm
init = record { windows = []; z_counter = 0 }

-- The loops that return the first window of some kind.
pub first_match : (Window → Bool) → List Window → Option Window
first_match test [] = none
first_match test (w ∷ ws) = let rest = first_match test ws in if test w then some w else rest

-- The window that a pointer points to.
abbrev pub is_at : ℕ → Window → Bool
is_at a w = w.address == a

pub get_focused : Wm → Option Window
unfolding first_match
get_focused wm = first_match (λ w. w.focused) wm.windows

-- w is visible and x, y is in its rectangle
abbrev pub contains : ℤ → ℤ → Window → Bool
contains x y w =
    w.visible
    && leb_ℤ w.x x
    && ltb_ℤ x (add_ℤ w.x w.width)
    && leb_ℤ w.y y
    && ltb_ℤ y (add_ℤ w.y w.height)

pub get_window_at : ℤ → ℤ → Wm → Option Window
unfolding first_match
get_window_at x y wm = first_match (contains x y) wm.windows

-- The window at `a` gets the focus and the place `z`, the others lose the focus.
pub focus_all : ℕ → ℕ → List Window → List Window
focus_all a z [] = []
focus_all a z (w ∷ ws) =
    (if w.address == a
      then record w { focused = true; z_order = z }
      else record w { focused = false })
    ∷ focus_all a z ws

pub focus_window : ℕ → Wm → Wm
unfolding focus_all
focus_window a wm = record {
  windows = focus_all a wm.z_counter wm.windows;
  z_counter = suc wm.z_counter;
}

-- w <= 0
abbrev pub not_positive : ℤ → Bool
not_positive n = leb_ℤ n (pos 0)

-- The window that `wm_create_window` fills in.
abbrev pub fresh_window : List ℕ → ℤ → ℤ → ℤ → ℤ → ℕ → ℕ → ℕ → Window
fresh_window title x y w h z address buffer = record {
  address = address;
  x = x;
  y = y;
  width = w;
  height = h;
  z_order = z;
  visible = true;
  focused = false;
  title = take 127 title;
  buffer = buffer;
  on_event = false;
}

-- `wm_create_window`, with the addresses that the two calls of `kmalloc` return, 0 for NULL: the
-- state, the window and what is passed to `kfree`.
pub create_window : List ℕ → ℤ → ℤ → ℤ → ℤ → ℕ → ℕ → Wm → Wm × Option ℕ × List ℕ
unfolding focus_window
create_window title x y w h address buffer wm =
    let bumped = record wm { z_counter = suc wm.z_counter } in
    let added = record bumped {
      windows = fresh_window title x y w h wm.z_counter address buffer ∷ wm.windows;
    } in
    if not_positive w || not_positive h
    then (wm, none, [])
    else if address == 0
    then (wm, none, [])
    else if buffer == 0
    then (bumped, none, address ∷ [])
    else (focus_window address added, some address, [])

-- The list without the first window at `a`.
pub unlink : ℕ → List Window → List Window
unlink a [] = []
unlink a (w ∷ ws) = let rest = unlink a ws in if w.address == a then ws else w ∷ rest

abbrev pub freed_by : Window → List ℕ
freed_by w = if w.buffer == 0 then w.address ∷ [] else w.buffer ∷ w.address ∷ []

abbrev pub destroy_found : ℕ → Wm → Option Window → Option (Wm × List ℕ)
destroy_found a wm none = none
destroy_found a wm (some w) = some (record wm { windows = unlink a wm.windows }, freed_by w)

pub destroy_window : ℕ → Wm → Option (Wm × List ℕ)
unfolding unlink first_match
destroy_window a wm = destroy_found a wm (first_match (is_at a) wm.windows)

-- The insertion into the sorted list behind its first window.
pub insert_behind : Window → List Window → List Window
insert_behind w [] = w ∷ []
insert_behind w (s ∷ ss) =
    let rest = insert_behind w ss in if leb s.z_order w.z_order then s ∷ rest else w ∷ s ∷ ss

pub insert_sorted : Window → List Window → List Window
unfolding insert_behind
insert_sorted w [] = w ∷ []
insert_sorted w (s ∷ ss) = if ltb w.z_order s.z_order then w ∷ s ∷ ss else s ∷ insert_behind w ss

pub sort_windows : List Window → List Window → List Window
unfolding insert_sorted
sort_windows sorted [] = sorted
sort_windows sorted (w ∷ ws) = sort_windows (insert_sorted w sorted) ws

pub render : Wm → Wm
unfolding sort_windows
render wm = record wm { windows = sort_windows [] wm.windows }

-- The windows that `wm_render` draws, in the order in which it draws them.
pub drawn : List Window → List ℕ
drawn [] = []
drawn (w ∷ ws) = if w.visible then w.address ∷ drawn ws else drawn ws

-- The window at `a` is moved.
pub move_to : ℕ → ℤ → ℤ → List Window → List Window
move_to a x y [] = []
move_to a x y (w ∷ ws) =
    (if w.address == a then record w { x = x; y = y } else w) ∷ move_to a x y ws

-- The static variables behind dragging; `held` is `dragging` or `mouse_left_down`.
pub record Drag : Type 0 where
  pub held : Bool
  pub offset_x : ℤ
  pub offset_y : ℤ
  pub window : Option ℕ

abbrev pub drag_found : ℕ → ℤ → ℤ → Wm → Option Window → Option Wm
unfolding render move_to
drag_found a x y wm none = none
drag_found a x y wm (some w) = some (render (record wm { windows = move_to a x y wm.windows }))

-- drag_window->x = x - drag_offset_x; drag_window->y = y - drag_offset_y; wm_render();
pub drag_to : ℤ → ℤ → Drag → ℕ → Wm → Option Wm
unfolding first_match
drag_to x y d a wm =
    drag_found a (sub_ℤ x d.offset_x) (sub_ℤ y d.offset_y) wm (first_match (is_at a) wm.windows)

-- y is in the title bar
abbrev pub on_titlebar : ℤ → Window → Bool
on_titlebar y w = leb_ℤ w.y y && ltb_ℤ y (add_ℤ w.y titlebar_height)

abbrev pub grab : ℤ → ℤ → Window → Drag
grab x y w = record {
  held = true;
  offset_x = sub_ℤ x w.x;
  offset_y = sub_ℤ y w.y;
  window = some w.address;
}

abbrev pub release : Drag → Drag
release d = record d { held = false; window = none }

-- A press at x, y on the window found there, in `wm_process_mouse`.
abbrev pub pressed_on : ℤ → ℤ → Option Window → Wm → Drag → Wm × Drag
unfolding focus_window render
pressed_on x y none wm d = (wm, d)
pressed_on x y (some w) wm d =
    (render (focus_window w.address wm), if on_titlebar y w then grab x y w else d)

-- The step that moves the window, with the state of the drag behind it.
abbrev pub with_drag : Drag → Option Wm → Option (Wm × Drag)
with_drag d none = none
with_drag d (some wm) = some (wm, d)

abbrev pub drag_of : ℤ → ℤ → Wm → Drag → Option ℕ → Option (Wm × Drag)
unfolding drag_to
drag_of x y wm d none = some (wm, d)
drag_of x y wm d (some a) = with_drag d (drag_to x y d a wm)

-- The end of `wm_process_mouse`.
pub drag_if_held : ℤ → ℤ → Bool → Wm × Drag → Option (Wm × Drag)
drag_if_held x y left (wm, d) = if d.held && left then drag_of x y wm d d.window else some (wm, d)

-- button == 1 is the left one.
pub process_mouse : ℤ → ℤ → ℕ → Bool → Wm → Drag → Option (Wm × Drag)
unfolding get_window_at drag_if_held
process_mouse x y button pressed wm d =
    let left = button == 1 in
    drag_if_held x y left (
      if left && pressed
      then pressed_on x y (get_window_at x y wm) wm d
      else if left && not pressed
      then (wm, release d)
      else (wm, d))

-- The events that `wm_main_loop` handles, and all others.
pub data Event : Type 0 where
  mouse_move : ℤ → ℤ → Event
  mouse_down : ℤ → ℤ → ℕ → Event
  mouse_up : ℕ → Event
  key_down : ℕ → Event
  other_event : Event

-- In the main loop the flag is set by every left press.
abbrev pub clicked_on : ℤ → ℤ → Option Window → Wm → Drag → Wm × Drag
unfolding focus_window render
clicked_on x y none wm d = (wm, record d { held = true })
clicked_on x y (some w) wm d = (
  render (focus_window w.address wm),
  if on_titlebar y w then grab x y w else record d { held = true },
)

-- focused && focused->on_event: the window and what its callback is given
abbrev pub notified : Option Window → ℕ → ℕ → List (ℕ × ℕ × ℕ)
notified none kind value = []
notified (some w) kind value = if w.on_event then (w.address, kind, value) ∷ [] else []

-- The calls of callbacks that `wm_dispatch_event` makes, as the window, the kind and the data.
pub dispatch_event : ℕ → ℕ → Wm → List (ℕ × ℕ × ℕ)
unfolding get_focused
dispatch_event kind value wm = notified (get_focused wm) kind value

-- The calls that `wm_main_loop` makes at an event; EV_KEY_PRESS is 100. What a callback does is up to
-- the program that set it.
pub calls_of : Event → Wm → List (ℕ × ℕ × ℕ)
unfolding dispatch_event
calls_of (key_down code) wm = dispatch_event 100 code wm
calls_of (mouse_move x y) wm = []
calls_of (mouse_down x y button) wm = []
calls_of (mouse_up button) wm = []
calls_of other_event wm = []

-- The body of the loop of `wm_main_loop` for one event, up to the callback that it calls.
pub handle_event : Event → Wm → Drag → Option (Wm × Drag)
unfolding drag_if_held get_window_at
handle_event (mouse_move x y) wm d = drag_if_held x y true (wm, d)
handle_event (mouse_down x y button) wm d =
    if button == 1 then some (clicked_on x y (get_window_at x y wm) wm d) else some (wm, d)
handle_event (mouse_up button) wm d = if button == 1 then some (wm, release d) else some (wm, d)
handle_event (key_down code) wm d = some (wm, d)
handle_event other_event wm d = some (wm, d)
