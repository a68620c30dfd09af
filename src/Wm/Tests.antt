-- ===== src/Wm/Tests.antt =====
-- Runs of kernel/wm.c on two windows, and the theorems at them.
use mathlib.Core.List.{Perm}
use os.Base.{◌≡◌, refl, pos, [], ◌∷◌, some, none, true, false, arith}
use os.Wm.{
  Window, Wm, Drag, mouse_down, init, create_window, destroy_window, focus_window, focus_all,
  render, sort_windows, insert_sorted, insert_behind, get_window_at, first_match, is_at,
  get_focused, handle_event, fresh_window, unlink,
}
use os.Wm.Order.{IsSorted, render-IsSorted}
use os.Wm.Focus.{IsValid, front, in_front, handle_event-Focused}
use os.Wm.Reach.{start, created, Reachable-IsValid}

abbrev back_window : Window
back_window = record (fresh_window [] (pos 10) (pos 10) (pos 50) (pos 50) 1 4096 8192) {
  focused = false;
}

abbrev front_window : Window
front_window = record (fresh_window [] (pos 30) (pos 30) (pos 50) (pos 50) 3 12288 16384) {
  focused = true;
}

-- The second window that was created stands in front of the first.
abbrev both : Wm
both = record { windows = front_window ∷ back_window ∷ []; z_counter = 4 }

abbrev idle : Drag
idle = record { held = false; offset_x = pos 0; offset_y = pos 0; window = none }

abbrev grabbed : Drag
grabbed = record { held = true; offset_x = pos 5; offset_y = pos 5; window = some 4096 }

both-create_window :
    (create_window []
      (pos 30)
      (pos 30)
      (pos 50)
      (pos 50)
      12288
      16384
      (create_window [] (pos 10) (pos 10) (pos 50) (pos 50) 4096 8192 init).0).0
    ≡ both
unfolding create_window focus_window focus_all
both-create_window = refl

both-IsValid : IsValid both
both-IsValid = record {
  addresses = ((λ e. omega (arith, e), tt), (tt, tt));
  places = ((λ e. omega (arith, e), tt), (tt, tt));
  below = (omega arith, (omega arith, tt));
}

hit_front : get_window_at (pos 40) (pos 40) both ≡ some front_window
unfolding get_window_at first_match
hit_front = refl

-- After a `wm_render` the same point is in the window at the back.
hit_back : get_window_at (pos 40) (pos 40) (render both) ≡ some back_window
unfolding get_window_at first_match render sort_windows insert_sorted insert_behind
hit_back = refl

found_back : first_match (is_at 4096) both.windows ≡ some back_window
unfolding first_match
found_back = refl

render-IsSorted_example : Perm both.windows (render both).windows × IsSorted (render both).windows
render-IsSorted_example = render-IsSorted both

handle_event-Focused_example :
    (wm' : Wm) × (d' : Drag) × (handle_event (mouse_down (pos 40) (pos 40) 1) both idle
      ≡ some (wm', d'))
    × (front wm'.windows ≡ some (in_front 4 front_window))
    × (get_focused wm' ≡ some (in_front 4 front_window))
handle_event-Focused_example =
    handle_event-Focused (pos 40) (pos 40) front_window both idle both-IsValid hit_front

destroyed_back :
    destroy_window 4096 both
    ≡ some (record { windows = front_window ∷ []; z_counter = 4 }, 8192 ∷ 4096 ∷ [])
unfolding destroy_window first_match unlink
destroyed_back = refl

Reachable-IsValid_example :
    IsValid (create_window [] (pos 10) (pos 10) (pos 50) (pos 50) 4096 8192 init).0
Reachable-IsValid_example =
    Reachable-IsValid (create_window [] (pos 10) (pos 10) (pos 50) (pos 50) 4096 8192 init).0 idle
      idle
      (created [] (pos 10) (pos 10) (pos 50) (pos 50) 4096 8192 init idle idle
        (start (pos 0) (pos 0) (pos 0) (pos 0)) tt)
