-- ===== src/AutoHide/Advance.antt =====
-- `Advance` and `MakePinDockMutation` of src/docking_auto_hide.cpp.
use mwfl.Prelude.{ℕ, ◌+◌, ◌-◌, min, Bool, Option, List, [], ◌∷◌, ltb, leb, ◌==◌, if◌then◌else◌}
use mwfl.Docking.{right}
use mwfl.Docking.Mutation.{Mutation, move_to_group}
use mwfl.Prelude.Double.{of_ℕ, half}
use mwfl.AutoHide.{
  AutoHideState, hidden, waiting_to_show, showing, shown, waiting_to_hide, hiding, Activation,
  Milliseconds, count, negative, Progress, Controller, maximum_duration, everything, fraction,
  complement, reset, keeps_open, enter_with, request_show, request_hide, set_pointer_inside,
  set_keyboard_focus_inside,
}

-- `progress >= 1.0`, and `progress <= 0.0`.
abbrev pub is_full : Progress → Bool
is_full p = leb p.whole p.part

abbrev pub is_empty : Progress → Bool
is_empty p = p.part == 0

-- The branch of `showing`, at a time of its phase.
unfoldable pub show_at : Controller → ℕ → Controller
show_at c elapsed =
    let progress = fraction elapsed c.options.animation_duration in
    if is_full progress then enter_with c shown progress else record c {
      state = record (c.state) { state = showing; progress = progress };
      phase_elapsed = elapsed;
    }

-- The branch of `hiding`.
unfoldable pub hide_at : Controller → ℕ → Controller
hide_at c elapsed =
    let progress = complement (fraction elapsed c.options.animation_duration) in
    if is_empty progress then reset c else record c {
      state = record (c.state) { state = hiding; progress = progress };
      phase_elapsed = elapsed;
    }

-- The phases, after the time of the phase has been added up.
unfoldable pub advance_phase : Controller → ℕ → AutoHideState → Controller
advance_phase c elapsed hidden = c
advance_phase c elapsed shown = c
advance_phase c elapsed waiting_to_show =
    if ltb elapsed c.options.pointer_show_delay
    then record c { phase_elapsed = elapsed }
    else show_at c (elapsed - c.options.pointer_show_delay)
advance_phase c elapsed showing = show_at c elapsed
advance_phase c elapsed waiting_to_hide =
    if keeps_open c.state
    then enter_with c shown everything
    else if ltb elapsed c.options.hide_delay
    then record c { phase_elapsed = elapsed }
    else hide_at c (elapsed - c.options.hide_delay)
advance_phase c elapsed hiding = hide_at c elapsed

unfoldable pub advance : Controller → Milliseconds → Controller
advance c (negative n) = c
advance c (count n) =
    if n == 0 then c else advance_phase c (c.phase_elapsed + min n maximum_duration) c.state.state

-- `MakePinDockMutation`: the move, and the defaults of the other fields.
unfoldable pub make_pin : ℕ → ℕ → Option ℕ → Mutation
make_pin panel destination index = record {
  kind = move_to_group;
  panel = panel;
  target_group = destination;
  target_index = index;
  edge = right;
  new_group = 0;
  new_group_node = 0;
  new_split_node = 0;
  new_floating_host = 0;
  floating_placement = record {
    x = of_ℕ 80;
    y = of_ℕ 80;
    width = of_ℕ 480;
    height = of_ℕ 360;
    monitor_key = [];
  };
  split_ratio = half;
}

-- The calls of a controller.
pub data Call : Type 0 where
  showing_panel : ℕ → Activation → Call
  requesting_hide pointing focusing : Bool → Call
  advancing : Milliseconds → Call
  resetting : Call

abbrev pub step : Controller → Call → Controller
step c (showing_panel panel activation) = (request_show c panel activation).0
step c (requesting_hide immediate) = request_hide c immediate
step c (pointing inside) = set_pointer_inside c inside
step c (focusing inside) = set_keyboard_focus_inside c inside
step c (advancing elapsed) = advance c elapsed
step c resetting = reset c

abbrev pub run : Controller → List Call → Controller
run c [] = c
run c (k ∷ ks) = run (step c k) ks
