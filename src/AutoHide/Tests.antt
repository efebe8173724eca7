-- ===== src/AutoHide/Tests.antt =====
-- Runs of src/docking_auto_hide.cpp, and the theorems applied there.
use mwfl.Prelude.{◌≡◌, refl, subst, false, some, [], ◌∷◌, arith, opt_eq}
use mwfl.AutoHide.{
  waiting_to_show, shown, hiding, pointer, count, Options, Controller, create, valid_time, fraction,
  empty_snapshot, request_show, request_hide,
}
use mwfl.AutoHide.Advance.{show_at, advance_phase, advance, showing_panel, advancing, step, run}
use mwfl.AutoHide.Visible.{IsConsistent, step-IsConsistent}
use mwfl.AutoHide.Timing.{ticks, ticks_rest, advance-request_hide}

abbrev times : Options
times = record { pointer_show_delay = 250; hide_delay = 500; animation_duration = 120 }

abbrev idle : Controller
idle = record { options = times; state = empty_snapshot; phase_elapsed = 0 }

idle_lem :
    create (record {
      pointer_show_delay = count 250;
      hide_delay = count 500;
      animation_duration = count 120;
    })
    ≡ some idle
unfolding create valid_time
idle_lem = refl

idle-IsConsistent : IsConsistent idle
idle-IsConsistent = record {
  stays = refl;
  owned = refl;
  bounded = omega arith;
  divides = omega arith;
}

-- The pointer rests on the tab of panel 4.
abbrev waiting : Controller
waiting = record {
  options = times;
  state = record (empty_snapshot) { state = waiting_to_show; panel = some 4 };
  phase_elapsed = 0;
}

step-waiting : step idle (showing_panel 4 pointer) ≡ waiting
unfolding request_show opt_eq
step-waiting = refl

step-IsConsistent_example : IsConsistent (step idle (showing_panel 4 pointer))
step-IsConsistent_example = step-IsConsistent idle (showing_panel 4 pointer) idle-IsConsistent

waiting-IsConsistent : IsConsistent waiting
waiting-IsConsistent = subst IsConsistent step-waiting step-IsConsistent_example

-- 250 and 120 milliseconds, in steps of 16.
run-shown :
    (run waiting
      (advancing (count 256) ∷ advancing (count 16) ∷ advancing (count 100) ∷ [])).state.state
    ≡ shown
unfolding advance advance_phase show_at fraction
run-shown = refl

ticks_rest_example : (ticks waiting (count 16) 371).state.state ≡ shown
ticks_rest_example = ticks_rest waiting 16 371 (omega arith) (omega arith) waiting-IsConsistent

advance-request_hide_example :
    ((advance (request_hide waiting false) (count 500)).state.state ≡ hiding)
    × ((advance (request_hide waiting false) (count 500)).state.progress
        ≡ record { part = 120; whole = 120 })
advance-request_hide_example =
    advance-request_hide waiting refl refl (omega arith) (omega arith) (omega arith)
