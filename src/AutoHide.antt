-- ===== src/AutoHide.antt =====
-- The controller that shows and hides a docked panel: src/docking_auto_hide.cpp and
-- include/mwfl/docking_auto_hide.h. The valid options have no negative time, so that the times of a
-- controller are natural numbers. The progress is the exact quotient; the source rounds it to a
-- double, which is 1 exactly where the quotient is, since no duration is above 5000.
pub mod Advance
pub mod Visible
pub mod Timing
mod Tests
use mwfl.Prelude.{
  ℕ, zero, suc, ◌+◌, ◌-◌, ◌*◌, ◌/◌, ◌%◌, ◌^◌, ◌≤◌, ◌<◌, min, max, ◌≡◌, refl, sym, ap, subst, ◌∙◌,
  ◌≢◌, ◌↔◌, ◌⊎◌, inl, inr, Bool, true, false, not, ◌&&◌, ◌||◌, Option, none, some, List, [], ◌∷◌,
  ◌++◌, map, Mem, Nodup, Perm, arith, Text, u64_mod, next_u64, ltb, leb, ◌==◌, if◌then◌else◌,
  ltb→lt, lt→ltb, leb→le, ==_iff, ==_refl, Bool-cases, Option-cases, Either-cases, text_eq,
  text_eq_iff, opt_eq, ◌>>=◌, codes, is_nil, is_some, length, get_elem?, take, drop, insert_at,
  erase_idx, modify, find_index, find, any, erase_if, length-append, length-take, length-drop,
  length-insert_at, length-erase_idx, length-modify, get_elem?-insert_at_self, erase_idx-insert_at,
  get_elem?_of_lt, lt-length_of_get_elem?, mem_of_get_elem?, insert_at-perm, erase_idx-perm,
  find_index_sound, find_index-any, length-map, get_elem?-map, map-insert_at, map-erase_idx,
  map-modify, shift, All, All-append, All-insert_at, All-erase_idx, All-modify, All-take,
  All-erase_if, All-get_elem?, get_elem?-erase_idx_lt, get_elem?-erase_idx_le, heir,
  get_elem?-min-erase_idx,
}
use mwfl.Docking.{Edge, right, Placement}
use mwfl.Docking.Mutation.{Mutation, move_to_group}
use mwfl.Prelude.Double.{of_ℕ, half}

pub data AutoHideState : Type 0 where
  hidden waiting_to_show showing shown waiting_to_hide hiding : AutoHideState

pub data Activation : Type 0 where
  pointer keyboard programmatic : Activation

-- Milliseconds, as the caller gives them.
pub data Milliseconds : Type 0 where
  count negative : ℕ → Milliseconds

pub record GivenOptions : Type 0 where
  pub pointer_show_delay : Milliseconds
  pub hide_delay : Milliseconds
  pub animation_duration : Milliseconds

pub record Options : Type 0 where
  pub pointer_show_delay : ℕ
  pub hide_delay : ℕ
  pub animation_duration : ℕ

-- A quotient between 0 and 1.
pub record Progress : Type 0 where
  pub part : ℕ
  pub whole : ℕ

pub record Snapshot : Type 0 where
  pub state : AutoHideState
  pub panel : Option ℕ
  pub progress : Progress
  pub pointer_inside : Bool
  pub keyboard_focus_inside : Bool

pub record Controller : Type 0 where
  pub options : Options
  pub state : Snapshot
  pub phase_elapsed : ℕ

abbrev pub maximum_duration : ℕ
maximum_duration = 5000

abbrev pub nothing : Progress
nothing = record { part = 0; whole = 1 }

abbrev pub everything : Progress
everything = record { part = 1; whole = 1 }

abbrev pub empty_snapshot : Snapshot
empty_snapshot = record {
  state = hidden;
  panel = none;
  progress = nothing;
  pointer_inside = false;
  keyboard_focus_inside = false;
}

-- A time that `DockAutoHideOptions::IsValid` accepts.
unfoldable pub valid_time : Milliseconds → Option ℕ
valid_time (count n) = if leb n maximum_duration then some n else none
valid_time (negative n) = none

-- The constructor; `none` where it throws.
unfoldable pub create : GivenOptions → Option Controller
create given = do
  show_delay ← valid_time given.pointer_show_delay
  hide_delay ← valid_time given.hide_delay
  duration ← valid_time given.animation_duration
  some (record {
    options = record {
      pointer_show_delay = show_delay;
      hide_delay = hide_delay;
      animation_duration = duration;
    };
    state = empty_snapshot;
    phase_elapsed = 0;
  })

-- `Fraction`, and what is left of 1.
unfoldable pub fraction : ℕ → ℕ → Progress
fraction elapsed duration =
    if duration == 0 then everything else record { part = min elapsed duration; whole = duration }

abbrev pub complement : Progress → Progress
complement p = record { part = p.whole - p.part; whole = p.whole }

abbrev pub reset : Controller → Controller
reset c = record c { state = empty_snapshot; phase_elapsed = 0 }

abbrev pub keeps_open : Snapshot → Bool
keeps_open s = s.pointer_inside || s.keyboard_focus_inside

-- The state, at the start of its phase.
abbrev pub enter : Controller → AutoHideState → Controller
enter c state = record c { state = record (c.state) { state = state }; phase_elapsed = 0 }

abbrev pub enter_with : Controller → AutoHideState → Progress → Controller
enter_with c state progress = record c {
  state = record (c.state) { state = state; progress = progress };
  phase_elapsed = 0;
}

abbrev pub is_immediate : Activation → Bool
is_immediate pointer = false
is_immediate keyboard = true
is_immediate programmatic = true

-- `state == hidden || state == hiding`
abbrev pub is_going : AutoHideState → Bool
is_going hidden = true
is_going hiding = true
is_going s = false

-- `state == waiting_to_hide || state == hiding`
abbrev pub is_leaving : AutoHideState → Bool
is_leaving waiting_to_hide = true
is_leaving hiding = true
is_leaving s = false

abbrev pub is_waiting_to_hide : AutoHideState → Bool
is_waiting_to_hide waiting_to_hide = true
is_waiting_to_hide s = false

abbrev pub is_shown : AutoHideState → Bool
is_shown shown = true
is_shown s = false

abbrev pub is_hidden : AutoHideState → Bool
is_hidden hidden = true
is_hidden s = false

unfoldable pub request_show : Controller → ℕ → Activation → Controller × Bool
request_show c panel activation =
    if panel == 0
    then (c, false)
    else (let switching = not (opt_eq c.state.panel (some panel)) in
        let own = record c { state = record (c.state) { panel = some panel }; phase_elapsed = 0 } in
        (
          if is_immediate activation
              then enter_with own shown everything
              else if switching || is_going c.state.state
              then enter_with own
                  (if c.options.pointer_show_delay == 0 then showing else waiting_to_show) nothing
              else if is_waiting_to_hide c.state.state
              then enter_with own shown everything
              else own,
          true,
        ))

unfoldable pub request_hide : Controller → Bool → Controller
request_hide c immediate =
    if is_hidden c.state.state
    then c
    else if immediate
    then reset c
    else if keeps_open c.state
    then c
    else enter c (if c.options.hide_delay == 0 then hiding else waiting_to_hide)

-- What follows in both setters, after the flag has been written.
unfoldable pub after_flag : Controller → Bool → Controller
after_flag c inside =
    if inside && is_leaving c.state.state
    then enter_with c shown everything
    else if not inside && not (keeps_open c.state) && is_shown c.state.state
    then request_hide c false
    else c

unfoldable pub set_pointer_inside : Controller → Bool → Controller
set_pointer_inside c inside =
    after_flag (record c { state = record (c.state) { pointer_inside = inside } }) inside

unfoldable pub set_keyboard_focus_inside : Controller → Bool → Controller
set_keyboard_focus_inside c inside =
    after_flag (record c { state = record (c.state) { keyboard_focus_inside = inside } }) inside
