-- ===== src/AutoHide/Timing.antt =====
-- The controller of src/docking_auto_hide.cpp comes to rest when its timer goes on.
use mwfl.Prelude.{
  ℕ, zero, suc, ◌+◌, ◌-◌, ◌≤◌, ◌<◌, min, ◌≡◌, refl, ap, ◌∙◌, ◌⊎◌, inl, inr, Bool, true, false,
  arith, ◌==◌, Bool-cases,
}
use mwfl.AutoHide.{
  AutoHideState, hidden, waiting_to_show, showing, shown, waiting_to_hide, hiding, Milliseconds,
  count, Controller, maximum_duration, fraction, keeps_open, enter, request_hide,
}
use mwfl.AutoHide.Advance.{show_at, hide_at, advance_phase, advance, advancing}
use mwfl.AutoHide.Visible.{IsConsistent, step-IsConsistent}

-- Where each state leads when nothing but time happens.
abbrev pub rest_of : AutoHideState → AutoHideState
rest_of hidden = hidden
rest_of waiting_to_show = shown
rest_of showing = shown
rest_of shown = shown
rest_of waiting_to_hide = hidden
rest_of hiding = hidden

abbrev pub is_at_rest : AutoHideState → Bool
is_at_rest hidden = true
is_at_rest shown = true
is_at_rest s = false

abbrev time_left : AutoHideState → ℕ → ℕ → ℕ → ℕ → ℕ
time_left hidden show_delay hide_delay duration elapsed = 0
time_left shown show_delay hide_delay duration elapsed = 0
time_left waiting_to_show show_delay hide_delay duration elapsed = (show_delay + duration) - elapsed
time_left showing show_delay hide_delay duration elapsed = duration - elapsed
time_left waiting_to_hide show_delay hide_delay duration elapsed = (hide_delay + duration) - elapsed
time_left hiding show_delay hide_delay duration elapsed = duration - elapsed

-- The milliseconds until the controller is at rest.
abbrev pub remaining : Controller → ℕ
remaining c =
    time_left c.state.state c.options.pointer_show_delay c.options.hide_delay
      c.options.animation_duration c.phase_elapsed

-- The timer fires a number of times, each after the same time.
abbrev pub ticks : Controller → Milliseconds → ℕ → Controller
ticks c elapsed zero = c
ticks c elapsed (suc n) = ticks (advance c elapsed) elapsed n

-- A phase ends or its time goes on.
abbrev Proceeds : Controller → Controller → Type 0
Proceeds c after =
    (rest_of after.state.state ≡ rest_of c.state.state)
    × (is_at_rest after.state.state ≡ true ⊎ remaining after < remaining c)

advance_phase-Proceeds :
    (c : Controller) (m : ℕ) (state : AutoHideState)
    → c.state.state ≡ state
    → is_at_rest state ≡ false
    → 0 < m
    → IsConsistent c
    → Proceeds c (advance_phase c (c.phase_elapsed + m) state)
unfolding advance_phase show_at hide_at fraction
advance_phase-Proceeds c m hidden e moving h v = cc
advance_phase-Proceeds c m shown e moving h v = cc
advance_phase-Proceeds c m showing e moving h v = (ground (arith, e), ground (arith, e))
advance_phase-Proceeds c m hiding e moving h v = (ground (arith, e), ground (arith, e))
advance_phase-Proceeds c m waiting_to_show e moving h v = (ground (arith, e), ground (arith, e))
advance_phase-Proceeds c m waiting_to_hide e moving h v =
    (ground (arith, e, v.stays), ground (arith, e, v.stays))

advance-Proceeds :
    (c : Controller) (n : ℕ)
    → 0 < n
    → is_at_rest c.state.state ≡ false
    → IsConsistent c
    → Proceeds c (advance c (count n))
unfolding advance
advance-Proceeds c n h moving v =
    let test : (n == 0) ≡ false = ground arith in
    rw test
      (advance_phase-Proceeds c (min n maximum_duration) c.state.state refl moving (omega arith) v)

rest_of_at_rest : (s : AutoHideState) → is_at_rest s ≡ true → s ≡ rest_of s
rest_of_at_rest hidden h = refl
rest_of_at_rest shown h = refl
rest_of_at_rest waiting_to_show h = cc
rest_of_at_rest showing h = cc
rest_of_at_rest waiting_to_hide h = cc
rest_of_at_rest hiding h = cc

advance_phase_at_rest :
    (c : Controller) (elapsed : ℕ) (s : AutoHideState)
    → is_at_rest s ≡ true
    → advance_phase c elapsed s ≡ c
unfolding advance_phase
advance_phase_at_rest c elapsed hidden h = refl
advance_phase_at_rest c elapsed shown h = refl
advance_phase_at_rest c elapsed waiting_to_show h = cc
advance_phase_at_rest c elapsed showing h = cc
advance_phase_at_rest c elapsed waiting_to_hide h = cc
advance_phase_at_rest c elapsed hiding h = cc

advance_at_rest :
    (c : Controller) (n : ℕ) → is_at_rest c.state.state ≡ true → advance c (count n) ≡ c
unfolding advance
advance_at_rest c n h =
    ground
      (arith, advance_phase_at_rest c (c.phase_elapsed + min n maximum_duration) c.state.state h)

ticks_at_rest :
    (c : Controller) (n k : ℕ) → is_at_rest c.state.state ≡ true → ticks c (count n) k ≡ c
ticks_at_rest c n zero h = refl
ticks_at_rest c n (suc k) h = rw (advance_at_rest c n h) (ticks_at_rest c n k h)

-- Once the timer has fired more often than there are milliseconds left, a consistent controller is
-- at rest: a panel that was being shown is shown, and one that was leaving is hidden.
pub ticks_rest :
    (c : Controller) (n k : ℕ)
    → 0 < n
    → remaining c < k
    → IsConsistent c
    → (ticks c (count n) k).state.state ≡ rest_of c.state.state
ticks_rest c n zero h enough v = elim enough [ ]
ticks_rest c n (suc k) h enough v = elim (Bool-cases (is_at_rest c.state.state)) [
  | inl rests ↦
      ap (λ (d : Controller). d.state.state) (ticks_at_rest c n (suc k) rests)
      ∙ rest_of_at_rest c.state.state rests
  | inr moving ↦
      let (same, less) = advance-Proceeds c n h moving v in
      elim less [
        | inl done ↦
            rw (ticks_at_rest (advance c (count n)) n k done) (rest_of_at_rest _ done ∙ same)
        | inr sooner ↦
            ticks_rest (advance c (count n)) n k h (omega (arith, sooner, enough))
              (step-IsConsistent c (advancing (count n)) v)
            ∙ same
      ]
]

-- A hide request for a panel that still waits to be shown brings it to full progress once the hide
-- delay is over, although it was not visible before.
pub advance-request_hide :
    (c : Controller)
    → c.state.state ≡ waiting_to_show
    → keeps_open c.state ≡ false
    → 0 < c.options.hide_delay
    → c.options.hide_delay ≤ maximum_duration
    → 0 < c.options.animation_duration
    → ((advance (request_hide c false) (count c.options.hide_delay)).state.state ≡ hiding)
      × ((advance (request_hide c false) (count c.options.hide_delay)).state.progress
          ≡ record { part = c.options.animation_duration; whole = c.options.animation_duration })
unfolding request_hide advance advance_phase hide_at fraction
advance-request_hide c waits free delay bound duration =
    let asked : request_hide c false ≡ enter c waiting_to_hide =
      ground (arith, waits, free, delay) in
    let time : 0 + min c.options.hide_delay maximum_duration ≡ c.options.hide_delay = omega arith in
    rw asked (ground (arith, free, delay, bound, duration, time))
