-- ===== src/AutoHide/Visible.antt =====
-- Which states of the controller of src/docking_auto_hide.cpp can be reached.
use mwfl.Prelude.{
  ℕ, ◌≤◌, ◌<◌, ◌≡◌, refl, inl, inr, Bool, false, not, ◌&&◌, arith, ltb, ◌==◌, Bool-cases, opt_eq,
  is_some,
}
use mwfl.AutoHide.{
  AutoHideState, hidden, waiting_to_show, showing, shown, waiting_to_hide, hiding, Activation,
  Milliseconds, count, negative, is_leaving, is_hidden, Controller, fraction, keeps_open,
  request_show, request_hide, after_flag, set_pointer_inside, set_keyboard_focus_inside,
}
use mwfl.AutoHide.Advance.{
  show_at, hide_at, advance_phase, advance, Call, showing_panel, requesting_hide, pointing,
  focusing, advancing, resetting, step,
}

-- No panel is leaving while the pointer or the keyboard focus is inside; a panel belongs to every
-- state but `hidden`; and the progress is a quotient between 0 and 1.
pub record IsConsistent (c : Controller) : Type 0 where
  pub stays : (is_leaving c.state.state && keeps_open c.state) ≡ false
  pub owned : is_hidden c.state.state ≡ not (is_some c.state.panel)
  pub bounded : c.state.progress.part ≤ c.state.progress.whole
  pub divides : 0 < c.state.progress.whole

show_at-IsConsistent :
    (c : Controller) (elapsed : ℕ)
    → is_hidden c.state.state ≡ false
    → IsConsistent c
    → IsConsistent (show_at c elapsed)
unfolding show_at fraction
show_at-IsConsistent c elapsed here v = record {
  stays = ground (arith, v.stays);
  owned = ground (arith, here, v.owned);
  bounded = ground (arith, v.bounded);
  divides = ground (arith, v.divides);
}

hide_at-IsConsistent :
    (c : Controller) (elapsed : ℕ)
    → is_hidden c.state.state ≡ false
    → keeps_open c.state ≡ false
    → IsConsistent c
    → IsConsistent (hide_at c elapsed)
unfolding hide_at fraction
hide_at-IsConsistent c elapsed here free v = record {
  stays = ground (arith, free, v.stays);
  owned = ground (arith, here, v.owned);
  bounded = ground (arith, v.bounded);
  divides = ground (arith, v.divides);
}

-- The time of a phase does not matter.
waited :
    (c : Controller) (elapsed : ℕ)
    → IsConsistent c
    → IsConsistent (record c { phase_elapsed = elapsed })
waited c elapsed v = record {
  stays = v.stays;
  owned = v.owned;
  bounded = v.bounded;
  divides = v.divides;
}

request_show-IsConsistent :
    (c : Controller) (panel : ℕ) (activation : Activation)
    → IsConsistent c
    → IsConsistent (request_show c panel activation).0
unfolding request_show opt_eq
request_show-IsConsistent c panel activation v = record {
  stays = ground (arith, v.stays);
  owned = ground (arith, v.owned);
  bounded = ground (arith, v.bounded);
  divides = ground (arith, v.divides);
}

request_hide-IsConsistent :
    (c : Controller) (immediate : Bool) → IsConsistent c → IsConsistent (request_hide c immediate)
unfolding request_hide
request_hide-IsConsistent c immediate v = record {
  stays = ground (arith, v.stays);
  owned = ground (arith, v.owned);
  bounded = ground (arith, v.bounded);
  divides = ground (arith, v.divides);
}

after_flag-IsConsistent :
    (c : Controller) (inside : Bool)
    → (is_leaving c.state.state && keeps_open c.state && not inside) ≡ false
    → is_hidden c.state.state ≡ not (is_some c.state.panel)
    → c.state.progress.part ≤ c.state.progress.whole
    → 0 < c.state.progress.whole
    → IsConsistent (after_flag c inside)
unfolding after_flag request_hide
after_flag-IsConsistent c inside stays owned bounded divides = record {
  stays = ground (arith, stays);
  owned = ground (arith, owned);
  bounded = ground (arith, bounded);
  divides = ground (arith, divides);
}

advance_phase-IsConsistent :
    (c : Controller) (elapsed : ℕ) (state : AutoHideState)
    → c.state.state ≡ state
    → IsConsistent c
    → IsConsistent (advance_phase c elapsed state)
unfolding advance_phase
advance_phase-IsConsistent c elapsed hidden e v = v
advance_phase-IsConsistent c elapsed shown e v = v
advance_phase-IsConsistent c elapsed showing e v =
    show_at-IsConsistent c elapsed (ground (arith, e)) v
advance_phase-IsConsistent c elapsed hiding e v =
    hide_at-IsConsistent c elapsed (ground (arith, e)) (ground (arith, e, v.stays)) v
advance_phase-IsConsistent c elapsed waiting_to_show e v =
    elim (Bool-cases (ltb elapsed c.options.pointer_show_delay)) [
      | inl early ↦ rw early (waited c elapsed v)
      | inr late ↦ rw late (show_at-IsConsistent c _ (ground (arith, e)) v)
    ]
advance_phase-IsConsistent c elapsed waiting_to_hide e v = elim (Bool-cases (keeps_open c.state)) [
  | inl kept ↦ absurd (ground (arith, e, kept, v.stays))
  | inr free ↦ elim (Bool-cases (ltb elapsed c.options.hide_delay)) [
    | inl early ↦ rw (free, early) (waited c elapsed v)
    | inr late ↦ rw (free, late) (hide_at-IsConsistent c _ (ground (arith, e)) free v)
  ]
]

advance-IsConsistent :
    (c : Controller) (elapsed : Milliseconds) → IsConsistent c → IsConsistent (advance c elapsed)
unfolding advance
advance-IsConsistent c (negative n) v = v
advance-IsConsistent c (count n) v = elim (Bool-cases (n == 0)) [
  | inl still ↦ rw still v
  | inr moved ↦ rw moved (advance_phase-IsConsistent c _ c.state.state refl v)
]

-- Every call on a controller, at any time and with any arguments, keeps three facts: no panel is
-- leaving while the pointer or the keyboard focus is inside, a panel belongs to every state but
-- `hidden`, and the progress is a quotient between 0 and 1.
pub step-IsConsistent : (c : Controller) (k : Call) → IsConsistent c → IsConsistent (step c k)
unfolding set_pointer_inside set_keyboard_focus_inside
step-IsConsistent c (showing_panel panel activation) v =
    request_show-IsConsistent c panel activation v
step-IsConsistent c (requesting_hide immediate) v = request_hide-IsConsistent c immediate v
step-IsConsistent c (pointing inside) v =
    after_flag-IsConsistent _ inside (ground (arith, v.stays)) v.owned v.bounded v.divides
step-IsConsistent c (focusing inside) v =
    after_flag-IsConsistent _ inside (ground (arith, v.stays)) v.owned v.bounded v.divides
step-IsConsistent c (advancing elapsed) v = advance-IsConsistent c elapsed v
step-IsConsistent c resetting v = record {
  stays = refl;
  owned = refl;
  bounded = omega arith;
  divides = omega arith;
}
