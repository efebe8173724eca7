-- ===== src/DockingSession/Sized.antt =====
-- How long the texts and lists are that the lines of src/docking_session.cpp give.
use mwfl.Prelude.{
  ℕ, zero, suc, ◌≤◌, ◌≡◌, subst, inl, inr, true, some, arith, leb→le, Text, Option-cases, length,
  sym,
}
use mwfl.Docking.{Panel, Group, FloatingHost}
use mwfl.Stream.{read_unsigned, optional_of}
use mwfl.Stream.Doubles.{DoubleFormat}
use mwfl.Stream.Yields.{
  Yields, bind-Yields, then-Yields, pure_if-Yields, done_if-Yields, value_of-Yields,
}
use mwfl.DockingSession.{Limits, parse_panel, parse_group, parse_host, read_ids, group_role_of}

abbrev pub IsTitled : Limits → Panel → Type 0
IsTitled limits p = length p.title ≤ limits.maximum_string_units

abbrev pub IsShown : Limits → Group → Type 0
IsShown limits g = length g.panels ≤ limits.maximum_panels

abbrev pub IsPlaced : Limits → FloatingHost → Type 0
IsPlaced limits h = length h.placement.monitor_key ≤ limits.maximum_string_units

pub parse_panel-IsTitled :
    (limits : Limits) (line : Text) (p : Panel)
    → parse_panel limits line ≡ some p
    → IsTitled limits p
unfolding parse_panel
parse_panel-IsTitled limits line p e =
    let P = IsTitled limits in
    value_of-Yields P _
      (then-Yields P _ _ λ tag. then-Yields P _ _ λ id. then-Yields P _ _ λ role.
        then-Yields P _ _ λ closable.
          then-Yields P _ _ λ title. done_if-Yields P _ _ λ h. leb→le _ _ (ground (arith, h)))
      line p e

read_ids-length : (n : ℕ) → Yields (λ ids. length ids ≡ n) (read_ids n)
unfolding read_ids
read_ids-length zero t ids rest e = ground (arith, e)
read_ids-length (suc n) t ids rest e = elim (Option-cases (read_unsigned 64 t)) [
  | inl miss ↦ absurd (ground (arith, e, miss))
  | inr ((id, left), hit) ↦ elim (Option-cases (read_ids n left)) [
    | inl miss ↦ absurd (ground (arith, e, hit, miss))
    | inr ((others, end), more) ↦
        ground (arith, e, hit, more, read_ids-length n left others end more)
  ]
]

pub parse_group-IsShown :
    (limits : Limits) (line : Text) (g : Group)
    → parse_group limits line ≡ some g
    → IsShown limits g
unfolding parse_group
parse_group-IsShown limits line g e =
    let P = IsShown limits in
    let Fits : ℕ → Type 0 = λ n. n ≤ limits.maximum_panels in
    value_of-Yields P _
      (then-Yields P _ _ λ tag. then-Yields P _ _ λ id. then-Yields P _ _ λ role.
        then-Yields P _ _ λ active. then-Yields P _ _ λ count.
          bind-Yields Fits P _ _ (pure_if-Yields Fits _ count (λ h. leb→le _ _ (ground (arith, h))))
            λ checked fits.
              bind-Yields (λ ids. length ids ≡ checked) P _ _ (read_ids-length checked)
                λ ids same.
                  let read : Group = record {
                    id = id;
                    role = group_role_of role;
                    panels = ids;
                    active = optional_of active;
                  } in
                  done_if-Yields P true read
                    λ h. subst (λ n. n ≤ limits.maximum_panels) (sym same) fits)
      line g e

pub parse_host-IsPlaced :
    (f : DoubleFormat) (limits : Limits) (line : Text) (h : FloatingHost)
    → parse_host f limits line ≡ some h
    → IsPlaced limits h
unfolding parse_host
parse_host-IsPlaced f limits line h e =
    let P = IsPlaced limits in
    value_of-Yields P _
      (then-Yields P _ _ λ tag. then-Yields P _ _ λ id. then-Yields P _ _ λ root.
        then-Yields P _ _ λ x. then-Yields P _ _ λ y. then-Yields P _ _ λ width.
          then-Yields P _ _ λ height.
            then-Yields P _ _ λ key. done_if-Yields P _ _ λ k. leb→le _ _ (ground (arith, k)))
      line h e
