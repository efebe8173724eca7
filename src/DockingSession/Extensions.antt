-- ===== src/DockingSession/Extensions.antt =====
-- The lines that begin with `X `, which src/docking_session.cpp leaves to later versions.
use mwfl.Prelude.{ℕ, ◌≡◌, refl, ap, ◌∙◌, inl, inr, Option, List, ◌∷◌, Text, ltb, Bool-cases}
use mwfl.Stream.Doubles.{DoubleFormat}
use mwfl.Stream.Lines.{read_records}
use mwfl.Stream.Lines.Trim.{trim, read_records-trim, ends_cleanly-trim}
use mwfl.DockingSession.{Limits, parse_count}
use mwfl.Stream.Steps.Trim.{trim_right, step_trim, step_trim_right, read_line-trim, or_fail-trim}
use mwfl.DockingSession.{malformed}
use mwfl.Stream.Steps.{or_fail}
use mwfl.DockingSession.Read.{read_section, read_snapshot, read_session}

read_section-trim :
    {A : Type 0} (tag : Text) (maximum : ℕ) (p : Text → Option A) (ls : List Text)
    → read_section tag maximum p (trim ls) ≡ trim_right (read_section tag maximum p ls)
unfolding read_section
read_section-trim tag maximum p ls =
    step_trim_right _ _ _ (read_line-trim malformed (parse_count tag) ls) λ count rest.
      elim (Bool-cases (ltb maximum count)) [
        | inl e ↦ rw e refl
        | inr e ↦ rw e (
            ap (or_fail malformed) (read_records-trim p count rest)
            ∙ or_fail-trim malformed (read_records p count rest))
      ]

read_snapshot-trim :
    (f : DoubleFormat) (limits : Limits) (ls : List Text)
    → read_snapshot f limits (trim ls) ≡ read_snapshot f limits ls
unfolding read_snapshot
read_snapshot-trim f limits ls = step_trim _ _ _ (read_line-trim malformed _ ls) λ root ls1.
    step_trim _ _ _ (read_section-trim _ _ _ ls1) λ panels ls2.
      step_trim _ _ _ (read_section-trim _ _ _ ls2) λ groups ls3.
        step_trim _ _ _ (read_section-trim _ _ _ ls3) λ nodes ls4.
          step_trim _ _ _ (read_section-trim _ _ _ ls4) λ hosts ls5.
            step_trim _ _ _ (read_section-trim _ _ _ ls5) λ entries ls6.
              step_trim _ _ _ (read_line-trim malformed _ ls6)
                λ end ls7. rw (ends_cleanly-trim ls7) refl

-- Extension lines behind the header make no difference to what is read.
pub read_session-trim :
    (f : DoubleFormat) (limits : Limits) (header : Text) (ls : List Text)
    → read_session f limits (header ∷ trim ls) ≡ read_session f limits (header ∷ ls)
unfolding read_session
read_session-trim f limits header ls = rw (read_snapshot-trim f limits ls) refl
