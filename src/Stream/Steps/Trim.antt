-- ===== src/Stream/Steps/Trim.antt =====
-- A chain of steps over the trimmed lines: each step reads the same.
use mwfl.Prelude.{◌≡◌, refl, ap, ◌∙◌, ◌⊎◌, inl, inr, Option, none, some, List, Text, Option-cases}
use mwfl.Stream.Lines.{read_required}
use mwfl.Stream.Lines.Trim.{trim, trim_rest, read_required-trim}
use mwfl.Stream.Steps.{◌>>=◌, or_fail, line_of, read_line}

abbrev pub trim_right : {E A : Type 0} → E ⊎ (A × List Text) → E ⊎ (A × List Text)
trim_right (inl status) = inl status
trim_right (inr (a, ls)) = inr (a, trim ls)

-- A step that reads the trimmed lines, before steps that do not see the difference.
pub step_trim :
    {E A B : Type 0} (m m' : E ⊎ (A × List Text)) (f : A × List Text → E ⊎ B)
    → m' ≡ trim_right m
    → ((a : A) (ls : List Text) → f (a, trim ls) ≡ f (a, ls))
    → (m' >>= f) ≡ (m >>= f)
unfolding ◌>>=◌
step_trim (inl status) m' f e k = ap (λ m. m >>= f) e
step_trim (inr (a, ls)) m' f e k = ap (λ m. m >>= f) e ∙ k a ls

-- The same before a step that reads on.
pub step_trim_right :
    {E A B : Type 0} (m m' : E ⊎ (A × List Text)) (f : A × List Text → E ⊎ (B × List Text))
    → m' ≡ trim_right m
    → ((a : A) (ls : List Text) → f (a, trim ls) ≡ trim_right (f (a, ls)))
    → (m' >>= f) ≡ trim_right (m >>= f)
unfolding ◌>>=◌
step_trim_right (inl status) m' f e k = ap (λ m. m >>= f) e
step_trim_right (inr (a, ls)) m' f e k = ap (λ m. m >>= f) e ∙ k a ls

module _ {E : Type 0} (status : E) where
  pub read_line-trim :
      {A : Type 0} (p : Text → Option A) (ls : List Text)
      → read_line status p (trim ls) ≡ trim_right (read_line status p ls)
  unfolding read_line ◌>>=◌
  read_line-trim p ls =
      ap (λ r. or_fail status r >>= line_of status p) (read_required-trim ls)
      ∙ by_line p (read_required ls)
    where
      by_line :
          {A : Type 0} (p : Text → Option A) (r : Option (Text × List Text))
          → (or_fail status (trim_rest r) >>= line_of status p)
            ≡ trim_right (or_fail status r >>= line_of status p)
      by_line p none = refl
      by_line p (some (l, rest)) = elim (Option-cases (p l)) [
        | inl e ↦ rw e refl
        | inr e ↦ rw e.1 refl
      ]

  pub or_fail-trim :
      {A : Type 0} (r : Option (A × List Text))
      → or_fail status (trim_rest r) ≡ trim_right (or_fail status r)
  or_fail-trim none = refl
  or_fail-trim (some r) = refl
