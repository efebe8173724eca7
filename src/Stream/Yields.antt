-- ===== src/Stream/Yields.antt =====
-- What holds of every value that an extraction or a parsed line of the two session formats gives:
-- src/docking_session.cpp and src/document_session.cpp.
use mwfl.Prelude.{
  ℕ, zero, suc, ◌≡◌, refl, inl, inr, Bool, true, false, Option, some, arith, Text, List, [], ◌∷◌,
  Option-cases, ◌&&◌, All, subst,
}
use mwfl.Stream.{Parser, ◌>>=◌, pure_if, finish, value_of, done_if}
use mwfl.Stream.Lines.{read_required, read_records}

-- Every value that the parser gives has the property.
abbrev pub Yields : {A : Type 0} → (A → Type 0) → Parser A → Type 0
Yields {A} P p = (t : Text) (a : A) (rest : Text) → p t ≡ some (a, rest) → P a

module _ {A B : Type 0} (P : A → Type 0) (Q : B → Type 0) where
  pub bind-Yields :
      (p : Parser A) (f : A → Parser B)
      → Yields P p
      → ((a : A) → P a → Yields Q (f a))
      → Yields Q (p >>= f)
  unfolding ◌>>=◌
  bind-Yields p f hp hf t b rest e = elim (Option-cases (p t)) [
    | inl miss ↦ absurd (ground (arith, e, miss))
    | inr ((a, left), hit) ↦ hf a (hp t a left hit) left b rest (ground (arith, e, hit))
  ]

module _ {A : Type 0} (P : A → Type 0) where
  pub pure_if-Yields : (test : Bool) (a : A) → (test ≡ true → P a) → Yields P (pure_if test a)
  pure_if-Yields true a k t b rest e = subst P (ground (arith, e)) (k refl)
  pure_if-Yields false a k t b rest e = cc

  pub done_if-Yields : (test : Bool) (a : A) → (test ≡ true → P a) → Yields P (done_if test a)
  done_if-Yields test a k t b rest e =
      pure_if-Yields (test && finish t) a (λ h. k (ground (arith, h))) t b rest e

  pub value_of-Yields :
      (p : Parser A) → Yields P p → (t : Text) (a : A) → value_of (p t) ≡ some a → P a
  value_of-Yields p k t a e = elim (Option-cases (p t)) [
    | inl miss ↦ absurd (ground (arith, e, miss))
    | inr ((b, rest), hit) ↦ subst P (ground (arith, e, hit)) (k t b rest hit)
  ]

-- A bind whose first value does not matter.
pub then-Yields :
    {A B : Type 0} (Q : B → Type 0) (p : Parser A) (f : A → Parser B)
    → ((a : A) → Yields Q (f a))
    → Yields Q (p >>= f)
then-Yields Q p f k = bind-Yields (λ a. Unit) Q p f (λ t a rest e. tt) (λ a u. k a)

-- The records that are read have what the parser of a line gives.
pub read_records-All :
    {A : Type 0} (P : A → Type 0) (p : Text → Option A)
    → ((l : Text) (a : A) → p l ≡ some a → P a)
    → (n : ℕ) (ls : List Text) (xs : List A) (rest : List Text)
    → read_records p n ls ≡ some (xs, rest)
    → All P xs
unfolding read_records
read_records-All P p k zero ls xs rest e = subst (All P) {x = []} (ground (arith, e)) tt
read_records-All P p k (suc n) ls xs rest e = elim (Option-cases (read_required ls)) [
  | inl miss ↦ absurd (ground (arith, e, miss))
  | inr ((l, left), hit) ↦ elim (Option-cases (p l)) [
    | inl miss ↦ absurd (ground (arith, e, hit, miss))
    | inr (a, found) ↦ elim (Option-cases (read_records p n left)) [
      | inl miss ↦ absurd (ground (arith, e, hit, found, miss))
      | inr ((ys, others), more) ↦
          subst (All P) {x = a ∷ ys} (ground (arith, e, hit, found, more))
            (k l a found, read_records-All P p k n left ys others more)
    ]
  ]
]
