-- ===== src/DockingDrag/Best/Order.antt =====
-- The order in which `HitTestDockTargets` of src/docking_drag.cpp prefers targets.
use mwfl.Prelude.{
  ◌≡◌, refl, sym, ap, subst, ◌⊎◌, inl, inr, true, false, arith, ltb, Bool-cases, ◌∙◌,
}
use mathlib.Core.Bool.{false≢true}
use mwfl.Prelude.Double.{Double, nan, negative_infinity, infinity, le_double}
use mwfl.DockingDrag.{
  Priority, above, below, lt_priority, eq_priority, lt_double, eq_double, DropTarget, is_better,
  area, Arithmetic,
}

le_double_trans :
    (a b c : Double) → le_double a b ≡ true → le_double b c ≡ true → le_double a c ≡ true
unfolding le_double
le_double_trans nan b c p q = cc
le_double_trans negative_infinity nan c p q = cc
le_double_trans negative_infinity negative_infinity c p q = q
le_double_trans negative_infinity b nan p q = grind arith
le_double_trans negative_infinity b c p q = refl
le_double_trans infinity nan c p q = cc
le_double_trans infinity infinity c p q = q
le_double_trans a b c p q = grind arith

lt_priority_trans :
    (p q r : Priority) → lt_priority p q ≡ true → lt_priority q r ≡ true → lt_priority p r ≡ true
lt_priority_trans (above a) (above b) (above c) x y = ground arith
lt_priority_trans (above a) (above b) (below c) x y = cc
lt_priority_trans (above a) (below b) r x y = cc
lt_priority_trans (below a) q (above c) x y = refl
lt_priority_trans (below a) (above b) (below c) x y = cc
lt_priority_trans (below a) (below b) (below c) x y = ground arith

eq_priority_same : (p q : Priority) → eq_priority p q ≡ true → p ≡ q
eq_priority_same (above a) (above b) e = ap above (ground arith)
eq_priority_same (above a) (below b) e = cc
eq_priority_same (below a) (above b) e = cc
eq_priority_same (below a) (below b) e = ap below (ground arith)

pub lt_priority_irrefl : (p : Priority) → lt_priority p p ≡ false
lt_priority_irrefl (above n) = ground arith
lt_priority_irrefl (below n) = ground arith

lt_double_trans :
    (a b c : Double) → lt_double a b ≡ true → lt_double b c ≡ true → lt_double a c ≡ true
lt_double_trans a b c p q = ground (arith, le_double_trans a b c, le_double_trans b c a)

eq_double_lt : (a b c : Double) → eq_double a b ≡ true → lt_double b c ≡ true → lt_double a c ≡ true
eq_double_lt a b c p q = ground (arith, le_double_trans a b c, le_double_trans c a b)

lt_double_eq : (a b c : Double) → lt_double a b ≡ true → eq_double b c ≡ true → lt_double a c ≡ true
lt_double_eq a b c p q = ground (arith, le_double_trans a b c, le_double_trans b c a)

eq_double_trans :
    (a b c : Double) → eq_double a b ≡ true → eq_double b c ≡ true → eq_double a c ≡ true
eq_double_trans a b c p q = ground (arith, le_double_trans a b c, le_double_trans c b a)

module _ ⦃ops : Arithmetic⦄ where
  -- The area, and then the ID, decide between targets of one priority.
  abbrev pub Smaller : DropTarget → DropTarget → Type 0
  Smaller t u =
      (lt_double (area t) (area u) ≡ true)
      ⊎ ((eq_double (area t) (area u) ≡ true) × (ltb t.id u.id ≡ true))

  abbrev pub Better : DropTarget → DropTarget → Type 0
  Better t u =
      (lt_priority u.priority t.priority ≡ true)
      ⊎ ((eq_priority t.priority u.priority ≡ true) × Smaller t u)

  to_Better : (t u : DropTarget) → is_better t u ≡ true → Better t u
  unfolding is_better
  to_Better t u e = ground arith

  pub of_Better : (t u : DropTarget) → Better t u → is_better t u ≡ true
  unfolding is_better
  of_Better t u (inl e) = ground arith
  of_Better t u (inr (e, inl f)) = ground arith
  of_Better t u (inr (e, inr (f, g))) = ground arith

  -- The order of the targets is transitive.
  Smaller-trans : (t u v : DropTarget) → Smaller t u → Smaller u v → Smaller t v
  Smaller-trans t u v (inl p) (inl q) = inl (lt_double_trans (area t) (area u) (area v) p q)
  Smaller-trans t u v (inl p) (inr (q, j)) = inl (lt_double_eq (area t) (area u) (area v) p q)
  Smaller-trans t u v (inr (p, i)) (inl q) = inl (eq_double_lt (area t) (area u) (area v) p q)
  Smaller-trans t u v (inr (p, i)) (inr (q, j)) =
      inr (eq_double_trans (area t) (area u) (area v) p q, ground arith)

  Better-trans : (t u v : DropTarget) → Better t u → Better u v → Better t v
  Better-trans t u v (inl p) (inl q) = inl (lt_priority_trans v.priority u.priority t.priority q p)
  Better-trans t u v (inl p) (inr (q, s)) =
      inl
        (subst (λ k. lt_priority k t.priority ≡ true) (eq_priority_same u.priority v.priority q) p)
  Better-trans t u v (inr (p, s)) (inl q) = inl (
      subst (λ k. lt_priority v.priority k ≡ true) (sym (eq_priority_same t.priority u.priority p))
        q)
  Better-trans t u v (inr (p, s)) (inr (q, r)) = inr (
    subst (λ k. eq_priority k v.priority ≡ true) (sym (eq_priority_same t.priority u.priority p)) q,
    Smaller-trans t u v s r,
  )

  is_better_trans :
      (t u v : DropTarget) → is_better t u ≡ true → is_better u v ≡ true → is_better t v ≡ true
  is_better_trans t u v p q = of_Better t v (Better-trans t u v (to_Better t u p) (to_Better u v q))

  -- A target that is not better than one is not better than what beats that one.
  pub not_better :
      (u t v : DropTarget) → is_better t v ≡ true → is_better u v ≡ false → is_better u t ≡ false
  not_better u t v e out = elim (Bool-cases (is_better u t)) [
    | inl f ↦ elim (false≢true (sym out ∙ is_better_trans u t v f e)) [ ]
    | inr f ↦ f
  ]

  pub is_better_irrefl : (t : DropTarget) → is_better t t ≡ false
  unfolding is_better
  is_better_irrefl t = ground (arith, lt_priority_irrefl t.priority)
