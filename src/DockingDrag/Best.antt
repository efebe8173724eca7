-- ===== src/DockingDrag/Best.antt =====
-- Which target a hit test takes: `HitTestDockTargets` of src/docking_drag.cpp.
pub mod Order
use mwfl.Prelude.{
  ◌≡◌, refl, sym, ap, subst, ◌⊎◌, inl, inr, true, false, ◌&&◌, Option, none, some, List, [], ◌∷◌,
  Mem, arith, ℕ, ◌<◌, ◌≢◌, ◌↔◌, not, ◌==◌, lt→ltb, ltb, Bool-cases, All, All-append, All-mono, ◌++◌,
  ◌∙◌,
}
use mathlib.Core.List.{append_assoc, append-nil, mem-append_left, mem-append_right, mem-cons_self}
use mathlib.Core.Bool.{false≢true}
use mwfl.Prelude.Double.{is_finite, Double, nan, negative_infinity, infinity, le_double}
use mwfl.DockingDrag.{
  Priority, above, below, lt_priority, eq_priority, lt_double, eq_double, DropTarget, is_better,
  is_candidate, better, hit_from, hit_test, area, Arithmetic, Point, Rect, TargetKind, tab_group,
  split, auto_hide, floating, needs_group, contains_point, rect_is_valid,
}
use mwfl.DockingDrag.Best.Order.{lt_priority_irrefl, of_Better, is_better_irrefl, not_better}

module _ ⦃ops : Arithmetic⦄ where
  module _ (p : Point) where
    -- What the loop knows of the targets that it has seen.
    abbrev Chosen : List DropTarget → Option DropTarget → Type 0
    Chosen ts none = All (λ u. is_candidate p u ≡ false) ts
    Chosen ts (some t) =
        Mem t ts
        × (is_candidate p t ≡ true)
        × All (λ u. is_candidate p u && is_better u t ≡ false) ts

    -- A target that is skipped.
    kept :
        (ts : List DropTarget) (t : DropTarget) (best : Option DropTarget)
        → is_candidate p t ≡ false
        → Chosen ts best
        → Chosen (ts ++ (t ∷ [])) best
    kept ts t none out b = All-append (λ u. is_candidate p u ≡ false) ts (t ∷ []) b (out, tt)
    kept ts t (some k) out (m, c, b) = (
      mem-append_left (t ∷ []) m,
      c,
      All-append (λ u. is_candidate p u && is_better u k ≡ false) ts (t ∷ []) b
          (ground (arith, out), tt),
    )

    -- A candidate, which is taken where it is better.
    taken :
        (ts : List DropTarget) (t : DropTarget) (best : Option DropTarget)
        → is_candidate p t ≡ true
        → Chosen ts best
        → Chosen (ts ++ (t ∷ [])) (better t best)
    taken ts t none fits b = (
      mem-append_right ts mem-cons_self,
      fits,
      All-append (λ u. is_candidate p u && is_better u t ≡ false) ts (t ∷ [])
          (All-mono (λ u out. ground (arith, out)) ts b) (ground (arith, is_better_irrefl t), tt),
    )
    taken ts t (some k) fits (m, c, b) = elim (Bool-cases (is_better t k)) [
      | inl e ↦ rw e (
        mem-append_right ts mem-cons_self,
        fits,
        All-append (λ u. is_candidate p u && is_better u t ≡ false) ts (t ∷ [])
            (All-mono (λ u keep. ground (arith, keep, not_better u t k e)) ts b)
            (ground (arith, is_better_irrefl t), tt),
      )
      | inr e ↦ rw e (
        mem-append_left (t ∷ []) m,
        c,
        All-append (λ u. is_candidate p u && is_better u k ≡ false) ts (t ∷ []) b
            (ground (arith, e), tt),
      )
    ]

    hit_from-Chosen :
        (seen ts : List DropTarget) (best : Option DropTarget)
        → Chosen seen best
        → Chosen (seen ++ ts) (hit_from p best ts)
    unfolding hit_from
    hit_from-Chosen seen [] best b = subst (λ l. Chosen l best) (sym (append-nil seen)) b
    hit_from-Chosen seen (t ∷ ts) best b = elim (Bool-cases (is_candidate p t)) [
      | inl e ↦ rw e (
          subst (λ l. Chosen l (hit_from p (better t best) ts)) (append_assoc seen (t ∷ []) ts)
            (hit_from-Chosen (seen ++ (t ∷ [])) ts (better t best) (taken seen t best e b)))
      | inr e ↦ rw e (
          subst (λ l. Chosen l (hit_from p best ts)) (append_assoc seen (t ∷ []) ts)
            (hit_from-Chosen (seen ++ (t ∷ [])) ts best (kept seen t best e b)))
    ]

    -- A point in a rectangle that is not degenerate: its left and top sides belong to it, the others
    -- do not.
    abbrev pub Inside : Rect → Type 0
    Inside r =
        (rect_is_valid r ≡ true)
        × (is_finite p.x ≡ true)
        × (is_finite p.y ≡ true)
        × (le_double r.x p.x ≡ true)
        × (le_double r.y p.y ≡ true)
        × (lt_double p.x (ops.add_double r.x r.width) ≡ true)
        × (lt_double p.y (ops.add_double r.y r.height) ≡ true)

    -- A target under the point that is enabled and has an ID, and a group where its kind needs one.
    abbrev pub CanTake : DropTarget → Type 0
    CanTake u =
        (u.enabled ≡ true)
        × (u.id ≢ 0)
        × ((u.kind ≡ auto_hide) ⊎ (u.kind ≡ floating) ⊎ (u.group ≢ 0))
        × Inside u.bounds

    -- A higher priority, or the same one and a smaller area, or the same area too and a smaller ID.
    abbrev pub Beats : DropTarget → DropTarget → Type 0
    Beats u t =
        (lt_priority t.priority u.priority ≡ true)
        ⊎ ((u.priority ≡ t.priority)
            × ((lt_double (area u) (area t) ≡ true)
                ⊎ ((eq_double (area u) (area t) ≡ true) × (u.id < t.id))))

    abbrev pub Best : List DropTarget → Option DropTarget → Type 0
    Best ts none = All (λ u. ¬ CanTake u) ts
    Best ts (some t) = Mem t ts × CanTake t × All (λ u. ¬ (CanTake u × Beats u t)) ts

    has_group :
        (k : TargetKind) (g : ℕ)
        → needs_group k && (g == 0) ≡ false
        → (k ≡ auto_hide) ⊎ (k ≡ floating) ⊎ (g ≢ 0)
    has_group tab_group g e = inr (inr (ground arith))
    has_group split g e = inr (inr (ground arith))
    has_group auto_hide g e = inl refl
    has_group floating g e = inr (inl refl)

    grouped :
        (k : TargetKind) (g : ℕ)
        → (k ≡ auto_hide) ⊎ (k ≡ floating) ⊎ (g ≢ 0)
        → needs_group k && (g == 0) ≡ false
    grouped k g (inl e) = subst (λ x. needs_group x && (g == 0) ≡ false) (sym e) refl
    grouped k g (inr (inl e)) = subst (λ x. needs_group x && (g == 0) ≡ false) (sym e) refl
    grouped k g (inr (inr n)) = ground (arith, n)

    contains-Inside : (r : Rect) → contains_point r p ≡ true → Inside r
    unfolding contains_point
    contains-Inside r e = (
      ground arith,
      ground arith,
      ground arith,
      ground arith,
      ground arith,
      ground arith,
      ground arith,
    )

    Inside-contains : (r : Rect) → Inside r → contains_point r p ≡ true
    unfolding contains_point
    Inside-contains r (valid, fx, fy, left, top, right, bottom) =
        ground (arith, valid, fx, fy, left, top, right, bottom)

    is_candidate-CanTake : (u : DropTarget) → is_candidate p u ≡ true → CanTake u
    unfolding is_candidate
    is_candidate-CanTake u e = (
      ground arith,
      ground arith,
      has_group u.kind u.group (ground arith),
      contains-Inside u.bounds (ground arith),
    )

    CanTake-is_candidate : (u : DropTarget) → CanTake u → is_candidate p u ≡ true
    unfolding is_candidate
    CanTake-is_candidate u (on, id, group, inside) =
        ground (arith, on, id, grouped u.kind u.group group, Inside-contains u.bounds inside)

    same_priority :
        (u t : DropTarget) → u.priority ≡ t.priority → eq_priority u.priority t.priority ≡ true
    same_priority u t e =
        subst (λ k. eq_priority u.priority k ≡ true) e
          (ground (arith, lt_priority_irrefl u.priority))

    Beats-is_better : (u t : DropTarget) → Beats u t → is_better u t ≡ true
    Beats-is_better u t (inl e) = of_Better u t (inl e)
    Beats-is_better u t (inr (e, inl a)) = of_Better u t (inr (same_priority u t e, inl a))
    Beats-is_better u t (inr (e, inr (a, i))) =
        of_Better u t (inr (same_priority u t e, inr (a, lt→ltb u.id t.id i)))

    Chosen-Best : (ts : List DropTarget) (best : Option DropTarget) → Chosen ts best → Best ts best
    Chosen-Best ts none b =
        All-mono (λ u out can. ground (arith, out, CanTake-is_candidate u can)) ts b
    Chosen-Best ts (some t) (m, c, b) = (
      m,
      is_candidate-CanTake t c,
      All-mono
          (λ u out (can, beats).
            ground (arith, out, CanTake-is_candidate u can, Beats-is_better u t beats))
          ts b,
    )

    -- A hit test finds no target only where none of those given is enabled, has an ID, has a group if
    -- its kind needs one, and has the point inside its bounds. A target that it finds is one of those
    -- given and meets these conditions, and no other that meets them beats it: by a higher priority,
    -- or by a smaller area at the same priority, or by a smaller ID at the same area too.
    pub hit_test-Best : (ts : List DropTarget) → Best ts (hit_test p ts)
    unfolding hit_test
    hit_test-Best ts = Chosen-Best ts (hit_test p ts) (hit_from-Chosen [] ts none tt)
