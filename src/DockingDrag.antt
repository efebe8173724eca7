-- ===== src/DockingDrag.antt =====
-- The targets of a drag and their hit test: src/docking_drag.cpp and include/mwfl/docking_drag.h. The
-- arithmetic of the target rectangles is a parameter.
pub mod Best
pub mod Commit
pub mod Session
mod Tests
use mwfl.Prelude.{
  ℕ, zero, suc, ◌+◌, ◌-◌, ◌*◌, ◌/◌, ◌%◌, ◌^◌, ◌≤◌, ◌<◌, min, max, ◌≡◌, refl, sym, ap, subst, ◌∙◌,
  ◌≢◌, ◌↔◌, ◌⊎◌, inl, inr, Bool, true, false, not, ◌&&◌, ◌||◌, Option, none, some, List, [], ◌∷◌,
  ◌++◌, map, Mem, Nodup, Perm, arith, Text, u64_mod, next_u64, ltb, leb, ◌==◌, if◌then◌else◌,
  ltb→lt, lt→ltb, leb→le, ==_iff, ==_refl, Bool-cases, Option-cases, Either-cases, text_eq,
  text_eq_iff, opt_eq, codes, is_nil, is_some, length, get_elem?, take, drop, insert_at, erase_idx,
  modify, find_index, find, any, erase_if, length-append, length-take, length-drop,
  length-insert_at, length-erase_idx, length-modify, get_elem?-insert_at_self, erase_idx-insert_at,
  get_elem?_of_lt, lt-length_of_get_elem?, mem_of_get_elem?, insert_at-perm, erase_idx-perm,
  find_index_sound, find_index-any, length-map, get_elem?-map, map-insert_at, map-erase_idx,
  map-modify, shift, All, All-append, All-insert_at, All-erase_idx, All-modify, All-take,
  All-erase_if, All-get_elem?, All-mono, text_eq_comm, get_elem?-erase_idx_lt,
  get_elem?-erase_idx_le, heir, get_elem?-min-erase_idx,
}
use mwfl.Prelude.Double.{Double, is_finite, le_double, plus, of_ℕ}
use mwfl.Docking.{Edge}

-- The sum and the product of two doubles.
pub record Arithmetic : Type 0 where
  pub add_double : Double → Double → Double
  pub multiply : Double → Double → Double

pub record Point : Type 0 where
  pub x : Double
  pub y : Double

pub record Rect : Type 0 where
  pub x : Double
  pub y : Double
  pub width : Double
  pub height : Double

pub data TargetKind : Type 0 where
  tab_group split auto_hide floating : TargetKind

-- An `int`: `below n` is -(n + 1).
pub data Priority : Type 0 where
  above below : ℕ → Priority

pub record DropTarget : Type 0 where
  pub id : ℕ
  pub kind : TargetKind
  pub bounds : Rect
  pub group : ℕ
  pub edge : Edge
  pub priority : Priority
  pub enabled : Bool

-- `a < b`, which is false for a NaN.
abbrev pub lt_double : Double → Double → Bool
lt_double a b = le_double a b && not (le_double b a)

abbrev pub eq_double : Double → Double → Bool
eq_double a b = le_double a b && le_double b a

abbrev pub lt_priority : Priority → Priority → Bool
lt_priority (above n) (above m) = ltb n m
lt_priority (above n) (below m) = false
lt_priority (below n) (above m) = true
lt_priority (below n) (below m) = ltb m n

abbrev pub eq_priority : Priority → Priority → Bool
eq_priority p q = not (lt_priority p q) && not (lt_priority q p)

-- `DockRectDip::IsValid`.
unfoldable pub rect_is_valid : Rect → Bool
rect_is_valid r =
    is_finite r.x
    && is_finite r.y
    && is_finite r.width
    && is_finite r.height
    && lt_double (plus 0) r.width
    && lt_double (plus 0) r.height
    && le_double r.width (of_ℕ 100000)
    && le_double r.height (of_ℕ 100000)

abbrev pub needs_group : TargetKind → Bool
needs_group tab_group = true
needs_group split = true
needs_group kind = false

module _ ⦃ops : Arithmetic⦄ where
  -- `DockRectDip::Contains`.
  unfoldable pub contains_point : Rect → Point → Bool
  contains_point r p =
      rect_is_valid r
      && is_finite p.x
      && is_finite p.y
      && le_double r.x p.x
      && le_double r.y p.y
      && lt_double p.x (ops.add_double r.x r.width)
      && lt_double p.y (ops.add_double r.y r.height)

  -- The targets that the loop does not skip.
  unfoldable pub is_candidate : Point → DropTarget → Bool
  is_candidate p t =
      t.enabled
      && not (t.id == 0)
      && contains_point t.bounds p
      && not (needs_group t.kind && (t.group == 0))

  abbrev pub area : DropTarget → Double
  area t = ops.multiply t.bounds.width t.bounds.height

  -- Whether a target replaces the best one so far.
  unfoldable pub is_better : DropTarget → DropTarget → Bool
  is_better t best =
      lt_priority best.priority t.priority
      || (eq_priority t.priority best.priority && lt_double (area t) (area best))
      || (eq_priority t.priority best.priority
          && eq_double (area t) (area best)
          && ltb t.id best.id)

  abbrev pub better : DropTarget → Option DropTarget → Option DropTarget
  better t none = some t
  better t (some best) = if is_better t best then some t else some best

  -- The loop of `HitTestDockTargets`, with the best target so far.
  unfoldable pub hit_from : Point → Option DropTarget → List DropTarget → Option DropTarget
  hit_from p best [] = best
  hit_from p best (t ∷ ts) = hit_from p (if is_candidate p t then better t best else best) ts

  unfoldable pub hit_test : Point → List DropTarget → Option DropTarget
  hit_test p ts = hit_from p none ts
