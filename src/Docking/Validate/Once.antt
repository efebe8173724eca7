-- ===== src/Docking/Validate/Once.antt =====
-- A layout that `Validate` of src/docking_workspace.cpp accepts shows every panel exactly once.
use mathlib.Core.List.{
  perm_ext_iff_of_Nodup, perm_append_singleton, mem-cons, not-mem-nil, Nodup-nil, Nodup-cons,
  append_assoc, append-nil,
}
use mathlib.Core.List.Perm
use mathlib.Core.Logic.Or
use mwfl.Prelude.Searching.{any_none}
use mwfl.Prelude.Keyed.{mem_of_index_of}
use mathlib.Core.List.{Mem-prop}
use mwfl.Prelude.{
  Either-cases, ℕ, zero, suc, ◌≡◌, refl, subst, ◌≢◌, inl, inr, true, false, ◌||◌, some, List, [],
  ◌∷◌, ◌++◌, map, Mem, Nodup, Perm, arith, ◌==◌, if◌then◌else◌, Bool-cases, Option-cases, get_elem?,
  modify, any,
}
use mwfl.Prelude.Keyed.{contains, contains-mem, not-contains, index_of}
use mwfl.Docking.{GroupRole, Panel, Group, AutoHideEntry, Snapshot, success, panel_id}
use mwfl.Docking.Validate.{
  duplicate, has_duplicates, zeros, is_one, use_once, place_one, place_panels, place_groups,
  hide_one, place_hidden, all_one, validate,
}

-- The panels that the groups and the auto-hide entries show, in order.
abbrev pub shown_in_groups : List Group → List ℕ
shown_in_groups [] = []
shown_in_groups (g ∷ gs) = g.panels ++ shown_in_groups gs

abbrev pub entry_panel : AutoHideEntry → ℕ
entry_panel e = e.panel

abbrev pub shown_panels : Snapshot → List ℕ
shown_panels s = shown_in_groups s.groups ++ map entry_panel s.auto_hide

-- How often a panel has been shown so far.
abbrev use_of : List ℕ → Panel → ℕ
use_of placed p = if contains placed p.id then 1 else 0

-- The counters after the panels of a list have been placed.
abbrev uses_of : List ℕ → List Panel → List ℕ
uses_of placed = map (use_of placed)

contains-append_one :
    (xs : List ℕ) (y k : ℕ) → contains (xs ++ y ∷ []) k ≡ (contains xs k || (y == k))
unfolding contains
contains-append_one [] y k = ground arith
contains-append_one (x ∷ xs) y k = ground (arith, contains-append_one xs y k)

-- No ID of the list is the given one.
uses_of-other :
    (placed : List ℕ) (id : ℕ) (ps : List Panel)
    → any (λ k. id == k) (map panel_id ps) ≡ false
    → uses_of (placed ++ id ∷ []) ps ≡ uses_of placed ps
unfolding any
uses_of-other placed id [] h = refl
uses_of-other placed id (p ∷ ps) h =
    ground (arith, contains-append_one placed id p.id, uses_of-other placed id ps)

use_once-uses_of :
    (placed : List ℕ) (id : ℕ) (ps : List Panel) {i : ℕ} {bumped : List ℕ}
    → duplicate (map panel_id ps) ≡ false
    → index_of panel_id id ps ≡ some i
    → use_once (uses_of placed ps) i ≡ some bumped
    → (contains placed id ≡ false) × (bumped ≡ uses_of (placed ++ id ∷ []) ps)
unfolding use_once index_of duplicate modify
use_once-uses_of placed id [] d h e = ground arith
use_once-uses_of placed id (p ∷ ps) {i = zero} d h e =
    ground (arith, contains-append_one placed id p.id, uses_of-other placed id ps)
use_once-uses_of placed id (p ∷ ps) {i = suc i} {bumped = bumped} d h e =
    elim (Bool-cases (is_one (get_elem? (modify suc (uses_of placed ps) i) i))) [
      | inl one ↦
          let (fresh, same) =
            use_once-uses_of placed id ps {i = i} {bumped = modify suc (uses_of placed ps) i}
              (ground arith) (ground arith) (rw one refl) in
          (fresh, ground (arith, contains-append_one placed id p.id))
      | inr many ↦ ground arith
    ]

-- The list of the panels shown so far: none twice, all known, and counted.
record IsPlaced (ps : List Panel) (placed uses : List ℕ) : Type 0 where
  distinct : Nodup placed
  known : (k : ℕ) → Mem k placed → Mem k (map panel_id ps)
  counted : uses ≡ uses_of placed ps

module _ (ps : List Panel) (unique : duplicate (map panel_id ps) ≡ false) where
  place-use_once :
      (placed : List ℕ) (id : ℕ) {uses : List ℕ} {i : ℕ} {bumped : List ℕ}
      → IsPlaced ps placed uses
      → index_of panel_id id ps ≡ some i
      → use_once uses i ≡ some bumped
      → IsPlaced ps (placed ++ id ∷ []) bumped
  place-use_once placed id {i = i} {bumped = bumped} v at e =
      let (fresh, same) =
        use_once-uses_of placed id ps {i = i} {bumped = bumped} unique at
          (subst (λ u. use_once u i ≡ some bumped) v.counted e) in
      let shown : Perm (placed ++ id ∷ []) (id ∷ placed) = perm_append_singleton id placed in
      record {
        distinct =
            Perm.nodup (Perm.symm shown) (Nodup-cons.1 (not-contains placed id fresh, v.distinct));
        known = λ k m.
            Or.elim Mem-prop (mem-cons.0 ((Perm.mem_iff shown).0 m))
              (λ e. rw e (mem_of_index_of panel_id id ps at)) (v.known k);
        counted = same;
      }

  place-one :
      (role : GroupRole) (placed : List ℕ) (id : ℕ) {uses bumped : List ℕ}
      → IsPlaced ps placed uses
      → place_one ps role uses id ≡ some bumped
      → IsPlaced ps (placed ++ id ∷ []) bumped
  unfolding place_one
  place-one role placed id {uses = uses} {bumped = bumped} v e =
      elim (Option-cases (index_of panel_id id ps)) [
        | inl miss ↦ absurd (ground (arith, miss))
        | inr (i, at) ↦ place-use_once placed id {i = i} {bumped = bumped} v at (ground (arith, at))
      ]

  place-hide_one :
      (placed : List ℕ) (id : ℕ) {uses bumped : List ℕ}
      → IsPlaced ps placed uses
      → hide_one ps uses id ≡ some bumped
      → IsPlaced ps (placed ++ id ∷ []) bumped
  unfolding hide_one
  place-hide_one placed id {uses = uses} {bumped = bumped} v e =
      elim (Option-cases (index_of panel_id id ps)) [
        | inl miss ↦ absurd (ground (arith, miss))
        | inr (i, at) ↦ place-use_once placed id {i = i} {bumped = bumped} v at (ground (arith, at))
      ]

  place-nothing :
      (placed : List ℕ) {uses out : List ℕ}
      → IsPlaced ps placed uses
      → uses ≡ out
      → IsPlaced ps (placed ++ []) out
  place-nothing placed v e = simp (append-nil) (subst (IsPlaced ps placed) e v)

  place-panels :
      (role : GroupRole) (placed uses ids : List ℕ) {out : List ℕ}
      → IsPlaced ps placed uses
      → place_panels ps role uses ids ≡ inr out
      → IsPlaced ps (placed ++ ids) out
  unfolding place_panels
  place-panels role placed uses [] v e = place-nothing placed v (ground arith)
  place-panels role placed uses (id ∷ ids) {out = out} v e =
      elim (Option-cases (place_one ps role uses id)) [
        | inl miss ↦ absurd (ground (arith, miss))
        | inr (bumped, one) ↦
            subst (λ l. IsPlaced ps l out) (append_assoc placed (id ∷ []) ids)
              (place-panels role (placed ++ id ∷ []) bumped ids (place-one role placed id v one)
                (ground (arith, one)))
      ]

  place-groups :
      (placed uses : List ℕ) (gs : List Group) {out : List ℕ}
      → IsPlaced ps placed uses
      → place_groups ps uses gs ≡ inr out
      → IsPlaced ps (placed ++ shown_in_groups gs) out
  unfolding place_groups
  place-groups placed uses [] v e = place-nothing placed v (ground arith)
  place-groups placed uses (g ∷ gs) {out = out} v e =
      elim (Either-cases (place_panels ps g.role uses g.panels)) [
        | inl (status, miss) ↦ absurd (ground (arith, miss))
        | inr (bumped, one) ↦
            subst (λ l. IsPlaced ps l out) (append_assoc placed g.panels (shown_in_groups gs))
              (place-groups (placed ++ g.panels) bumped gs
                (place-panels g.role placed uses g.panels v one) (ground (arith, one)))
      ]

  place-hidden :
      (placed uses : List ℕ) (es : List AutoHideEntry) {out : List ℕ}
      → IsPlaced ps placed uses
      → place_hidden ps uses es ≡ some out
      → IsPlaced ps (placed ++ map entry_panel es) out
  unfolding place_hidden
  place-hidden placed uses [] v e = place-nothing placed v (ground arith)
  place-hidden placed uses (a ∷ es) {out = out} v e =
      elim (Option-cases (hide_one ps uses a.panel)) [
        | inl miss ↦ absurd (ground (arith, miss))
        | inr (bumped, one) ↦
            subst (λ l. IsPlaced ps l out) (append_assoc placed (a.panel ∷ []) (map entry_panel es))
              (place-hidden (placed ++ a.panel ∷ []) bumped es (place-hide_one placed a.panel v one)
                (ground (arith, one)))
      ]

duplicate-Nodup : (ids : List ℕ) → duplicate ids ≡ false → Nodup ids
unfolding duplicate
duplicate-Nodup [] h = Nodup-nil
duplicate-Nodup (x ∷ xs) h = Nodup-cons.1 (
  λ m. absurd (ground (arith, any_none (λ y. x == y) xs (ground arith) x m)),
  duplicate-Nodup xs (ground arith),
)

all_one-Mem :
    (placed : List ℕ) (ps : List Panel)
    → all_one (uses_of placed ps) ≡ true
    → (k : ℕ) → Mem k (map panel_id ps)
    → Mem k placed
unfolding all_one any
all_one-Mem placed [] h k m = absurd (not-mem-nil m)
all_one-Mem placed (p ∷ ps) h k m =
    Or.elim Mem-prop (mem-cons.0 m) (λ e. rw e (contains-mem placed p.id (ground arith)))
      (all_one-Mem placed ps (ground arith) k)

placed-perm :
    (ps : List Panel) (placed : List ℕ) {uses : List ℕ}
    → duplicate (map panel_id ps) ≡ false
    → IsPlaced ps placed uses
    → all_one uses ≡ true
    → Perm placed (map panel_id ps)
placed-perm ps placed unique v one =
    (perm_ext_iff_of_Nodup v.distinct (duplicate-Nodup (map panel_id ps) unique)).1
      (λ k. (v.known k, all_one-Mem placed ps (subst (λ u. all_one u ≡ true) v.counted one) k))

zeros-IsPlaced : (ps : List Panel) → IsPlaced ps [] (zeros ps)
unfolding zeros contains
zeros-IsPlaced ps = record {
  distinct = Nodup-nil;
  known = λ k m. absurd (not-mem-nil m);
  counted = refl;
}

place_panels-refusal :
    (ps : List Panel) (role : GroupRole) (uses ids : List ℕ)
    → place_panels ps role uses ids ≢ inl success
unfolding place_panels
place_panels-refusal ps role uses [] = λ e. cc
place_panels-refusal ps role uses (id ∷ ids) = λ e.
    elim (Option-cases (place_one ps role uses id)) [
      | inl miss ↦ ground (arith, miss)
      | inr (bumped, one) ↦ place_panels-refusal ps role bumped ids (ground (arith, one))
    ]

place_groups-refusal :
    (ps : List Panel) (uses : List ℕ) (gs : List Group) → place_groups ps uses gs ≢ inl success
unfolding place_groups
place_groups-refusal ps uses [] = λ e. cc
place_groups-refusal ps uses (g ∷ gs) = λ e.
    elim (Either-cases (place_panels ps g.role uses g.panels)) [
      | inl (status, miss) ↦ place_panels-refusal ps g.role uses g.panels (ground (arith, miss))
      | inr (bumped, one) ↦ place_groups-refusal ps bumped gs (ground (arith, one))
    ]

-- In a layout that `Validate` accepts, the groups and the auto-hide entries together show every
-- panel exactly once, and nothing else.
pub validate-once :
    (s : Snapshot) → validate s ≡ success → Perm (shown_panels s) (map panel_id s.panels)
unfolding validate has_duplicates
validate-once s h = elim (Either-cases (place_groups s.panels (zeros s.panels) s.groups)) [
  | inl (status, miss) ↦
      absurd (place_groups-refusal s.panels (zeros s.panels) s.groups (ground (arith, miss)))
  | inr (uses, placed) ↦ elim (Option-cases (place_hidden s.panels uses s.auto_hide)) [
    | inl miss ↦ absurd (ground (arith, placed, miss))
    | inr (out, hidden) ↦
        placed-perm s.panels (shown_panels s) {uses = out} (ground (arith, placed, hidden))
          (place-hidden s.panels (ground arith) (shown_in_groups s.groups) uses s.auto_hide
            (place-groups s.panels (ground arith) [] (zeros s.panels) s.groups
              (zeros-IsPlaced s.panels) placed)
            hidden)
          (ground (arith, placed, hidden))
  ]
]
