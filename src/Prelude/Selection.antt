-- ===== src/Prelude/Selection.antt =====
-- The selected entry of a list of entries with IDs, as the models of tabs and documents keep it.
use mathlib.Core.Option
use mathlib.Core.List.{mem-map_of_mem, not-mem-nil, mem-cons_of_mem, mem-cons_self}
use mathlib.Core.List.Perm
use Prim.Native.Nat.{ℕ, ◌-◌, ◌<◌, min}
use mathlib.Core.Path.{◌≡◌, refl, subst}
use mathlib.Core.Bool.{false}
use mathlib.Core.Option.{Option, none, some}
use mathlib.Core.List.{List, [], ◌∷◌, Mem, Perm}
use native.Mathlib.Omega.{arith}
use mathlib.Core.Logic.{inl, inr}
use mwfl.Prelude.Tests.{Bool-cases, if◌then◌else◌, opt_eq, is_some}
use mwfl.Prelude.Lists.{length, get_elem?, erase_idx, get_elem?_of_lt, mem_of_get_elem?}
use mwfl.Prelude.Elements.{heir, get_elem?-min-erase_idx}
use mwfl.Prelude.Keyed.{keys, mem_of_ne-erase_idx}

-- Nothing is selected if there is no entry, and otherwise the ID of one is.
abbrev pub Selects : Option ℕ → List ℕ → Type 0
Selects none ids = ids ≡ []
Selects (some id) ids = Mem id ids

pub Selects-perm : (o : Option ℕ) {xs ys : List ℕ} → Perm xs ys → Selects o xs → Selects o ys
Selects-perm none p s = Perm.eq-nil (Perm.symm (rw s at p))
Selects-perm (some k) p s = (Perm.mem_iff p).0 s

-- A new entry is selected where nothing was.
pub Selects-cons :
    (o : Option ℕ) (ids : List ℕ) (id : ℕ)
    → Selects o ids
    → Selects (if is_some o then o else some id) (id ∷ ids)
Selects-cons none ids id s = mem-cons_self
Selects-cons (some k) ids id s = mem-cons_of_mem id s

module _ {ℓ} {A : Type ℓ} (key : A → ℕ) where
  -- The ID of the entry that takes over at a position: the one there, or else the last one.
  unfoldable pub id_at : List A → ℕ → Option ℕ
  id_at xs i = Option.map key (get_elem? xs (min i (length xs - 1)))

  pub id_at-Selects : (xs : List A) (i : ℕ) → Selects (id_at xs i) (keys key xs)
  unfolding id_at
  id_at-Selects [] i = refl
  id_at-Selects (x ∷ xs) i =
      let (a, at) = get_elem?_of_lt (x ∷ xs) (min i (length (x ∷ xs) - 1)) (omega arith) in
      rw at (mem-map_of_mem key (mem_of_get_elem? (x ∷ xs) _ at))

  pub id_at-erase_idx :
      (xs : List A) (i : ℕ) → i < length xs → id_at (erase_idx xs i) i ≡ Option.map key (heir xs i)
  unfolding id_at
  id_at-erase_idx xs i h = rw (get_elem?-min-erase_idx xs i h) refl

  pub Selects-erase_idx :
      (o : Option ℕ) (xs : List A) (i : ℕ) (a : A)
      → get_elem? xs i ≡ some a
      → opt_eq o (some (key a)) ≡ false
      → Selects o (keys key xs)
      → Selects o (keys key (erase_idx xs i))
  unfolding opt_eq
  Selects-erase_idx none xs i a at e s =
      absurd (not-mem-nil (subst (Mem (key a)) s (mem-map_of_mem key (mem_of_get_elem? xs i at))))
  Selects-erase_idx (some k) xs i a at e s = mem_of_ne-erase_idx key k xs i at (ground arith) s

  -- The selection after an erasure: it moves on if it was erased.
  pub Selects-close :
      (o : Option ℕ) (xs : List A) (i id : ℕ) (a : A)
      → get_elem? xs i ≡ some a
      → key a ≡ id
      → Selects o (keys key xs)
      → Selects
          (if opt_eq o (some id) then id_at (erase_idx xs i) i else o)
          (keys key (erase_idx xs i))
  Selects-close o xs i id a at same s = elim (Bool-cases (opt_eq o (some id))) [
    | inl active ↦ rw active (id_at-Selects (erase_idx xs i) i)
    | inr other ↦ rw other (Selects-erase_idx o xs i a at (rw same other) s)
  ]
