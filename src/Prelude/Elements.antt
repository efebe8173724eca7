-- ===== src/Prelude/Elements.antt =====
-- Properties of every element of a list, and reading next to an erased element.
use Prim.Native.Nat.{ℕ, zero, suc, ◌-◌, ◌≤◌, ◌<◌, min}
use mathlib.Core.Path.{◌≡◌, refl, subst}
use mathlib.Core.Logic.{inl, inr}
use mathlib.Core.Bool.{Bool}
use mathlib.Core.Option.{Option, none, some, some-injective}
use mathlib.Core.List.{List, [], ◌∷◌, ◌++◌}
use native.Mathlib.Omega.{arith}
use mwfl.Prelude.Tests.{Bool-cases, if◌then◌else◌, ltb}
use mwfl.Prelude.Lists.{
  length-erase_idx, length, get_elem?, take, insert_at, erase_idx, modify, erase_if,
}

-- Every element has the property.
abbrev pub All {ℓ κ} : {A : Type ℓ} → (A → Type κ) → List A → Type κ
All P [] = Unit
All P (x ∷ xs) = P x × All P xs

pub All-mono {ℓ κ μ} :
    {A : Type ℓ} {P : A → Type κ} {Q : A → Type μ}
    → ((a : A) → P a → Q a)
    → (xs : List A) → All P xs
    → All Q xs
All-mono k [] h = tt
All-mono k (x ∷ xs) h = (k x h.0, All-mono k xs h.1)

module _ {ℓ κ} {A : Type ℓ} (P : A → Type κ) where
  pub All-append : (xs ys : List A) → All P xs → All P ys → All P (xs ++ ys)
  All-append [] ys hx hy = hy
  All-append (x ∷ xs) ys hx hy = (hx.0, All-append xs ys hx.1 hy)

  pub All-insert_at : (xs : List A) (i : ℕ) (a : A) → P a → All P xs → All P (insert_at xs i a)
  unfolding insert_at
  All-insert_at xs zero a p h = (p, h)
  All-insert_at [] (suc i) a p h = (p, tt)
  All-insert_at (x ∷ xs) (suc i) a p h = (h.0, All-insert_at xs i a p h.1)

  pub All-erase_idx : (xs : List A) (i : ℕ) → All P xs → All P (erase_idx xs i)
  unfolding erase_idx
  All-erase_idx [] i h = tt
  All-erase_idx (x ∷ xs) zero h = h.1
  All-erase_idx (x ∷ xs) (suc i) h = (h.0, All-erase_idx xs i h.1)

  pub All-modify :
      (f : A → A)
      → ((a : A) → P a → P (f a))
      → (xs : List A) (i : ℕ) → All P xs
      → All P (modify f xs i)
  unfolding modify
  All-modify f k [] i h = tt
  All-modify f k (x ∷ xs) zero h = (k x h.0, h.1)
  All-modify f k (x ∷ xs) (suc i) h = (h.0, All-modify f k xs i h.1)

  pub All-take : (n : ℕ) (xs : List A) → All P xs → All P (take n xs)
  All-take zero xs h = tt
  All-take (suc n) [] h = tt
  All-take (suc n) (x ∷ xs) h = (h.0, All-take n xs h.1)

  pub All-erase_if : (p : A → Bool) (xs : List A) → All P xs → All P (erase_if p xs)
  unfolding erase_if
  All-erase_if p [] h = tt
  All-erase_if p (x ∷ xs) h = ground (arith, All-erase_if p xs h.1)

  pub All-get_elem? : (xs : List A) (i : ℕ) {a : A} → get_elem? xs i ≡ some a → All P xs → P a
  All-get_elem? [] i e h = cc
  All-get_elem? (x ∷ xs) zero e h = subst P (some-injective x _ e) h.0
  All-get_elem? (x ∷ xs) (suc i) e h = All-get_elem? xs i e h.1

module _ {ℓ} {A : Type ℓ} where
  pub get_elem?-erase_idx_lt :
      (xs : List A) (i j : ℕ) → j < i → get_elem? (erase_idx xs i) j ≡ get_elem? xs j
  unfolding erase_idx
  get_elem?-erase_idx_lt [] i j h = refl
  get_elem?-erase_idx_lt (x ∷ xs) zero j h = elim h [ ]
  get_elem?-erase_idx_lt (x ∷ xs) (suc i) zero h = refl
  get_elem?-erase_idx_lt (x ∷ xs) (suc i) (suc j) h = get_elem?-erase_idx_lt xs i j (omega arith)

  pub get_elem?-erase_idx_le :
      (xs : List A) (i j : ℕ) → i ≤ j → get_elem? (erase_idx xs i) j ≡ get_elem? xs (suc j)
  unfolding erase_idx
  get_elem?-erase_idx_le [] i j h = refl
  get_elem?-erase_idx_le (x ∷ xs) zero j h = refl
  get_elem?-erase_idx_le (x ∷ xs) (suc i) zero h = absurd (omega arith)
  get_elem?-erase_idx_le (x ∷ xs) (suc i) (suc j) h = get_elem?-erase_idx_le xs i j (omega arith)

  -- The position that takes over where one was erased: the same, or else the last.
  unfoldable pub heir : List A → ℕ → Option A
  heir xs i =
      if ltb (suc i) (length xs)
      then get_elem? xs (suc i)
      else if ltb 0 i
      then get_elem? xs (i - 1)
      else none

  min_mid : (xs : List A) (i : ℕ) → suc i < length xs → min i (length (erase_idx xs i) - 1) ≡ i
  min_mid xs i h = omega (arith, length-erase_idx xs i (omega arith))

  min_end : (xs : List A) (i : ℕ) → suc i ≡ length xs → min i (length (erase_idx xs i) - 1) ≡ i - 1
  min_end xs i h = omega (arith, length-erase_idx xs i (omega arith))

  erase_last : (xs : List A) → 1 ≡ length xs → get_elem? (erase_idx xs 0) 0 ≡ none
  unfolding erase_idx
  erase_last [] h = refl
  erase_last (x ∷ []) h = refl
  erase_last (x ∷ y ∷ ys) h = absurd (omega arith)

  pub get_elem?-min-erase_idx :
      (xs : List A) (i : ℕ)
      → i < length xs
      → get_elem? (erase_idx xs i) (min i (length (erase_idx xs i) - 1)) ≡ heir xs i
  unfolding heir
  get_elem?-min-erase_idx xs i h = elim (Bool-cases (ltb (suc i) (length xs))) [
    | inl mid ↦ rw (mid, min_mid xs i (ground arith)) (get_elem?-erase_idx_le xs i i (omega arith))
    | inr end ↦ rw (end, min_end xs i (ground arith)) (at_end i h (ground arith))
  ]
    where
      at_end :
          (i : ℕ)
          → i < length xs
          → suc i ≡ length xs
          → get_elem? (erase_idx xs i) (i - 1) ≡ (if ltb 0 i then get_elem? xs (i - 1) else none)
      at_end zero h e = erase_last xs e
      at_end (suc k) h e =
          ground (arith, get_elem?-erase_idx_lt xs (suc k) (suc k - 1) (omega arith))
