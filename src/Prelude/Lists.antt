-- ===== src/Prelude/Lists.antt =====
-- `std::vector` and the standard algorithms over it, with native numbers for the positions.
use Prim.Native.Nat.{ℕ, zero, suc, ◌+◌, ◌-◌, ◌≤◌, ◌<◌, min}
use mathlib.Core.Path.{◌≡◌, refl, ap}
use mathlib.Core.Logic.Or
use mathlib.Core.Bool.{Bool, true, false, ◌||◌}
use mathlib.Core.Option.{Option, none, some}
use mathlib.Core.Option
use mathlib.Core.List.{List, [], ◌∷◌, ◌++◌, map, Mem, mem-cons, mem-cons_of_mem, Perm}
use mathlib.Core.List.Perm
use native.Mathlib.Omega.{arith}
use mwfl.Prelude.Tests.{is_some, if◌then◌else◌}

-- A position in a list, counted from one element further to the left.
abbrev pub shift : Option ℕ → Option ℕ
shift none = none
shift (some i) = some (suc i)

module _ {ℓ} {A : Type ℓ} where
  abbrev pub length : List A → ℕ
  length [] = 0
  length (x ∷ xs) = suc (length xs)

  abbrev pub get_elem? : List A → ℕ → Option A
  get_elem? [] i = none
  get_elem? (x ∷ xs) zero = some x
  get_elem? (x ∷ xs) (suc i) = get_elem? xs i

  abbrev pub take : ℕ → List A → List A
  take zero xs = []
  take (suc n) [] = []
  take (suc n) (x ∷ xs) = x ∷ take n xs

  abbrev pub drop : ℕ → List A → List A
  drop zero xs = xs
  drop (suc n) [] = []
  drop (suc n) (x ∷ xs) = drop n xs

  -- `insert(begin() + i, a)`; the callers keep `i` within the size.
  unfoldable pub insert_at : List A → ℕ → A → List A
  insert_at xs zero a = a ∷ xs
  insert_at [] (suc i) a = a ∷ []
  insert_at (x ∷ xs) (suc i) a = x ∷ insert_at xs i a

  -- `erase(begin() + i)`; the callers keep `i` below the size.
  unfoldable pub erase_idx : List A → ℕ → List A
  erase_idx [] i = []
  erase_idx (x ∷ xs) zero = xs
  erase_idx (x ∷ xs) (suc i) = x ∷ erase_idx xs i

  -- A write through the pointer to the element at `i`.
  unfoldable pub modify : (A → A) → List A → ℕ → List A
  modify f [] i = []
  modify f (x ∷ xs) zero = f x ∷ xs
  modify f (x ∷ xs) (suc i) = x ∷ modify f xs i

  -- The position of the first hit of `std::find_if`, and the element there.
  unfoldable pub find_index : (A → Bool) → List A → Option ℕ
  find_index p [] = none
  find_index p (x ∷ xs) = if p x then some 0 else shift (find_index p xs)

  unfoldable pub find : (A → Bool) → List A → Option A
  find p [] = none
  find p (x ∷ xs) = if p x then some x else find p xs

  -- `std::ranges::any_of`.
  unfoldable pub any : (A → Bool) → List A → Bool
  any p [] = false
  any p (x ∷ xs) = p x || any p xs

  -- `std::erase_if` keeps the elements that fail the test.
  unfoldable pub erase_if : (A → Bool) → List A → List A
  erase_if p [] = []
  erase_if p (x ∷ xs) = if p x then erase_if p xs else x ∷ erase_if p xs

  pub length-append : (xs ys : List A) → length (xs ++ ys) ≡ length xs + length ys
  length-append [] ys = omega arith
  length-append (x ∷ xs) ys = omega (arith, length-append xs ys)

  pub length-take : (n : ℕ) (xs : List A) → length (take n xs) ≡ min n (length xs)
  length-take zero xs = omega arith
  length-take (suc n) [] = omega arith
  length-take (suc n) (x ∷ xs) = omega (arith, length-take n xs)

  pub length-drop : (n : ℕ) (xs : List A) → length (drop n xs) ≡ length xs - n
  length-drop zero xs = omega arith
  length-drop (suc n) [] = omega arith
  length-drop (suc n) (x ∷ xs) = omega (arith, length-drop n xs)

  pub length-insert_at : (xs : List A) (i : ℕ) (a : A) → length (insert_at xs i a) ≡ suc (length xs)
  unfolding insert_at
  length-insert_at xs zero a = refl
  length-insert_at [] (suc i) a = refl
  length-insert_at (x ∷ xs) (suc i) a = ap suc (length-insert_at xs i a)

  pub length-erase_idx :
      (xs : List A) (i : ℕ) → i < length xs → suc (length (erase_idx xs i)) ≡ length xs
  unfolding erase_idx
  length-erase_idx [] i h = elim h [ ]
  length-erase_idx (x ∷ xs) zero h = refl
  length-erase_idx (x ∷ xs) (suc i) h = ap suc (length-erase_idx xs i (omega arith))

  pub length-modify : (f : A → A) (xs : List A) (i : ℕ) → length (modify f xs i) ≡ length xs
  unfolding modify
  length-modify f [] i = refl
  length-modify f (x ∷ xs) zero = refl
  length-modify f (x ∷ xs) (suc i) = ap suc (length-modify f xs i)

  pub get_elem?-insert_at_self :
      (xs : List A) (i : ℕ) (a : A) → i ≤ length xs → get_elem? (insert_at xs i a) i ≡ some a
  unfolding insert_at
  get_elem?-insert_at_self xs zero a h = refl
  get_elem?-insert_at_self [] (suc i) a h = absurd (omega arith)
  get_elem?-insert_at_self (x ∷ xs) (suc i) a h = get_elem?-insert_at_self xs i a (omega arith)

  pub erase_idx-insert_at :
      (xs : List A) (i : ℕ) (a : A) → i ≤ length xs → erase_idx (insert_at xs i a) i ≡ xs
  unfolding insert_at erase_idx
  erase_idx-insert_at xs zero a h = refl
  erase_idx-insert_at [] (suc i) a h = absurd (omega arith)
  erase_idx-insert_at (x ∷ xs) (suc i) a h = ap (x ∷◌) (erase_idx-insert_at xs i a (omega arith))

  pub get_elem?_of_lt : (xs : List A) (i : ℕ) → i < length xs → (a : A) × (get_elem? xs i ≡ some a)
  get_elem?_of_lt [] i h = elim h [ ]
  get_elem?_of_lt (x ∷ xs) zero h = (x, refl)
  get_elem?_of_lt (x ∷ xs) (suc i) h = get_elem?_of_lt xs i (omega arith)

  pub lt-length_of_get_elem? :
      (xs : List A) (i : ℕ) {a : A} → get_elem? xs i ≡ some a → i < length xs
  lt-length_of_get_elem? [] i h = cc
  lt-length_of_get_elem? (x ∷ xs) zero h = omega arith
  lt-length_of_get_elem? (x ∷ xs) (suc i) h = omega (arith, lt-length_of_get_elem? xs i h)

  pub mem_of_get_elem? : (xs : List A) (i : ℕ) {a : A} → get_elem? xs i ≡ some a → Mem a xs
  mem_of_get_elem? [] i h = cc
  mem_of_get_elem? (x ∷ xs) zero h = mem-cons.1 (Or.inl (cc))
  mem_of_get_elem? (x ∷ xs) (suc i) h = mem-cons_of_mem x (mem_of_get_elem? xs i h)

  -- Insertion and erasure, up to order.
  pub insert_at-perm : (xs : List A) (i : ℕ) (a : A) → Perm (insert_at xs i a) (a ∷ xs)
  unfolding insert_at
  insert_at-perm xs zero a = Perm.refl (a ∷ xs)
  insert_at-perm [] (suc i) a = Perm.refl (a ∷ [])
  insert_at-perm (x ∷ xs) (suc i) a =
      Perm.trans (Perm.cons x (insert_at-perm xs i a)) (Perm.swap a x xs)

  pub erase_idx-perm :
      (xs : List A) (i : ℕ) {a : A} → get_elem? xs i ≡ some a → Perm xs (a ∷ erase_idx xs i)
  unfolding erase_idx
  erase_idx-perm [] i h = cc
  erase_idx-perm (x ∷ xs) zero h = Perm.cons' (ground arith) Perm.rfl
  erase_idx-perm (x ∷ xs) (suc i) {a = a} h =
      Perm.trans (Perm.cons x (erase_idx-perm xs i h)) (Perm.swap a x (erase_idx xs i))

  -- The first hit of a search lies in the list, passes the test, and nothing before it does.
  pub find_index_sound :
      (p : A → Bool) (xs : List A) {i : ℕ}
      → find_index p xs ≡ some i
      → (a : A) × (get_elem? xs i ≡ some a) × (p a ≡ true)
  unfolding find_index
  find_index_sound p [] h = cc
  find_index_sound p (x ∷ xs) {i = zero} h = (x, refl, ground arith)
  find_index_sound p (x ∷ xs) {i = suc i} h = find_index_sound p xs {i = i} (ground arith)

  pub find_index-any : (p : A → Bool) (xs : List A) → is_some (find_index p xs) ≡ any p xs
  unfolding find_index any
  find_index-any p [] = refl
  find_index-any p (x ∷ xs) = ground (arith, find_index-any p xs)

module _ {ℓ κ} {A : Type ℓ} {B : Type κ} (f : A → B) where
  pub length-map : (xs : List A) → length (map f xs) ≡ length xs
  length-map [] = refl
  length-map (x ∷ xs) = ap suc (length-map xs)

  pub get_elem?-map : (xs : List A) (i : ℕ) → get_elem? (map f xs) i ≡ Option.map f (get_elem? xs i)
  get_elem?-map [] i = refl
  get_elem?-map (x ∷ xs) zero = refl
  get_elem?-map (x ∷ xs) (suc i) = get_elem?-map xs i

  pub map-insert_at :
      (xs : List A) (i : ℕ) (a : A) → map f (insert_at xs i a) ≡ insert_at (map f xs) i (f a)
  unfolding insert_at
  map-insert_at xs zero a = refl
  map-insert_at [] (suc i) a = refl
  map-insert_at (x ∷ xs) (suc i) a = ap (f x ∷◌) (map-insert_at xs i a)

  pub map-erase_idx : (xs : List A) (i : ℕ) → map f (erase_idx xs i) ≡ erase_idx (map f xs) i
  unfolding erase_idx
  map-erase_idx [] i = refl
  map-erase_idx (x ∷ xs) zero = refl
  map-erase_idx (x ∷ xs) (suc i) = ap (f x ∷◌) (map-erase_idx xs i)

  -- A write that leaves the image of every element alone leaves the image of the list alone.
  pub map-modify :
      (g : A → A)
      → ((a : A) → f (g a) ≡ f a)
      → (xs : List A) (i : ℕ) → map f (modify g xs i) ≡ map f xs
  unfolding modify
  map-modify g h [] i = refl
  map-modify g h (x ∷ xs) zero = ap (◌∷ map f xs) (h x)
  map-modify g h (x ∷ xs) (suc i) = ap (f x ∷◌) (map-modify g h xs i)
