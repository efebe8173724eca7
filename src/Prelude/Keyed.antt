-- ===== src/Prelude/Keyed.antt =====
-- Lists of entries that are told apart by an ID, as the models of tabs, documents and docking keep
-- them: zero is no ID, and no two entries share one.
use mathlib.Core.Logic.Or
use mathlib.Core.List.{mem_of_ne_of_mem, mem-cons, not-mem-nil, Nodup-cons, mem-map_of_mem}
use mathlib.Core.List.Perm
use mwfl.Prelude.Tests.{◌==◌, ==_iff, Bool-cases}
use mwfl.Prelude.Lists.{
  find_index, find_index_sound, get_elem?, mem_of_get_elem?, insert_at, erase_idx, insert_at-perm,
  erase_idx-perm,
}
use Prim.Native.Nat.{ℕ}
use mathlib.Core.Path.{◌≡◌, sym, subst}
use mathlib.Core.Logic.{◌≢◌, inl, inr}
use mathlib.Core.Bool.{Bool, true, false, ◌||◌}
use mathlib.Core.Option.{Option, none, some}
use mathlib.Core.List.{List, [], ◌∷◌, map, Mem, Nodup, Perm}
use native.Mathlib.Omega.{arith}

-- `std::find(values.begin(), values.end(), id) != values.end()`.
unfoldable pub contains : List ℕ → ℕ → Bool
contains [] id = false
contains (x ∷ xs) id = (x == id) || contains xs id

pub contains-mem : (xs : List ℕ) (id : ℕ) → contains xs id ≡ true → Mem id xs
unfolding contains
contains-mem [] id h = cc
contains-mem (x ∷ xs) id h = elim (Bool-cases (x == id)) [
  | inl e ↦ mem-cons.1 (Or.inl (sym ((==_iff x id).0 e)))
  | inr n ↦ mem-cons.1 (Or.inr (contains-mem xs id (ground arith)))
]

pub not-contains : (xs : List ℕ) (id : ℕ) → contains xs id ≡ false → ¬ Mem id xs
unfolding contains
not-contains [] id h m = not-mem-nil m
not-contains (x ∷ xs) id h m =
    Or.elim (λ a. elim a [ ]) (mem-cons.0 m) (λ e. ground arith) (not-contains xs id (ground arith))

-- No entry has the ID zero, and no ID stands twice.
pub record IsIds (ids : List ℕ) : Type 0 where
  pub nonzero : ¬ Mem 0 ids
  pub distinct : Nodup ids

pub IsIds-perm : {xs ys : List ℕ} → Perm xs ys → IsIds xs → IsIds ys
IsIds-perm p v = record {
  nonzero = λ m. v.nonzero ((Perm.mem_iff p).1 m);
  distinct = Perm.nodup p v.distinct;
}

pub IsIds-cons : {id : ℕ} {ids : List ℕ} → id ≢ 0 → ¬ Mem id ids → IsIds ids → IsIds (id ∷ ids)
IsIds-cons n fresh v = record {
  nonzero = λ m. Or.elim (λ a. elim a [ ]) (mem-cons.0 m) (λ e. n (sym e)) v.nonzero;
  distinct = Nodup-cons.1 (fresh, v.distinct);
}

pub IsIds-tail : {id : ℕ} {ids : List ℕ} → IsIds (id ∷ ids) → IsIds ids
IsIds-tail v = record {
  nonzero = λ m. v.nonzero (mem-cons.1 (Or.inr m));
  distinct = (Nodup-cons.0 v.distinct).1;
}

module _ {ℓ} {A : Type ℓ} (key : A → ℕ) where
  -- `std::ranges::find(entries, id, &Entry::id)`, as a position.
  unfoldable pub index_of : ℕ → List A → Option ℕ
  unfolding find_index
  index_of id xs = find_index (λ x. key x == id) xs

  abbrev pub keys : List A → List ℕ
  keys = map key

  -- What a hit says.
  pub index_of_sound :
      (id : ℕ) (xs : List A) {i : ℕ}
      → index_of id xs ≡ some i
      → (a : A) × (get_elem? xs i ≡ some a) × (key a ≡ id)
  unfolding index_of
  index_of_sound id xs h =
      let (a, at, e) = find_index_sound (λ x. key x == id) xs h in (a, at, (==_iff (key a) id).0 e)

  pub mem_of_index_of : (id : ℕ) (xs : List A) {i : ℕ} → index_of id xs ≡ some i → Mem id (keys xs)
  mem_of_index_of id xs h =
      let (a, at, e) = index_of_sound id xs h in
      subst (λ k. Mem k (keys xs)) e (mem-map_of_mem key (mem_of_get_elem? xs _ at))

  pub not_mem_of_index_of : (id : ℕ) (xs : List A) → index_of id xs ≡ none → ¬ Mem id (keys xs)
  unfolding index_of
  not_mem_of_index_of id [] h m = not-mem-nil m
  not_mem_of_index_of id (x ∷ xs) h m =
      Or.elim (λ a. elim a [ ]) (mem-cons.0 m) (λ e. ground arith)
        (not_mem_of_index_of id xs (ground arith))

  pub IsIds-insert_at :
      (xs : List A) (i : ℕ) (a : A)
      → key a ≢ 0
      → ¬ Mem (key a) (keys xs)
      → IsIds (keys xs)
      → IsIds (keys (insert_at xs i a))
  IsIds-insert_at xs i a n fresh v =
      IsIds-perm (Perm.symm (Perm.map key (insert_at-perm xs i a))) (IsIds-cons n fresh v)

  pub IsIds-erase_idx :
      (xs : List A) (i : ℕ) {a : A}
      → get_elem? xs i ≡ some a
      → IsIds (keys xs)
      → IsIds (keys (erase_idx xs i)) × ¬ Mem (key a) (keys (erase_idx xs i))
  IsIds-erase_idx xs i at v =
      let moved = IsIds-perm (Perm.map key (erase_idx-perm xs i at)) v in
      (IsIds-tail moved, (Nodup-cons.0 moved.distinct).0)

  -- Erasing one entry and inserting it elsewhere.
  pub erase_idx-insert_at-perm :
      (xs : List A) (i j : ℕ) {a : A}
      → get_elem? xs i ≡ some a
      → Perm (insert_at (erase_idx xs i) j a) xs
  erase_idx-insert_at-perm xs i j {a = a} at =
      Perm.trans (insert_at-perm (erase_idx xs i) j a) (Perm.symm (erase_idx-perm xs i at))

  -- Erasing an entry leaves the IDs of the others.
  pub mem_of_ne-erase_idx :
      (id : ℕ) (xs : List A) (i : ℕ) {a : A}
      → get_elem? xs i ≡ some a
      → id ≢ key a
      → Mem id (keys xs)
      → Mem id (keys (erase_idx xs i))
  mem_of_ne-erase_idx id xs i at n m =
      mem_of_ne_of_mem n ((Perm.mem_iff (Perm.map key (erase_idx-perm xs i at))).0 m)
