-- ===== src/RecentFiles/Order.antt =====
-- What the calls of `RecentFileList` in src/recent_files.cpp do to the order of the paths.
use mathlib.Core.List.{
  Pairwise, Pairwise-cons, mem-cons, not-mem-nil, mem-cons_self, mem-cons_of_mem,
}
use mathlib.Core.Logic.Or
use mwfl.Prelude.{
  ℕ, zero, suc, ◌≤◌, ◌≡◌, refl, ◌∙◌, inl, inr, Bool, true, false, not, ◌&&◌, some, List, [], ◌∷◌,
  Mem, arith, Text, if◌then◌else◌, Bool-cases, Option-cases, length, take, erase_idx, find_index,
  any, erase_if, length-take, All, All-take, All-erase_if,
}
use mwfl.Prelude.Apart.{Pairwise-erase_if}
use mwfl.Prelude.Searching.{Bool-eq-prop, mem_of_mem-take}
use mwfl.RecentFiles.{
  OrdinalApi, RecentFileList, create, path_is_invalid, equal_path, without, is_change, add, remove,
  clear,
}

-- The entries are proper paths within the bound, of which no two are equal.
pub record IsValid ⦃os : OrdinalApi⦄ (l : RecentFileList) : Type 0 where
  pub sized : length l.paths ≤ l.maximum_entries
  pub proper : All (λ p. path_is_invalid p ≡ false) l.paths
  pub distinct : Pairwise (λ a b. equal_path a b ≡ false) l.paths

erase_if_none :
    (q : Text → Bool) (xs : List Text) → ((x : Text) → Mem x xs → q x ≡ false) → erase_if q xs ≡ xs
unfolding erase_if
erase_if_none q [] h = refl
erase_if_none q (x ∷ xs) h =
    ground (arith, h x mem-cons_self, erase_if_none q xs (λ y m. h y (mem-cons_of_mem x m)))

length-erase_if_le : (q : Text → Bool) (xs : List Text) → length (erase_if q xs) ≤ length xs
unfolding erase_if
length-erase_if_le q [] = omega arith
length-erase_if_le q (x ∷ xs) = ground (arith, length-erase_if_le q xs)

-- What an erasure leaves does not fit the test.
kept-erase_if : (q : Text → Bool) (xs : List Text) {a : Text} → Mem a (erase_if q xs) → q a ≡ false
unfolding erase_if
kept-erase_if q [] m = absurd (not-mem-nil m)
kept-erase_if q (x ∷ xs) {a = a} m = elim (Bool-cases (q x)) [
  | inl gone ↦ kept-erase_if q xs (rw gone at m)
  | inr kept ↦
      Or.elim (Bool-eq-prop (q a) false) (mem-cons.0 (rw kept at m)) (λ e. rw e kept)
        (λ h. kept-erase_if q xs h)
]

Pairwise-take :
    (R : Text → Text → Type 0) (n : ℕ) (xs : List Text) → Pairwise R xs → Pairwise R (take n xs)
Pairwise-take R zero xs h = Pairwise.nil
Pairwise-take R (suc n) [] h = h
Pairwise-take R (suc n) (x ∷ xs) h =
    let (apart, rest) = Pairwise-cons.0 h in
    Pairwise-cons.1 (λ y m. apart y (mem_of_mem-take n xs m), Pairwise-take R n xs rest)

is_change-find_index :
    (q : Text → Bool) (xs : List Text) → is_change (find_index q xs) ≡ not (any q (take 1 xs))
unfolding find_index any
is_change-find_index q [] = refl
is_change-find_index q (x ∷ xs) = elim (Option-cases (find_index q xs)) [
  | inl lost ↦ ground (arith, lost)
  | inr (i, found) ↦ ground (arith, found)
]

module _ ⦃os : OrdinalApi⦄ where
  equal_path_trans :
      (a b p : Text) → equal_path a p ≡ true → equal_path b p ≡ true → equal_path a b ≡ true
  unfolding equal_path
  equal_path_trans a b p x y =
      ground (arith, os.equal_ordinal_comm p b, os.equal_ordinal_trans a p b)

  pub equal_path_comm : (a b : Text) → equal_path a b ≡ equal_path b a
  unfolding equal_path
  equal_path_comm a b = ground (arith, os.equal_ordinal_comm a b)

  -- The one erasure of `Add` erases every entry that is equal to the path.
  without-find_index :
      (p : Text) (xs : List Text)
      → Pairwise (λ a b. equal_path a b ≡ false) xs
      → without xs (find_index (λ c. equal_path c p) xs) ≡ erase_if (λ c. equal_path c p) xs
  unfolding find_index erase_if erase_idx
  without-find_index p [] h = refl
  without-find_index p (x ∷ xs) h =
      let (apart, rest) = Pairwise-cons.0 h in
      elim (Bool-cases (equal_path x p)) [
        | inl hit ↦ ground (
          arith,
          hit,
          erase_if_none (λ c. equal_path c p) xs
              (λ y m. ground (arith, equal_path_trans x y p, hit, apart y m)),
        )
        | inr miss ↦ elim (Option-cases (find_index (λ c. equal_path c p) xs)) [
          | inl lost ↦ ground (arith, miss, lost, without-find_index p xs rest)
          | inr (i, found) ↦ ground (arith, miss, found, without-find_index p xs rest)
        ]
      ]

  -- A proper path moves to the front of the paths that are not equal to it, which keep their order
  -- and lose their oldest entries beyond the bound; any other path changes nothing. The result is
  -- false exactly where the path is not proper or an equal one was in front.
  pub add_lem :
      (l : RecentFileList) (p : Text)
      → IsValid l
      → ((add l p).0.paths ≡ (
          if path_is_invalid p
          then l.paths
          else take l.maximum_entries (p ∷ erase_if (λ c. equal_path c p) l.paths)))
        × ((add l p).1
            ≡ (not (path_is_invalid p) && not (any (λ c. equal_path c p) (take 1 l.paths))))
  unfolding add
  add_lem l p v = elim (Bool-cases (path_is_invalid p)) [
    | inl bad ↦ (ground (arith, bad), ground (arith, bad))
    | inr good ↦ (
      ground (arith, good, without-find_index p l.paths v.distinct),
      ground (arith, good, is_change-find_index (λ c. equal_path c p) l.paths),
    )
  ]

  add-IsValid : (l : RecentFileList) (p : Text) → IsValid l → IsValid (add l p).0
  unfolding add
  add-IsValid l p v = elim (Bool-cases (path_is_invalid p)) [
    | inl bad ↦ rw bad v
    | inr good ↦
        let others : List Text = erase_if (λ c. equal_path c p) l.paths in
        let same : (add l p).0.paths ≡ take l.maximum_entries (p ∷ others) =
          ground (arith, good, (add_lem l p v).0) in
        let bound : (add l p).0.maximum_entries ≡ l.maximum_entries = ground (arith, good) in
        record {
          sized = ground (arith, same, bound, length-take l.maximum_entries (p ∷ others));
          proper = rw same (
              All-take _ l.maximum_entries (p ∷ others)
                (good, All-erase_if _ (λ c. equal_path c p) l.paths v.proper));
          distinct = rw same (
              Pairwise-take _ l.maximum_entries (p ∷ others) (
                Pairwise-cons.1 (
                  λ c m. equal_path_comm p c ∙ kept-erase_if (λ d. equal_path d p) l.paths m,
                  Pairwise-erase_if _ (λ c. equal_path c p) l.paths v.distinct,
                )));
        }
  ]

  remove-IsValid : (l : RecentFileList) (p : Text) → IsValid l → IsValid (remove l p).0
  unfolding remove
  remove-IsValid l p v = record {
    sized = omega (arith, length-erase_if_le (λ c. equal_path c p) l.paths, v.sized);
    proper = All-erase_if _ (λ c. equal_path c p) l.paths v.proper;
    distinct = Pairwise-erase_if _ (λ c. equal_path c p) l.paths v.distinct;
  }

pub data Call : Type 0 where
  adding removing : Text → Call
  clearing : Call

abbrev pub step : ⦃os : OrdinalApi⦄ → RecentFileList → Call → RecentFileList
step l (adding p) = (add l p).0
step l (removing p) = (remove l p).0
step l clearing = clear l

abbrev pub run : ⦃os : OrdinalApi⦄ → RecentFileList → List Call → RecentFileList
run l [] = l
run l (c ∷ cs) = run (step l c) cs

module _ ⦃os : OrdinalApi⦄ where
  step-IsValid : (l : RecentFileList) (c : Call) → IsValid l → IsValid (step l c)
  step-IsValid l (adding p) v = add-IsValid l p v
  step-IsValid l (removing p) v = remove-IsValid l p v
  step-IsValid l clearing v = record { sized = omega arith; proper = tt; distinct = Pairwise.nil }

  run-IsValid : (l : RecentFileList) (cs : List Call) → IsValid l → IsValid (run l cs)
  run-IsValid l [] v = v
  run-IsValid l (c ∷ cs) v = run-IsValid (step l c) cs (step-IsValid l c v)

  pub new-IsValid :
      (maximum_entries : ℕ) {l : RecentFileList} → create maximum_entries ≡ some l → IsValid l
  unfolding create
  new-IsValid maximum_entries {l = l} e =
      let empty : l.paths ≡ [] = ground arith in
      record {
        sized = rw empty (omega arith);
        proper = rw empty tt;
        distinct = rw empty Pairwise.nil;
      }

  -- After any calls on a new list the entries are proper paths within the bound, and no two of them
  -- are equal without regard to case.
  pub run-new-IsValid :
      (maximum_entries : ℕ) (cs : List Call) {l : RecentFileList}
      → create maximum_entries ≡ some l
      → IsValid (run l cs)
  run-new-IsValid maximum_entries cs {l = l} e = run-IsValid l cs (new-IsValid maximum_entries e)
