-- ===== src/DocumentWorkspace/CloseAll.antt =====
-- `CloseMany` of src/document_workspace.cpp with the IDs of all open documents.
use mathlib.Core.List.{
  mem-cons, mem-append, not-mem-nil, mem-map_of_mem, mem-cons_self, mem-cons_of_mem, Nodup-cons,
}
use mathlib.Core.Logic.Or
use mwfl.Prelude.{
  ℕ, ◌≡◌, refl, sym, subst, ◌≢◌, inl, inr, true, false, none, List, [], ◌∷◌, ◌++◌, Mem, Nodup,
  arith, Bool-cases, Option-cases, is_nil, is_some, erase_if,
}
use mwfl.DocumentWorkspace.{PathApi, Document, Workspace, document_id, find_document, is_success}
use mwfl.Prelude.Keyed.{keys, contains, contains-mem, not-contains}
use mwfl.Prelude.Searching.{erase_if_all}
use mwfl.DocumentWorkspace.Closing.{check_ids, is_closing, close_all, close_many}
use mwfl.DocumentWorkspace.Invariant.{IsValid, find_document_miss}

contains_of_mem : (xs : List ℕ) (id : ℕ) → Mem id xs → contains xs id ≡ true
contains_of_mem xs id m = elim (Bool-cases (contains xs id)) [
  | inl hit ↦ hit
  | inr miss ↦ absurd (not-contains xs id miss m)
]

not-contains_of_not_mem : (xs : List ℕ) (id : ℕ) → ¬ Mem id xs → contains xs id ≡ false
not-contains_of_not_mem xs id n = elim (Bool-cases (contains xs id)) [
  | inl hit ↦ absurd (n (contains-mem xs id hit))
  | inr miss ↦ miss
]

-- The check accepts IDs of open documents that are distinct and not zero.
check_ids-accepts :
    (w : Workspace) (unique ids : List ℕ)
    → ¬ Mem 0 ids
    → Nodup ids
    → ((id : ℕ) → Mem id ids → ¬ Mem id unique)
    → ((id : ℕ) → Mem id ids → Mem id (keys document_id w.documents))
    → check_ids w unique ids ≡ none
unfolding check_ids
check_ids-accepts w unique [] nonzero distinct fresh listed = refl
check_ids-accepts w unique (id ∷ ids) nonzero distinct fresh listed = ground (
  arith,
  not_zero,
  not-contains_of_not_mem unique id (fresh id mem-cons_self),
  found,
  check_ids-accepts w (unique ++ id ∷ []) ids (λ m. nonzero (mem-cons_of_mem id m))
      (Nodup-cons.0 distinct).1 still_fresh (λ k m. listed k (mem-cons_of_mem id m)),
)
  where
    not_zero : id ≢ 0
    not_zero e = nonzero (mem-cons.1 (Or.inl (sym e)))

    found : is_some (find_document w id) ≡ true
    found = elim (Option-cases (find_document w id)) [
      | inl miss ↦ absurd (find_document_miss w id not_zero miss (listed id mem-cons_self))
      | inr (i, hit) ↦ rw hit refl
    ]

    still_fresh : (k : ℕ) → Mem k ids → ¬ Mem k (unique ++ id ∷ [])
    still_fresh k m both =
        Or.elim (λ a. elim a [ ]) (mem-append.0 both) (fresh k (mem-cons_of_mem id m))
          (λ last.
            Or.elim (λ a. elim a [ ]) (mem-cons.0 last)
              (λ e. (Nodup-cons.0 distinct).0 (subst (λ j. Mem j ids) e m)) not-mem-nil)

all_closing :
    (ds : List Document) (d : Document) → Mem d ds → is_closing (keys document_id ds) d ≡ true
all_closing ds d m = contains_of_mem (keys document_id ds) d.id (mem-map_of_mem document_id m)

nothing_left : (ds : List Document) → erase_if (is_closing (keys document_id ds)) ds ≡ []
nothing_left ds = erase_if_all (is_closing (keys document_id ds)) ds (all_closing ds)

-- On a valid workspace with an open document, `CloseMany` with the IDs of all documents succeeds
-- and leaves no document open and the recently closed list as it was.
pub close_many_all :
    ⦃os : PathApi⦄ (w : Workspace)
    → IsValid w
    → w.documents ≢ []
    → (is_success (close_many w (keys document_id w.documents)).1.status ≡ true)
      × ((close_many w (keys document_id w.documents)).0.documents ≡ [])
      × ((close_many w (keys document_id w.documents)).0.recently_closed ≡ w.recently_closed)
unfolding close_many close_all
close_many_all w v some_open =
    let accepted =
      check_ids-accepts w [] (keys document_id w.documents) v.ids.nonzero v.ids.distinct
        (λ id m. not-mem-nil) (λ id m. m) in
    let listed : is_nil (keys document_id w.documents) ≡ false =
      keys_nonempty w.documents some_open in
    rw (listed, accepted, close_many) (refl, nothing_left w.documents, refl)
  where
    keys_nonempty : (ds : List Document) → ds ≢ [] → is_nil (keys document_id ds) ≡ false
    keys_nonempty [] n = absurd (n refl)
    keys_nonempty (d ∷ ds) n = refl
