-- ===== src/DocumentWorkspace/Batch.antt =====
-- `CloseMany` and the recently closed list of src/document_workspace.cpp keep the invariant.
use mathlib.Core.Option
use mathlib.Core.List.{mem-map_of_mem, exists_of_mem-map, reverse, mem-reverse, mem-cons_self}
use mathlib.Core.List.Perm
use mathlib.Core.Logic.Or
use mathlib.Core.Logic.{∥∥₁_elim}
use mwfl.Prelude.Apart.{Pairwise-erase_if, IsIds-erase_if}
use mwfl.Prelude.Keyed.{keys, contains}
use mwfl.Prelude.Selection.{Selects}
use mwfl.Prelude.Searching.{
  find-some, find-none, erase_if_all, mem-erase_if, mem-split, mem_of_mem-drop, mem_of_mem-take,
  Bool-eq-prop,
}
use mwfl.Prelude.{
  ℕ, zero, suc, ◌≤◌, ◌≡◌, refl, ap, subst, ◌∙◌, ◌⊎◌, inl, inr, Bool, true, false, not, Option, none,
  some, List, [], ◌∷◌, ◌++◌, Mem, arith, next_u64, ltb, if◌then◌else◌, Bool-cases, Option-cases,
  length, get_elem?, take, drop, erase_idx, find, erase_if, length-append, insert_at-perm,
  All-erase_if,
}
use mwfl.DocumentWorkspace.{
  PathApi, Document, Status, Workspace, document_id, add, is_success, insert_document, value_or,
}
use mwfl.DocumentWorkspace.Closing.{
  check_ids, is_closing, survivor, next_active, close_all, close_many,
}
use mwfl.DocumentWorkspace.Recent.{
  reopened, reopen_recently_closed, restore, restore_recently_closed,
}
use mwfl.DocumentWorkspace.Invariant.{
  IsGood, IsValid, ApartDocuments, recently_closed-IsValid, revision-IsValid, active-IsValid,
}
use mwfl.DocumentWorkspace.Preserve.{add-IsValid}

-- A document that stays open is among those that remain.
remains :
    (ids : List ℕ) (ds : List Document) (d : Document)
    → not (is_closing ids d) ≡ true
    → Mem d ds
    → Mem d.id (keys document_id (erase_if (is_closing ids) ds))
remains ids ds d e m =
    mem-map_of_mem document_id (mem-erase_if (is_closing ids) ds (ground arith) m)

survivor-Selects :
    (ids : List ℕ) (ds : List Document) (k : ℕ)
    → Selects (survivor ids ds k) (keys document_id (erase_if (is_closing ids) ds))
unfolding survivor
survivor-Selects ids ds k = elim (Option-cases (find stays (drop k ds))) [
  | inr (d, behind) ↦
      let (m, e) = find-some stays (drop k ds) behind in
      rw (behind, survivor) (remains ids ds d e (mem_of_mem-drop k ds m))
  | inl none_behind ↦ rw (none_behind, survivor) (before none_behind)
]
  where
    stays : Document → Bool
    stays d = not (is_closing ids d)

    all_close :
        find stays (drop k ds) ≡ none
        → find stays (reverse (take k ds)) ≡ none
        → (d : Document) → Mem d ds
        → is_closing ids d ≡ true
    all_close none_behind none_before d m =
        Or.elim (Bool-eq-prop (is_closing ids d) true) (mem-split k ds m)
          (λ h.
            let closed = find-none stays (reverse (take k ds)) none_before d (mem-reverse.1 h) in
            ground (arith, closed))
          (λ h. let closed = find-none stays (drop k ds) none_behind d h in ground (arith, closed))

    before :
        find stays (drop k ds) ≡ none
        → Selects
            (Option.map document_id (find stays (reverse (take k ds))))
            (keys document_id (erase_if (is_closing ids) ds))
    before none_behind = elim (Option-cases (find stays (reverse (take k ds)))) [
      | inr (d, hit) ↦
          let (m, e) = find-some stays (reverse (take k ds)) hit in
          rw hit (remains ids ds d e (mem_of_mem-take k ds (mem-reverse.0 m)))
      | inl none_before ↦
          rw (none_before, erase_if_all (is_closing ids) ds (all_close none_behind none_before))
            refl
    ]

none_left :
    (ids : List ℕ) (ds : List Document)
    → keys document_id ds ≡ []
    → keys document_id (erase_if (is_closing ids) ds) ≡ []
unfolding erase_if
none_left ids [] e = refl
none_left ids (d ∷ ds) e = cc

-- An ID that is not closed is that of a document that remains.
stays_listed :
    (ids : List ℕ) {id : ℕ} (ds : List Document)
    → contains ids id ≡ false
    → Mem id (keys document_id ds)
    → Mem id (keys document_id (erase_if (is_closing ids) ds))
stays_listed ids ds e m = ∥∥₁_elim (exists_of_mem-map m) squash₁ λ (d, inside, same).
    subst (λ k. Mem k (keys document_id (erase_if (is_closing ids) ds))) same
      (mem-map_of_mem document_id
        (mem-erase_if (is_closing ids) ds (ap (contains ids) same ∙ e) inside))

next_active-Selects :
    (w : Workspace) (ids : List ℕ) (o : Option ℕ)
    → Selects o (keys document_id w.documents)
    → Selects (next_active w ids o) (keys document_id (erase_if (is_closing ids) w.documents))
unfolding next_active
next_active-Selects w ids none s = none_left ids w.documents s
next_active-Selects w ids (some id) s = elim (Bool-cases (contains ids id)) [
  | inl closing ↦ rw closing (survivor-Selects ids w.documents _)
  | inr open_still ↦ rw open_still (stays_listed ids w.documents open_still s)
]

length-erase_idx-le : (xs : List Document) (i : ℕ) → length (erase_idx xs i) ≤ length xs
unfolding erase_idx
length-erase_idx-le [] i = omega arith
length-erase_idx-le (x ∷ xs) zero = omega arith
length-erase_idx-le (x ∷ xs) (suc i) = omega (arith, length-erase_idx-le xs i)

result-cases :
    (r : Status ⊎ List Document)
    → ((s : Status) × (r ≡ inl s)) ⊎ ((ds : List Document) × (r ≡ inr ds))
result-cases (inl s) = inl (s, refl)
result-cases (inr ds) = inr (ds, refl)

module _ ⦃os : PathApi⦄ where
  pub close_many-IsValid : (w : Workspace) (ids : List ℕ) → IsValid w → IsValid (close_many w ids).0
  unfolding close_many close_all
  close_many-IsValid w [] v = v
  close_many-IsValid w (id ∷ ids) v = elim (Option-cases (check_ids w [] (id ∷ ids))) [
    | inr (s, bad) ↦ rw (bad, close_many) v
    | inl fine ↦
        rw (fine, close_many)
          (record {
            ids = IsIds-erase_if document_id (is_closing (id ∷ ids)) w.documents v.ids;
            good = All-erase_if IsGood (is_closing (id ∷ ids)) w.documents v.good;
            apart = Pairwise-erase_if ApartDocuments (is_closing (id ∷ ids)) w.documents v.apart;
            selection = next_active-Selects w (id ∷ ids) w.active v.selection;
            recent = v.recent;
          })
  ]

  inserted :
      (w : Workspace) (d : Document) (i : ℕ)
      → Mem d.id (keys document_id (insert_document w d i).documents)
  unfolding insert_document
  inserted w d i =
      (Perm.mem_iff (Perm.map document_id (insert_at-perm w.documents i d))).1 mem-cons_self

  -- A successful `Add` leaves the document open, and the recently closed list alone.
  add_open :
      (w : Workspace) (d : Document) (index : Option ℕ)
      → is_success (add w d index).1.status ≡ true
      → Mem d.id (keys document_id (add w d index).0.documents)
  unfolding add
  add_open w d index e = ground (arith, inserted w d (value_or index (length w.documents)))

  recently_closed-add :
      (w : Workspace) (d : Document) (index : Option ℕ)
      → ((add w d index).0.recently_closed ≡ w.recently_closed)
        × ((add w d index).0.maximum_recently_closed ≡ w.maximum_recently_closed)
  unfolding add insert_document
  recently_closed-add w d index = ground arith

  reopened-IsValid :
      (w : Workspace) (id index : ℕ)
      → Mem id (keys document_id w.documents)
      → IsValid w
      → IsValid (reopened w id index)
  unfolding reopened
  reopened-IsValid w id index m v =
      let shorter = length-erase_idx-le w.recently_closed index in
      active-IsValid (record w { recently_closed = erase_idx w.recently_closed index }) id
        (next_u64 w.revision) m
        (recently_closed-IsValid w (erase_idx w.recently_closed index) (omega (arith, shorter)) v)

  pub reopen-IsValid :
      (w : Workspace) (index : ℕ) → IsValid w → IsValid (reopen_recently_closed w index).0
  unfolding reopen_recently_closed
  reopen-IsValid w index v = elim (Option-cases (get_elem? w.recently_closed index)) [
    | inl miss ↦ rw (miss, reopen_recently_closed) v
    | inr (d, hit) ↦
        let clean : Document = record d { dirty = false } in
        let added = add w clean none in
        let kept = add-IsValid w clean none v in
        rw (hit, reopen_recently_closed)
          (elim (Bool-cases (is_success added.1.status)) [
            | inl fine ↦
                rw fine (reopened-IsValid added.0 d.id index (add_open w clean none fine) kept)
            | inr bad ↦ rw bad kept
          ])
  ]

  restore_bounded :
      (w : Workspace) (restored ds : List Document) {rs : List Document}
      → length restored ≤ w.maximum_recently_closed
      → restore w restored ds ≡ inr rs
      → length rs ≤ w.maximum_recently_closed
  unfolding restore
  restore_bounded w restored [] h e = ground arith
  restore_bounded w restored (d ∷ ds) {rs = rs} h e = ground (
    arith,
    length-append restored (d ∷ []),
    restore_bounded w
        (if ltb (length restored) w.maximum_recently_closed then restored ++ d ∷ [] else restored)
        ds {rs = rs},
  )

  pub restore-IsValid :
      (w : Workspace) (ds : List Document) → IsValid w → IsValid (restore_recently_closed w ds).0
  unfolding restore_recently_closed
  restore-IsValid w ds v = elim (result-cases (restore w [] ds)) [
    | inl (s, bad) ↦ rw (bad, restore_recently_closed) v
    | inr (rs, fine) ↦
        rw (fine, restore_recently_closed)
          (revision-IsValid (record w { recently_closed = rs }) (next_u64 w.revision)
            (recently_closed-IsValid w rs (restore_bounded w [] ds (omega arith) fine) v))
  ]
