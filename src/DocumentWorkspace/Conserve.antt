-- ===== src/DocumentWorkspace/Conserve.antt =====
-- A transfer between two workspaces neither loses nor doubles a document:
-- `TransferDocument` of src/document_workspace.cpp.
use mathlib.Core.List.{perm_middle}
use mathlib.Core.List.Perm
use mwfl.Prelude.{
  ℕ, ◌≡◌, refl, ap, ◌∙◌, ◌⊎◌, inl, inr, true, false, not, ◌||◌, Option, none, some, ◌++◌, Perm,
  arith, ◌==◌, if◌then◌else◌, Bool-cases, Option-cases, opt_eq, length, get_elem?, insert_at,
  erase_idx, insert_at-perm, erase_idx-perm,
}
use mwfl.DocumentWorkspace.{
  PathApi, Document, Result, Workspace, find_document, contains_path, insert_document, close_at,
  add, close, activate, is_success, value_or, done,
}
use mwfl.DocumentWorkspace.Transfer.{
  TransferPlan, plan_is_valid, plan_for, prepare_transfer, accept_transfer, commit_transfer,
  complete_transfer, transfer_document,
}
use mwfl.DocumentWorkspace.Invariant.{
  IsGood, IsValid, find_document_sound, insert_document-IsValid, close_at-IsValid,
}
use mwfl.DocumentWorkspace.Preserve.{IsGood-nonzero, activate-IsValid}

module _ ⦃os : PathApi⦄ where
  abbrev Added : Workspace → Document → Option ℕ → Workspace × Result → Type 0
  Added w d index r =
      (r ≡ done (insert_document w d (value_or index (length w.documents))))
      × IsGood d
      × (find_document w d.id ≡ none)
      × (contains_path w d.path ≡ false)

  -- `Add` changes nothing, or inserts the document.
  add_result :
      (w : Workspace) (d : Document) (index : Option ℕ)
      → ((is_success (add w d index).1.status ≡ false) × ((add w d index).0 ≡ w))
        ⊎ Added w d index (add w d index)
  unfolding add
  add_result w d index = ground arith

  -- A commit against the revision at which the plan was made closes the document.
  commit_lem :
      (w : Workspace) (p : TransferPlan)
      → plan_is_valid p ≡ true
      → p.source ≡ w.id
      → p.accepted ≡ true
      → p.source_revision ≡ w.revision
      → {i : ℕ} → find_document w p.document.id ≡ some i
      → commit_transfer w p ≡ done (close_at w p.document.id i)
  unfolding commit_transfer close
  commit_lem w p good same accepted current hit = ground arith

  documents-activate : (w : Workspace) (id : ℕ) → (activate w id).0.documents ≡ w.documents
  unfolding activate
  documents-activate w id = ground arith

  -- The transfer was refused, and neither workspace has changed.
  abbrev pub Kept : Workspace → Workspace → Workspace × Workspace × Result → Type 0
  Kept source destination r = (r.0 ≡ source) × (r.1 ≡ destination) × (is_success r.2.status ≡ false)

  -- The document stood at a position of the source; it is closed there without being remembered,
  -- inserted in the destination, and active there if it was active.
  pub record Moved (source destination : Workspace) (id : ℕ) (index : Option ℕ)
      (r : Workspace × Workspace × Result) : Type 0 where
    pub i : ℕ
    pub d : Document
    pub at : get_elem? source.documents i ≡ some d
    pub same : d.id ≡ id
    pub good : IsGood d
    pub fresh : find_document destination d.id ≡ none
    pub apart : contains_path destination d.path ≡ false
    pub left : r.0 ≡ close_at source d.id i
    pub right : r.1 ≡ (
        if opt_eq source.active (some id)
        then (activate
            (insert_document destination d (value_or index (length destination.documents)))
            id).0
        else insert_document destination d (value_or index (length destination.documents)))
    pub fine : is_success r.2.status ≡ true

  abbrev inserted : Workspace → TransferPlan → Workspace
  inserted w p = insert_document w p.document (value_or p.destination_index (length w.documents))

  abbrev accepted_plan : Workspace → TransferPlan → TransferPlan
  accepted_plan w p = record p { accepted = true; destination_revision = (inserted w p).revision }

  accept_result :
      (w : Workspace) (p : TransferPlan)
      → (((accept_transfer w p).0 ≡ w) × (is_success (accept_transfer w p).2.status ≡ false))
        ⊎ ((accept_transfer w p ≡ (inserted w p, accepted_plan w p, (done (inserted w p)).1))
            × (plan_is_valid p ≡ true)
            × IsGood p.document
            × (find_document w p.document.id ≡ none)
            × (contains_path w p.document.path ≡ false))
  unfolding accept_transfer
  accept_result w p = elim (add_result w p.document p.destination_index) [
    | inl (bad, same) ↦ inl (ground arith)
    | inr (r, good, fresh, apart) ↦
        elim (Bool-cases (not (plan_is_valid p) || not (p.destination == w.id) || p.accepted)) [
          | inl bad ↦ rw bad (inl (refl, refl))
          | inr fine ↦ rw (fine, r) (inr (refl, ground arith, good, fresh, apart))
        ]
  ]

  module _ (source destination : Workspace) (id : ℕ) (index : Option ℕ) where
    abbrev Outcome : Workspace × Workspace × Result → Type 0
    Outcome r = Kept source destination r ⊎ Moved source destination id index r

    complete-Outcome :
        (i : ℕ) (d : Document)
        → find_document source id ≡ some i
        → get_elem? source.documents i ≡ some d
        → d.id ≡ id
        → Outcome (
            complete_transfer source id
              (accept_transfer destination (plan_for source id destination.id index i d)))
    unfolding complete_transfer plan_is_valid
    complete-Outcome i d hit at same =
        let p = plan_for source id destination.id index i d in
        elim (accept_result destination p) [
          | inl (kept, bad) ↦ rw bad (inl (refl, kept, bad))
          | inr (accepted, valid, good, fresh, apart) ↦
              let committed =
                commit_lem source (accepted_plan destination p) valid refl refl refl {i = i}
                  (rw same hit) in
              rw (accepted, committed)
                (inr (record {
                  i = i;
                  d = d;
                  at = at;
                  same = same;
                  good = good;
                  fresh = fresh;
                  apart = apart;
                  left = refl;
                  right = refl;
                  fine = refl;
                }))
        ]

    pub transfer-Outcome : Outcome (transfer_document source destination id index)
    unfolding transfer_document prepare_transfer
    transfer-Outcome = elim (Option-cases (find_document source id)) [
      | inl miss ↦ rw (transfer_document, prepare_transfer, miss) (inl (refl, refl, refl))
      | inr (i, hit) ↦
          let (d, at, same) = find_document_sound source id hit in
          rw (transfer_document, prepare_transfer, hit)
            (elim (Bool-cases ((destination.id == 0) || (destination.id == source.id))) [
              | inl refused ↦ rw refused (inl (refl, refl, refl))
              | inr open_still ↦ rw (open_still, at) (complete-Outcome i d hit at same)
            ])
    ]

    Moved-documents :
        {r : Workspace × Workspace × Result}
        → (m : Moved source destination id index r)
        → (r.0.documents ≡ erase_idx source.documents m.i)
          × (r.1.documents
              ≡ insert_at destination.documents (value_or index (length destination.documents)) m.d)
    unfolding close_at insert_document
    Moved-documents {r = r} m = (
      ap (λ w. w.documents) m.left,
      elim (Bool-cases (opt_eq source.active (some id))) [
        | inl was ↦
            ap (λ w. w.documents) (rw was at m.right)
            ∙ documents-activate
                (insert_document destination m.d (value_or index (length destination.documents))) id
        | inr was ↦ ap (λ w. w.documents) (rw was at m.right)
      ],
    )

    -- The documents of the two workspaces after a transfer, whatever it reports, are those before
    -- it: none is lost, doubled or changed.
    pub transfer_document-perm :
        Perm
          ((transfer_document source destination id index).0.documents
            ++ (transfer_document source destination id index).1.documents)
          (source.documents ++ destination.documents)
    transfer_document-perm = elim transfer-Outcome [
      | inl (left, right, bad) ↦
          rw (left, right) (Perm.refl (source.documents ++ destination.documents))
      | inr m ↦
          let (left, right) = Moved-documents m in
          rw (left, right)
            (Perm.trans
              (Perm.append (Perm.refl (erase_idx source.documents m.i)) (
                insert_at-perm destination.documents (value_or index (length destination.documents))
                  m.d))
              (Perm.trans (perm_middle (erase_idx source.documents m.i) destination.documents) (
                Perm.append (Perm.symm (erase_idx-perm source.documents m.i m.at))
                  (Perm.refl destination.documents))))
    ]

    -- A transfer that reports failure changes neither workspace.
    pub transfer_document_refused :
        is_success (transfer_document source destination id index).2.status ≡ false
        → ((transfer_document source destination id index).0 ≡ source)
          × ((transfer_document source destination id index).1 ≡ destination)
    transfer_document_refused h = elim transfer-Outcome [
      | inl (left, right, bad) ↦ (left, right)
      | inr m ↦ let e = m.fine in cc
    ]

    Moved-IsValid :
        {r : Workspace × Workspace × Result}
        → IsValid source
        → IsValid destination
        → Moved source destination id index r
        → IsValid r.0 × IsValid r.1
    Moved-IsValid {r = r} v v' m =
        let k = value_or index (length destination.documents) in
        let placed =
          insert_document-IsValid destination m.d k m.good (IsGood-nonzero m.d m.good) m.fresh
            m.apart v' in
        (
          rw m.left (close_at-IsValid source m.d.id m.i m.d m.at refl v),
          rw m.right (elim (Bool-cases (opt_eq source.active (some id))) [
            | inl was ↦ rw was (activate-IsValid (insert_document destination m.d k) id placed)
            | inr was ↦ rw was placed
          ]),
        )

    -- A transfer keeps both workspaces valid.
    pub transfer_document-IsValid :
        IsValid source
        → IsValid destination
        → IsValid (transfer_document source destination id index).0
          × IsValid (transfer_document source destination id index).1
    transfer_document-IsValid v v' = elim transfer-Outcome [
      | inl (left, right, bad) ↦ (rw left v, rw right v')
      | inr m ↦ Moved-IsValid v v' m
    ]
