-- ===== src/DocumentWorkspace/Preserve.antt =====
-- Every call of src/document_workspace.cpp keeps the invariant.
use mathlib.Core.List.{mem-cons_of_mem, Pairwise-cons, mem-map_of_mem}
use mathlib.Core.List.Perm
use mwfl.Prelude.Apart.{modify-perm}
use mwfl.Prelude.Keyed.{keys, IsIds-erase_idx}
use mwfl.Prelude.Searching.{any_none}
use mwfl.Prelude.{
  ℕ, ◌≡◌, refl, sym, subst, ◌∙◌, ◌≢◌, inl, inr, Bool, true, false, not, ◌&&◌, Option, none, some,
  [], ◌∷◌, Mem, arith, Text, next_u64, ◌==◌, Bool-cases, Option-cases, is_nil, length, get_elem?,
  erase_idx, any, erase_idx-perm, map-modify, All-modify,
}
use mwfl.DocumentWorkspace.{
  PathApi, Document, ViewState, Workspace, document_id, is_valid_document, find_document, same_path,
  contains_path, insert_document, remember_closed, remember_at, write, add, close, rename, move,
  move_from, activate, set_dirty, set_undo_state, set_view_state, view_is_valid, value_or,
}
use mwfl.DocumentWorkspace.Invariant.{
  IsGood, IsValid, Apart, Pairwise-perm, same_path_comm, find_document_sound, find_document-mem,
  insert_document-IsValid, active-IsValid, remember_closed-IsValid, close_at-IsValid,
  move_entry-IsValid, write-IsValid,
}

pub IsGood-nonzero : (d : Document) → IsGood d → d.id ≢ 0
unfolding is_valid_document
IsGood-nonzero d h = ground arith

module _ ⦃os : PathApi⦄ where
  -- A successful `Add` has inserted the document.
  pub add_cases {ℓ} :
      (P : Workspace → Type ℓ) (w : Workspace) (d : Document) (index : Option ℕ)
      → P w
      → (IsGood d
          → find_document w d.id ≡ none
          → contains_path w d.path ≡ false
          → P (insert_document w d (value_or index (length w.documents))))
      → P (add w d index).0
  unfolding add
  add_cases P w d index refused accepted = ground arith

  pub add-IsValid :
      (w : Workspace) (d : Document) (index : Option ℕ) → IsValid w → IsValid (add w d index).0
  add-IsValid w d index v =
      add_cases IsValid w d index v
        λ good fresh apart. insert_document-IsValid w d _ good (IsGood-nonzero d good) fresh apart v

  remember_at-IsValid :
      (w : Workspace) (flag : Bool) (o : Option Document)
      → IsValid w
      → IsValid (remember_at w flag o)
  remember_at-IsValid w false o v = v
  remember_at-IsValid w true none v = v
  remember_at-IsValid w true (some d) v = remember_closed-IsValid w d v

  documents-remember_at :
      (w : Workspace) (flag : Bool) (o : Option Document)
      → (remember_at w flag o).documents ≡ w.documents
  unfolding remember_closed
  documents-remember_at w false o = refl
  documents-remember_at w true none = refl
  documents-remember_at w true (some d) = ground arith

  pub close-IsValid :
      (w : Workspace) (id : ℕ) (flag : Bool) → IsValid w → IsValid (close w id flag).0
  unfolding close
  close-IsValid w id flag v = elim (Option-cases (find_document w id)) [
    | inl miss ↦ rw (miss, close) v
    | inr (i, hit) ↦
        let (d, at, same) = find_document_sound w id hit in
        let o = get_elem? w.documents i in
        rw (hit, close)
          (close_at-IsValid (remember_at w flag o) id i d (rw (documents-remember_at w flag o) at)
            same (remember_at-IsValid w flag o v))
  ]

  pub move-IsValid : (w : Workspace) (id j : ℕ) → IsValid w → IsValid (move w id j).0
  unfolding move move_from
  move-IsValid w id j v = elim (Option-cases (find_document w id)) [
    | inl miss ↦ rw (miss, move) v
    | inr (i, hit) ↦
        rw (hit, move) (ground (arith, move_entry-IsValid w i j (get_elem? w.documents i) refl v))
  ]

  pub activate-IsValid : (w : Workspace) (id : ℕ) → IsValid w → IsValid (activate w id).0
  unfolding activate
  activate-IsValid w id v = elim (Option-cases (find_document w id)) [
    | inl miss ↦ rw (miss, activate) v
    | inr (i, hit) ↦
        rw (hit, activate)
          (ground (arith, active-IsValid w id (next_u64 w.revision) (find_document-mem w id hit) v))
  ]

  pub set_dirty-IsValid :
      (w : Workspace) (id : ℕ) (b : Bool) → IsValid w → IsValid (set_dirty w id b).0
  unfolding set_dirty is_valid_document
  set_dirty-IsValid w id b v = elim (Option-cases (find_document w id)) [
    | inl miss ↦ rw (miss, set_dirty) v
    | inr (i, hit) ↦
        let kept =
          write-IsValid w (λ d. record d { dirty = b }) i (λ d. refl) (λ d. refl) (λ d h. h) v in
        rw (hit, set_dirty) (ground (arith, kept))
  ]

  pub set_undo_state-IsValid :
      (w : Workspace) (id : ℕ) (undo redo : Bool)
      → IsValid w
      → IsValid (set_undo_state w id undo redo).0
  unfolding set_undo_state is_valid_document
  set_undo_state-IsValid w id undo redo v = elim (Option-cases (find_document w id)) [
    | inl miss ↦ rw (miss, set_undo_state) v
    | inr (i, hit) ↦
        let kept =
          write-IsValid w (λ d. record d { can_undo = undo; can_redo = redo }) i (λ d. refl)
            (λ d. refl) (λ d h. h) v in
        rw (hit, set_undo_state) (ground (arith, kept))
  ]

  view-IsGood :
      (s : ViewState)
      → view_is_valid s ≡ true
      → (d : Document) → IsGood d
      → IsGood (record d { view = s })
  unfolding is_valid_document
  view-IsGood s e d h = ground arith

  pub set_view_state-IsValid :
      (w : Workspace) (id : ℕ) (s : ViewState) → IsValid w → IsValid (set_view_state w id s).0
  unfolding set_view_state
  set_view_state-IsValid w id s v = elim (Bool-cases (view_is_valid s)) [
    | inr bad ↦ rw (bad, set_view_state) v
    | inl fine ↦
        rw (fine, set_view_state)
          (elim (Option-cases (find_document w id)) [
            | inl miss ↦ rw (miss, set_view_state) v
            | inr (i, hit) ↦
                rw (hit, set_view_state)
                  (write-IsValid w (λ d. record d { view = s }) i (λ d. refl) (λ d. refl)
                    (view-IsGood s fine) v)
          ])
  ]

  title-IsGood :
      (title path : Text)
      → title ≢ []
      → (d : Document) → IsGood d
      → IsGood (record d { title = title; path = path })
  unfolding is_valid_document
  title-IsGood title path n d h = ground arith

  -- The new path differs from those of the documents with other IDs.
  other_paths :
      (w : Workspace) (id : ℕ) (path : Text) (e : Document)
      → not (is_nil path) && any (λ d. not (d.id == id) && same_path d.path path) w.documents
        ≡ false
      → Mem e w.documents
      → e.id ≢ id
      → Apart path e.path
  unfolding same_path
  other_paths w id [] e h m n = refl
  other_paths w id (c ∷ path) e h m n =
      same_path_comm (c ∷ path) e.path
      ∙ ground
          (arith, any_none (λ d. not (d.id == id) && same_path d.path (c ∷ path)) w.documents h e m)

  renamed-IsValid :
      (w : Workspace) (id i : ℕ) (title path : Text) (d : Document)
      → title ≢ []
      → get_elem? w.documents i ≡ some d
      → d.id ≡ id
      → not (is_nil path) && any (λ e. not (e.id == id) && same_path e.path path) w.documents
        ≡ false
      → IsValid w
      → IsValid (write w (λ e. record e { title = title; path = path }) i)
  unfolding write
  renamed-IsValid w id i title path d titled at same free v =
      let f : Document → Document = λ e. record e { title = title; path = path } in
      let kept = map-modify document_id f (λ e. refl) w.documents i in
      let split = erase_idx-perm w.documents i at in
      record {
        ids = rw kept v.ids;
        good = All-modify IsGood f (title-IsGood title path titled) w.documents i v.good;
        apart = Pairwise-perm (Perm.symm (modify-perm f w.documents i at)) (
            Pairwise-cons.1 (
              λ e m.
                  other_paths w id path e free ((Perm.mem_iff split).1 (mem-cons_of_mem d m))
                    (λ clash. (IsIds-erase_idx document_id w.documents i at v.ids).1 (
                      subst (λ k. Mem k (keys document_id (erase_idx w.documents i)))
                        (clash ∙ sym same) (mem-map_of_mem document_id m))),
              (Pairwise-cons.0 (Pairwise-perm split v.apart)).1,
            ));
        selection = rw kept v.selection;
        recent = v.recent;
      }

  pub rename-IsValid :
      (w : Workspace) (id : ℕ) (title path : Text) → IsValid w → IsValid (rename w id title path).0
  unfolding rename
  rename-IsValid w id [] path v = v
  rename-IsValid w id (c ∷ title) path v = elim (Option-cases (find_document w id)) [
    | inl miss ↦ rw (miss, rename) v
    | inr (i, hit) ↦
        let (d, at, same) = find_document_sound w id hit in
        rw (hit, rename)
          (ground (arith, renamed-IsValid w id i (c ∷ title) path d (λ e. cc) at same))
  ]
