-- ===== src/DocumentWorkspace/Recent.antt =====
-- The recently closed documents of src/document_workspace.cpp.
use mwfl.Prelude.{
  ℕ, ◌⊎◌, inl, inr, Bool, false, not, ◌&&◌, ◌||◌, none, some, List, [], ◌∷◌, ◌++◌, next_u64, ltb,
  ◌==◌, if◌then◌else◌, is_nil, is_some, length, get_elem?, erase_idx, any,
}
use mwfl.DocumentWorkspace.{
  PathApi, Document, Status, invalid_argument, not_found, duplicate_path, Result, Workspace,
  is_success, find_document, fail, done, is_valid_document, same_path, contains_path, add,
}

module _ ⦃os : PathApi⦄ where
  -- What follows a successful `Add`.
  unfoldable pub reopened : Workspace → ℕ → ℕ → Workspace
  reopened w id index = record w {
    recently_closed = erase_idx w.recently_closed index;
    active = some id;
    revision = next_u64 w.revision;
  }

  unfoldable pub reopen_recently_closed : Workspace → ℕ → Workspace × Result
  reopen_recently_closed w index = elim (get_elem? w.recently_closed index) [
    | none ↦ fail w not_found
    | some d ↦
        let added = add w (record d { dirty = false }) none in
        if is_success added.1.status then done (reopened added.0 d.id index) else added
  ]

  -- The same document or file stands in the list already.
  abbrev pub clashes : Document → List Document → Bool
  clashes d restored = any (λ e. (e.id == d.id) || same_path e.path d.path) restored

  -- The loop of `RestoreRecentlyClosed`, with the entries accepted so far.
  unfoldable pub restore : Workspace → List Document → List Document → Status ⊎ List Document
  restore w restored [] = inr restored
  restore w restored (d ∷ ds) =
      if not (is_valid_document d) || is_some (find_document w d.id)
      then inl invalid_argument
      else if (not (is_nil d.path) && contains_path w d.path) || clashes d restored
      then inl duplicate_path
      else restore w
          (if ltb (length restored) w.maximum_recently_closed then restored ++ d ∷ [] else restored)
          ds

  unfoldable pub restore_recently_closed : Workspace → List Document → Workspace × Result
  restore_recently_closed w ds = elim (restore w [] ds) [
    | inl s ↦ fail w s
    | inr restored ↦ done (record w { recently_closed = restored; revision = next_u64 w.revision })
  ]

unfoldable pub clear_recently_closed : Workspace → Workspace
clear_recently_closed w = record w { recently_closed = [] }
