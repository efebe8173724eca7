-- ===== src/DocumentWorkspace/Tests.antt =====
-- Runs of src/document_workspace.cpp at concrete inputs, and the theorems applied there.
use mwfl.Prelude.{
  text_eq_comm, ℕ, ◌≡◌, refl, subst, true, false, none, some, [], ◌∷◌, ◌++◌, Perm, text_eq, opt_eq,
  insert_at, erase_idx, modify, find_index, erase_if,
}
use mwfl.DocumentWorkspace.{
  PathApi, Document, Workspace, create, is_valid_document, find_document, contains_path,
  insert_document, remember_closed, close_at, write, add, close, activate, set_dirty, view_is_valid,
  is_success,
}
use mwfl.Prelude.Double.{of_ℕ, le_double, tenth}
use mwfl.Prelude.Selection.{id_at}
use mwfl.Prelude.Keyed.{index_of}
use mwfl.DocumentWorkspace.Calls.{adds, closes, activates, dirties, step, run}
use mwfl.DocumentWorkspace.Closing.{close_many}
use mwfl.DocumentWorkspace.Transfer.{transfer_document}
use mwfl.DocumentWorkspace.Invariant.{IsValid}
use mwfl.DocumentWorkspace.Reachable.{step-IsValid, run-create-IsValid}
use mwfl.DocumentWorkspace.Refused.{step_refused}
use mwfl.DocumentWorkspace.CloseAll.{close_many_all}
use mwfl.DocumentWorkspace.Conserve.{transfer_document-perm}

-- Paths that are normal already, told apart by every letter.
instance abbrev plain_paths : PathApi
plain_paths = record {
  normal_native = λ t. t;
  equal_ordinal = text_eq;
  equal_ordinal_comm = text_eq_comm;
}

abbrev note : ℕ → Document
note id = record {
  id = id;
  title = 78 ∷ [];
  path = [];
  dirty = false;
  can_undo = false;
  can_redo = false;
  view = record { selection_start = 0; selection_end = 0; first_visible_unit = 0; zoom = of_ℕ 1 };
}

abbrev two_notes : Workspace
two_notes = record {
  id = 7;
  maximum_recently_closed = 10;
  documents = note 1 ∷ note 2 ∷ [];
  recently_closed = [];
  active = some 1;
  revision = 2;
}

abbrev one_note : Workspace
one_note = record two_notes { id = 8; documents = note 3 ∷ []; active = some 3 }

abbrev start : ℕ → Workspace
start id = record {
  id = id;
  maximum_recently_closed = 10;
  documents = [];
  recently_closed = [];
  active = none;
  revision = 0;
}

opened_two : run (start 7) (adds (note 1) none ∷ adds (note 2) none ∷ []) ≡ two_notes
unfolding run step add is_valid_document view_is_valid find_document index_of find_index
    contains_path insert_document insert_at le_double tenth
opened_two = refl

opened_one :
    run (start 8) (adds (note 3) none ∷ dirties 3 true ∷ dirties 3 false ∷ [])
    ≡ record one_note { revision = 3 }
unfolding run step add is_valid_document view_is_valid find_document index_of find_index
    contains_path insert_document insert_at le_double tenth set_dirty write modify
opened_one = refl

two_notes-IsValid : IsValid two_notes
unfolding create
two_notes-IsValid =
    subst (λ w. IsValid w) opened_two
      (run-create-IsValid 7 10 (adds (note 1) none ∷ adds (note 2) none ∷ []) refl)

-- A title that is empty is refused.
untitled : (add two_notes (record (note 5) { title = [] }) none).0 ≡ two_notes
unfolding add is_valid_document
untitled = refl

-- The neighbour becomes active when the active document is closed.
close_active : (close two_notes 1 true).0.active ≡ some 2
unfolding close close_at find_document index_of find_index erase_idx opt_eq remember_closed id_at
    erase_if
close_active = refl

step-IsValid_example : IsValid (step two_notes (closes 1 true)).0
step-IsValid_example = step-IsValid two_notes (closes 1 true) two_notes-IsValid

step_refused_example : (step two_notes (activates 9)).0 ≡ two_notes
unfolding step activate find_document index_of find_index
step_refused_example = step_refused two_notes (activates 9) refl

close_many_all_example :
    (is_success (close_many two_notes (1 ∷ 2 ∷ [])).1.status ≡ true)
    × ((close_many two_notes (1 ∷ 2 ∷ [])).0.documents ≡ [])
    × ((close_many two_notes (1 ∷ 2 ∷ [])).0.recently_closed ≡ [])
close_many_all_example = close_many_all two_notes two_notes-IsValid (λ e. cc)

transfer_document-perm_example :
    Perm
      ((transfer_document two_notes one_note 1 none).0.documents
        ++ (transfer_document two_notes one_note 1 none).1.documents)
      (note 1 ∷ note 2 ∷ note 3 ∷ [])
transfer_document-perm_example = transfer_document-perm two_notes one_note 1 none
