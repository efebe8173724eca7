-- ===== src/DocumentWorkspace/Closing.antt =====
-- `CloseMany` of src/document_workspace.cpp: every ID is checked before anything is closed.
use mathlib.Core.Option
use mathlib.Core.List.{reverse}
use mwfl.Prelude.Keyed.{contains}
use mwfl.Prelude.{
  ℕ, Bool, not, ◌||◌, Option, none, some, List, [], ◌∷◌, ◌++◌, next_u64, ◌==◌, if◌then◌else◌,
  is_nil, is_some, take, drop, find, erase_if,
}
use mwfl.DocumentWorkspace.{
  Document, Status, invalid_argument, not_found, Result, Workspace, document_id, find_document,
  fail, done,
}

-- The loop over the IDs, with those that were accepted; the status is that of the first bad one.
-- Where it ends well, the accepted IDs are all of them.
unfoldable pub check_ids : Workspace → List ℕ → List ℕ → Option Status
check_ids w unique [] = none
check_ids w unique (id ∷ ids) =
    if (id == 0) || contains unique id
    then some invalid_argument
    else if not (is_some (find_document w id))
    then some not_found
    else check_ids w (unique ++ id ∷ []) ids

abbrev pub is_closing : List ℕ → Document → Bool
is_closing ids d = contains ids d.id

-- The first document that stays open at or behind the old active one, or else the nearest before.
unfoldable pub survivor : List ℕ → List Document → ℕ → Option ℕ
survivor ids documents old_active =
    elim (find (λ d. not (is_closing ids d)) (drop old_active documents)) [
      | some d ↦ some d.id
      | none ↦
          Option.map document_id
            (find (λ d. not (is_closing ids d)) (reverse (take old_active documents)))
    ]

abbrev pub or_zero : Option ℕ → ℕ
or_zero none = 0
or_zero (some i) = i

unfoldable pub next_active : Workspace → List ℕ → Option ℕ → Option ℕ
next_active w ids none = none
next_active w ids (some id) =
    if contains ids id then survivor ids w.documents (or_zero (find_document w id)) else some id

unfoldable pub close_all : Workspace → List ℕ → Workspace
close_all w ids = record w {
  documents = erase_if (is_closing ids) w.documents;
  active = next_active w ids w.active;
  revision = next_u64 w.revision;
}

unfoldable pub close_many : Workspace → List ℕ → Workspace × Result
close_many w ids =
    if is_nil ids
    then fail w invalid_argument
    else elim (check_ids w [] ids) [ some s ↦ fail w s | none ↦ done (close_all w ids) ]
