-- ===== src/DocumentCoordination.antt =====
-- Closing all documents of a workspace together: src/document_coordination.cpp and
-- include/mwfl/document_coordination.h. This file has the plan and its execution; the child
-- Projection has what the active document shows on its commands. A callback is a function of the
-- workspace, which it may change; `none` as its answer is an exception.
pub mod Projection
pub mod Plan
pub mod Execution
pub mod Tests
use mwfl.Prelude.{
  ℕ, zero, suc, ◌+◌, ◌-◌, ◌*◌, ◌/◌, ◌%◌, ◌^◌, ◌≤◌, ◌<◌, min, max, ◌≡◌, refl, sym, ap, subst, ◌∙◌,
  ◌≢◌, ◌↔◌, ◌⊎◌, inl, inr, Bool, true, false, not, ◌&&◌, ◌||◌, Option, none, some, List, [], ◌∷◌,
  ◌++◌, map, Mem, Nodup, Perm, arith, Text, u64_mod, next_u64, ltb, leb, ◌==◌, if◌then◌else◌,
  ltb→lt, lt→ltb, leb→le, ==_iff, ==_refl, Bool-cases, Option-cases, text_eq, text_eq_iff, opt_eq,
  ◌>>=◌, is_nil, is_some, length, get_elem?, take, drop, insert_at, erase_idx, modify, find_index,
  find, any, erase_if, length-append, length-take, length-drop, length-insert_at, length-erase_idx,
  length-modify, get_elem?-insert_at_self, erase_idx-insert_at, get_elem?_of_lt,
  lt-length_of_get_elem?, mem_of_get_elem?, insert_at-perm, erase_idx-perm, find_index_sound,
  find_index-any, length-map, get_elem?-map, map-insert_at, map-erase_idx, map-modify, shift, All,
  All-append, All-insert_at, All-erase_idx, All-modify, All-take, All-erase_if, All-get_elem?,
  get_elem?-erase_idx_lt, get_elem?-erase_idx_le, heir, get_elem?-min-erase_idx,
}
use mwfl.DocumentWorkspace.{
  PathApi, Document, ViewState, Status, Result, Workspace, create, document_id, is_valid_document,
  find_document, same_path, contains_path, insert_document, remember_closed, remember_at, close_at,
  write, move_entry, add, close, rename, move, move_from, activate, set_dirty, set_undo_state,
  set_view_state, view_is_valid, is_success, value_or, done, fail,
}
use mwfl.DocumentWorkspace.Closing.{close_many}

pub data Choice : Type 0 where
  save discard cancel : Choice

pub record Decision : Type 0 where
  pub document : ℕ
  pub choice : Choice

pub data CloseStatus : Type 0 where
  ready success incomplete_decisions cancelled invalid_argument stale_workspace : CloseStatus
  save_failed callback_failure commit_failure : CloseStatus

pub record ClosePlan : Type 0 where
  pub status : CloseStatus
  pub workspace_revision : ℕ
  pub save_before_close : List ℕ
  pub close_documents : List ℕ

-- `explicit operator bool` of a plan.
abbrev pub is_ready : CloseStatus → Bool
is_ready ready = true
is_ready s = false

-- `Find` of the workspace.
unfoldable pub document_of : Workspace → ℕ → Option Document
document_of w id = elim (find_document w id) [ none ↦ none | some i ↦ get_elem? w.documents i ]

-- `decided && decided->dirty`
abbrev pub is_dirty : Option Document → Bool
is_dirty none = false
is_dirty (some d) = d.dirty

-- The first loop: every decision is about a dirty document of the workspace, and about another one
-- than the decisions behind it.
unfoldable pub valid_decisions : Workspace → List Decision → Bool
valid_decisions w [] = true
valid_decisions w (d ∷ ds) =
    not (d.document == 0)
    && is_dirty (document_of w d.document)
    && not (any (λ other. d.document == other.document) ds)
    && valid_decisions w ds

-- What a choice adds to the documents to save, or the status with which it ends the loop.
abbrev pub chosen : ℕ → Choice → CloseStatus ⊎ List ℕ
chosen id save = inr (id ∷ [])
chosen id discard = inr []
chosen id cancel = inl cancelled

abbrev pub answer : ℕ → Option Decision → CloseStatus ⊎ List ℕ
answer id none = inl incomplete_decisions
answer id (some d) = chosen id d.choice

unfoldable pub visit_one : List Decision → Document → CloseStatus ⊎ List ℕ
visit_one decisions d =
    if not d.dirty then inr [] else answer d.id (find (λ e. e.document == d.id) decisions)

-- The second loop, over the documents.
unfoldable pub visit : List Decision → List Document → ClosePlan → ClosePlan
visit decisions [] plan = record plan { status = ready }
visit decisions (d ∷ ds) plan = elim (visit_one decisions d) [
  | inl s ↦ record plan { status = s; close_documents = plan.close_documents ++ d.id ∷ [] }
  | inr saves ↦ visit decisions ds (record plan {
    save_before_close = plan.save_before_close ++ saves;
    close_documents = plan.close_documents ++ d.id ∷ [];
  })
]

abbrev pub fresh_plan : Workspace → ClosePlan
fresh_plan w = record {
  status = invalid_argument;
  workspace_revision = w.revision;
  save_before_close = [];
  close_documents = [];
}

-- `BuildCoordinatedClosePlan`.
unfoldable pub build_plan : Workspace → List Decision → ClosePlan
build_plan w decisions =
    if valid_decisions w decisions then visit decisions w.documents (fresh_plan w) else fresh_plan w

pub record CloseResult : Type 0 where
  pub status : CloseStatus
  pub failed_document : Option ℕ

abbrev pub result : CloseStatus → Option ℕ → CloseResult
result s o = record { status = s; failed_document = o }

-- `CommitCoordinatedCloseAfterSaves`.
unfoldable pub commit : Workspace → ClosePlan → Workspace × CloseResult
commit w plan =
    if not (is_ready plan.status)
    then (w, result invalid_argument none)
    else if not (w.revision == plan.workspace_revision)
    then (w, result stale_workspace none)
    else if is_nil plan.close_documents
    then (w, result success none)
    else let closed = close_many w plan.close_documents in
      if not (is_success closed.1.status)
      then (closed.0, result commit_failure none)
      else (closed.0, result success none)

-- A save handler: the workspace that it leaves, and its answer.
abbrev pub Handler : Type 0
Handler = ℕ → Workspace → Workspace × Option Bool

-- The loop over the saves; `none` is the status where all of them succeeded.
unfoldable pub run_saves : Handler → ℕ → List ℕ → Workspace → Workspace × Option CloseResult
run_saves h revision [] w = (w, none)
run_saves h revision (id ∷ ids) w =
    let after = (h id w).0 in
    elim (h id w).1 [
      | none ↦ (after, some (result callback_failure (some id)))
      | some saved ↦ elim saved [
        | false ↦ (after, some (result save_failed (some id)))
        | true ↦ elim (after.revision == revision) [
          | false ↦ (after, some (result stale_workspace (some id)))
          | true ↦ run_saves h revision ids after
        ]
      ]
    ]

-- The rest of `ExecuteCoordinatedClose`.
abbrev pub finish : ClosePlan → Workspace × Option CloseResult → Workspace × CloseResult
finish plan (w, some r) = (w, r)
finish plan (w, none) = commit w plan

abbrev pub head_or_none : List ℕ → Option ℕ
head_or_none [] = none
head_or_none (x ∷ xs) = some x

abbrev pub run_handler : Workspace → ClosePlan → Option Handler → Workspace × CloseResult
run_handler w plan none =
    if is_nil plan.save_before_close
    then finish plan (w, none)
    else (w, result invalid_argument (head_or_none plan.save_before_close))
run_handler w plan (some h) =
    finish plan (run_saves h plan.workspace_revision plan.save_before_close w)

-- `ExecuteCoordinatedClose`; an empty `std::function` is `none`.
unfoldable pub execute : Workspace → ClosePlan → Option Handler → Workspace × CloseResult
execute w plan handler =
    if not (is_ready plan.status)
    then (w, result invalid_argument none)
    else if not (w.revision == plan.workspace_revision)
    then (w, result stale_workspace none)
    else if is_nil plan.close_documents
    then (w, result success none)
    else run_handler w plan handler
