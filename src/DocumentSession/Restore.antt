-- ===== src/DocumentSession/Restore.antt =====
-- `CaptureWorkspaceSession` and `RestoreWorkspaceSession` of src/document_session.cpp. A callback of
-- the application is a function that may change the target, and `none` is an exception that it
-- throws; that an application keeps state of its own between two calls is not modelled.
pub mod Divided
pub mod Verdict
pub mod Opened
pub mod Gathered
pub mod Closed
pub mod Restored
use mwfl.Prelude.{
  ℕ, zero, suc, ◌+◌, ◌-◌, ◌*◌, ◌/◌, ◌%◌, ◌^◌, ◌≤◌, ◌<◌, min, max, ◌≡◌, refl, sym, ap, subst, ◌∙◌,
  ◌≢◌, ◌↔◌, ◌⊎◌, inl, inr, Bool, true, false, not, ◌&&◌, ◌||◌, Option, none, some, List, [], ◌∷◌,
  ◌++◌, map, Mem, Nodup, Perm, arith, Text, u64_mod, next_u64, ltb, leb, ◌==◌, if◌then◌else◌,
  ltb→lt, lt→ltb, leb→le, ==_iff, ==_refl, Bool-cases, Option-cases, Either-cases, text_eq,
  text_eq_iff, opt_eq, codes, is_nil, is_some, length, get_elem?, take, drop, insert_at, erase_idx,
  modify, find_index, find, any, erase_if, length-append, length-take, length-drop,
  length-insert_at, length-erase_idx, length-modify, get_elem?-insert_at_self, erase_idx-insert_at,
  get_elem?_of_lt, lt-length_of_get_elem?, mem_of_get_elem?, insert_at-perm, erase_idx-perm,
  find_index_sound, find_index-any, length-map, get_elem?-map, map-insert_at, map-erase_idx,
  map-modify, shift, All, All-append, All-insert_at, All-erase_idx, All-modify, All-take,
  All-erase_if, All-get_elem?, All-mono, get_elem?-erase_idx_lt, get_elem?-erase_idx_le, heir,
  get_elem?-min-erase_idx,
}
use mwfl.DocumentWorkspace.{
  PathApi, Document, Workspace, Result, create, find_document, add, activate, is_success,
}
use mwfl.DocumentWorkspace.Recent.{restore_recently_closed}
use mwfl.DocumentSession.{SessionDocument, WorkspaceSession, session_id}

abbrev pub captured : Document → SessionDocument
captured d = record { metadata = d; stamp = none }

unfoldable pub capture : Workspace → WorkspaceSession
capture w = record {
  workspace = w.id;
  active = w.active;
  documents = map captured w.documents;
  recently_closed = map captured w.recently_closed;
}

pub data Disposition : Type 0 where
  restore missing changed untrusted rejected : Disposition

abbrev pub is_restore : Disposition → Bool
is_restore restore = true
is_restore d = false

pub data RestoreStatus : Type 0 where
  success partial_success invalid_argument target_not_empty : RestoreStatus

pub record Issue : Type 0 where
  pub id : ℕ
  pub disposition : Disposition
  pub recently_closed : Bool

pub record RestoreResult : Type 0 where
  pub status : RestoreStatus
  pub restored_documents : ℕ
  pub restored_recently_closed : ℕ
  pub issues : List Issue
  -- whether `error` holds an exception
  pub failed : Bool

-- The validator and the restore handler.
pub record Callbacks : Type 0 where
  pub validate : SessionDocument → Workspace → Option Disposition × Workspace
  pub restore_document : SessionDocument → Workspace → Option Bool × Workspace

-- What is changed while documents are restored.
pub record Run : Type 0 where
  pub target : Workspace
  pub result : RestoreResult

unfoldable pub add_issue : SessionDocument → Disposition → Bool → RestoreResult → RestoreResult
add_issue item d closed r = record r {
  issues =
      r.issues ++ record { id = session_id item; disposition = d; recently_closed = closed } ∷ [];
}

-- The disposition after the restore handler, whether it threw, and the target.
abbrev pub after_handler : Option Bool × Workspace → Disposition × Bool × Workspace
after_handler (none, w) = (rejected, true, w)
after_handler (some true, w) = (restore, false, w)
after_handler (some false, w) = (rejected, false, w)

abbrev pub after_validator :
    Callbacks
    → SessionDocument
    → Bool
    → Option Disposition × Workspace
    → Disposition × Bool × Workspace
after_validator call item closed (none, w) = (rejected, true, w)
after_validator call item closed (some d, w) =
    if is_restore d && not closed
    then after_handler (call.restore_document item w)
    else (d, false, w)

-- A change of the target's revision rejects the document.
abbrev pub guarded : ℕ → Disposition × Bool × Workspace → Disposition × Bool × Workspace
guarded revision (d, threw, w) = (if w.revision == revision then d else rejected, threw, w)

abbrev pub judged : Callbacks → SessionDocument → Bool → Workspace → Disposition × Bool × Workspace
judged call item closed w =
    guarded w.revision (after_validator call item closed (call.validate item w))

-- What the lambda `assess` writes: the exception and the issue.
abbrev pub recorded :
    SessionDocument → Bool → RestoreResult → Disposition × Bool × Workspace → Bool × Run
recorded item closed r (d, threw, w) =
    let noted : RestoreResult = record r { failed = r.failed || threw } in
    (
      is_restore d,
      record { target = w; result = if is_restore d then noted else add_issue item d closed noted },
    )

-- The lambda `assess`: whether the document is to be restored.
unfoldable pub assess : Callbacks → SessionDocument → Bool → Run → Bool × Run
assess call item closed run = recorded item closed run.result (judged call item closed run.target)

unfoldable pub restore_active : Option ℕ → Run → Run
restore_active none run = run
restore_active (some id) run =
    if is_some (find_document run.target id)
    then record run { target = (activate run.target id).0 }
    else run

abbrev pub collect : SessionDocument → List SessionDocument → Bool → List SessionDocument
collect item recent true = recent ++ item ∷ []
collect item recent false = recent

-- The loop over the recently closed documents: those to restore.
unfoldable pub assess_recent :
    Callbacks → List SessionDocument → List SessionDocument → Run → List SessionDocument × Run
assess_recent call [] recent run = (recent, run)
assess_recent call (item ∷ items) recent run =
    let (kept, next) = assess call item true run in
    assess_recent call items (collect item recent kept) next

unfoldable pub reject_all : List SessionDocument → RestoreResult → RestoreResult
reject_all [] r = r
reject_all (item ∷ items) r = reject_all items (add_issue item rejected true r)

abbrev pub recent_restored : List SessionDocument → RestoreResult → Workspace × Result → Run
recent_restored recent r (w, done) = record {
  target = w;
  result =
      if is_success done.status
      then record r { restored_recently_closed = length recent }
      else reject_all recent r;
}

unfoldable pub with_status : RestoreResult → RestoreResult
with_status r = record r { status = if is_nil r.issues then success else partial_success }

abbrev pub nothing_restored : RestoreStatus → RestoreResult
nothing_restored status = record {
  status = status;
  restored_documents = 0;
  restored_recently_closed = 0;
  issues = [];
  failed = false;
}

abbrev pub finished : Run → Workspace × RestoreResult
finished run = (run.target, with_status run.result)

abbrev pub added : SessionDocument → RestoreResult → Workspace × Result → Run
added item r (w, done) = record {
  target = w;
  result =
      if is_success done.status
      then record r { restored_documents = suc r.restored_documents }
      else add_issue item rejected false r;
}

module _ ⦃os : PathApi⦄ where
  abbrev pub add_assessed : SessionDocument → Bool × Run → Run
  add_assessed item (true, run) = added item run.result (add run.target item.metadata none)
  add_assessed item (false, run) = run

  -- The loop over the open documents.
  unfoldable pub restore_documents : Callbacks → List SessionDocument → Run → Run
  restore_documents call [] run = run
  restore_documents call (item ∷ items) run =
      restore_documents call items (add_assessed item (assess call item false run))

  unfoldable pub restore_recent : List SessionDocument × Run → Run
  restore_recent (recent, run) =
      if is_nil recent
      then run
      else recent_restored recent run.result
          (restore_recently_closed run.target (map (λ item. item.metadata) recent))

  -- What follows the checks.
  unfoldable pub restore_all : Callbacks → WorkspaceSession → Run → Run
  restore_all call s run = restore_recent (
      assess_recent call s.recently_closed []
        (restore_active s.active (restore_documents call s.documents run)))

  -- The loop that adds the documents to the probe.
  unfoldable pub probe_documents : List SessionDocument → Workspace → Option Workspace
  probe_documents [] w = some w
  probe_documents (item ∷ items) w =
      let (next, done) = add w item.metadata none in
      if is_success done.status then probe_documents items next else none

  -- Whether every change of the model can succeed.
  unfoldable pub probe : WorkspaceSession → Bool
  probe s = elim (create s.workspace (length s.recently_closed)) [
    | none ↦ false
    | some w ↦ elim (probe_documents s.documents w) [
      | none ↦ false
      | some filled ↦
          is_success
            (restore_recently_closed filled
              (map (λ item. item.metadata) s.recently_closed)).1.status
    ]
  ]

  unfoldable pub restore_session :
      Workspace → WorkspaceSession → Option Callbacks → Workspace × RestoreResult
  restore_session w s none = (w, nothing_restored invalid_argument)
  restore_session w s (some call) =
      if (s.workspace == 0) || not (s.workspace == w.id)
      then (w, nothing_restored invalid_argument)
      else if not (is_nil w.documents) || not (is_nil w.recently_closed)
      then (w, nothing_restored target_not_empty)
      else if not (probe s)
      then (w, nothing_restored invalid_argument)
      else finished
          (restore_all call s (record { target = w; result = nothing_restored invalid_argument }))
