-- ===== src/DocumentSession/Restore/Restored.antt =====
-- Which documents a restore of src/document_session.cpp leaves where, and what it reports.
use mathlib.Core.List.{Perm}
use mathlib.Core.List.Perm
use mwfl.Prelude.{All, ◌≡◌, true, false, List, ◌++◌, map, is_nil, length, take, if◌then◌else◌}
use mwfl.DocumentWorkspace.{PathApi, Workspace}
use mwfl.DocumentSession.{SessionDocument, WorkspaceSession}
use mwfl.DocumentSession.Restore.Verdict.{Taken, Refused, Dropped}
use mwfl.DocumentSession.Restore.{RestoreResult, Callbacks, success, partial_success}
use mwfl.DocumentSession.Restore.Divided.{issue_key, key_of}

-- The documents that were opened and refused, and those recently closed that were taken back and
-- dropped. The target holds the opened documents in their order, and of those taken back as many as
-- its list has room for; the issues name the others, and the counts are right. The callbacks
-- accepted what was opened or taken back; what was not, they or the model refused.
abbrev pub Restored :
    ⦃os : PathApi⦄ → Callbacks → WorkspaceSession → Workspace → Workspace × RestoreResult → Type 0
Restored call s w (next, r) =
    (opened : List SessionDocument) × (refused : List SessionDocument) × (reopened : List
      SessionDocument)
    × (dropped : List SessionDocument) × Perm s.documents (opened ++ refused)
    × Perm s.recently_closed (reopened ++ dropped)
    × (next.documents ≡ map (λ d. d.metadata) opened)
    × (next.recently_closed ≡ take w.maximum_recently_closed (map (λ d. d.metadata) reopened))
    × (map issue_key r.issues ≡ map (key_of false) refused ++ map (key_of true) dropped)
    × (r.restored_documents ≡ length opened)
    × (r.restored_recently_closed ≡ length reopened)
    × (r.status ≡ (if is_nil r.issues then success else partial_success))
    × All (Taken call false) opened
    × All (Refused call) refused
    × All (Taken call true) reopened
    × All (Dropped call) dropped
