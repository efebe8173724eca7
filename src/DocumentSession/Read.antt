-- ===== src/DocumentSession/Read.antt =====
-- `SerializeDocumentSession` and `ParseDocumentSession` of src/document_session.cpp. The result of
-- the parser is a status or a session.
use mwfl.Prelude.{
  ℕ, zero, suc, ◌+◌, ◌%◌, ◌⊎◌, inl, inr, Bool, true, ◌||◌, Option, none, some, List, [], ◌∷◌, ◌++◌,
  map, Text, u64_mod, ltb, ◌==◌, if◌then◌else◌, text_eq, codes, any,
}
use mwfl.TextFile.{Utf8Api}
use mwfl.Stream.Doubles.{DoubleFormat}
use mwfl.Stream.Lines.{lines, unlines, ends_cleanly, utf8_size}
use mwfl.Stream.Steps.{◌>>=◌, or_fail, read_line}
use mwfl.DocumentSession.{
  SessionDocument, WorkspaceSession, Session, Limits, SessionStatus, unsupported_version, malformed,
  oversized, duplicate_identity, current_version, session_id, document_line, parse_document,
  header_line, parse_header, workspace_line, WorkspaceHead, parse_workspace_line,
}

-- `HasId`.
unfoldable pub has_id : WorkspaceSession → ℕ → Bool
has_id w id =
    any (λ item. session_id item == id) w.documents
    || any (λ item. session_id item == id) w.recently_closed

-- `di < document_count ? L'D' : L'R'`
abbrev pub tag_at : ℕ → ℕ → ℕ
tag_at documents i = if ltb i documents then b'D' else b'R'

-- The list that the document at `i` goes to.
unfoldable pub push_document : ℕ → ℕ → SessionDocument → WorkspaceSession → WorkspaceSession
push_document documents i d w =
    if ltb i documents
    then record w { documents = w.documents ++ d ∷ [] }
    else record w { recently_closed = w.recently_closed ++ d ∷ [] }

-- The line `E`.
unfoldable pub parse_end : Text → Option (Unit {0})
parse_end l = if text_eq l (codes "E") then some tt else none

abbrev pub active_is_open : WorkspaceSession → Option ℕ → Bool
active_is_open w none = true
active_is_open w (some id) = any (λ item. session_id item == id) w.documents

module _ (f : DoubleFormat) (limits : Limits) where
  -- The loop over `n` documents, from the one at `i`.
  unfoldable pub read_documents :
      ℕ → ℕ → ℕ → WorkspaceSession → List Text → SessionStatus ⊎ (WorkspaceSession × List Text)
  read_documents documents zero i w ls = inr (w, ls)
  read_documents documents (suc n) i w ls = do
    (d, rest) ← read_line malformed (parse_document f limits (tag_at documents i)) ls
    if has_id w (session_id d)
        then inl duplicate_identity
        else read_documents documents n (suc i) (push_document documents i d w) rest

  abbrev pub count_is_large : WorkspaceHead → Bool
  count_is_large h =
      ltb limits.maximum_documents_per_workspace h.document_count
      || ltb limits.maximum_documents_per_workspace h.recent_count
      || ltb limits.maximum_documents_per_workspace ((h.document_count + h.recent_count) % u64_mod)

  -- A workspace, from its line to its `E`.
  unfoldable pub read_workspace : List Text → SessionStatus ⊎ (WorkspaceSession × List Text)
  read_workspace ls0 = do
    (head, ls1) ← read_line malformed parse_workspace_line ls0
    (w, ls2) ←
        if count_is_large head
        then inl oversized
        else read_documents head.document_count
            ((head.document_count + head.recent_count) % u64_mod) 0
            (record {
              workspace = head.id;
              active = head.active;
              documents = [];
              recently_closed = [];
            })
            ls1
    (checked, ls3) ←
        if active_is_open w w.active then read_line malformed parse_end ls2 else inl malformed
    inr (w, ls3)

  -- The loop over `n` workspaces, behind those that were read.
  unfoldable pub read_workspaces :
      ℕ → List WorkspaceSession → List Text → SessionStatus ⊎ (List WorkspaceSession × List Text)
  read_workspaces zero ws ls = inr (ws, ls)
  read_workspaces (suc n) ws ls = do
    (w, rest) ← read_workspace ls
    if any (λ other. other.workspace == w.workspace) ws
        then inl duplicate_identity
        else read_workspaces n (ws ++ w ∷ []) rest

  -- The lines of a text. The session has the current version, whichever was read.
  unfoldable pub read_session : List Text → SessionStatus ⊎ Session
  read_session [] = inl malformed
  read_session (header ∷ ls) = do
    (version, count) ← or_fail malformed (parse_header header)
    (ws, rest) ←
        if ltb current_version version
        then inl unsupported_version
        else if ltb limits.maximum_workspaces count
        then inl oversized
        else read_workspaces count [] ls
    if ends_cleanly rest
        then inr (record { schema_version = current_version; workspaces = ws })
        else inl malformed

  module _ ⦃os : Utf8Api⦄ where
    unfoldable pub parse_session : Text → SessionStatus ⊎ Session
    parse_session text = do
      bytes ← or_fail malformed (utf8_size text)
      if ltb limits.maximum_bytes bytes then inl oversized else read_session (lines text)

-- The lines of a workspace, in front of others.
unfoldable pub workspace_lines : DoubleFormat → WorkspaceSession → List Text → List Text
workspace_lines f w rest =
    workspace_line w ∷ map (document_line f b'D') w.documents
    ++ (map (document_line f b'R') w.recently_closed ++ codes "E" ∷ rest)

unfoldable pub all_lines : DoubleFormat → List WorkspaceSession → List Text
all_lines f [] = []
all_lines f (w ∷ ws) = workspace_lines f w (all_lines f ws)

unfoldable pub serialize : DoubleFormat → Session → Text
serialize f s = unlines (header_line s ∷ all_lines f s.workspaces)
