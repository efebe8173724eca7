-- ===== src/DocumentSession/RoundTrip/Whole.antt =====
-- Whole texts of src/document_session.cpp: a session that is written is read back.
use mwfl.Prelude.{
  ◌||◌, ℕ, ◌≤◌, ◌<◌, ◌≡◌, refl, sym, ap, ◌∙◌, inr, true, false, some, List, [], ◌∷◌, ◌++◌, map,
  arith, u64_mod, ◌==◌, length, any, All, All-append,
}
use mathlib.Core.List.{append_assoc, append-nil, map-append}
use mwfl.TextFile.{Utf8Api}
use mwfl.Stream.Doubles.{DoubleFormat, IsExact}
use mwfl.Stream.Lines.{OneLine, ends_cleanly, utf8_size, lines-unlines}
use mwfl.Stream.Steps.{bind_inr, or_fail}
use mwfl.DocumentSession.{
  SessionDocument, WorkspaceSession, Session, Limits, malformed, current_version, document_line,
  header_line,
}
use mwfl.DocumentSession.Distinct.{distinct, any-map, distinct_new}
use mwfl.DocumentSession.Fields.{
  DocumentIsPrintable, parse_header-header_line, document_one_line, workspace_one_line,
  header_one_line,
}
use mwfl.DocumentSession.Read.{
  read_workspaces, read_session, parse_session, workspace_lines, all_lines, serialize,
}
use mwfl.DocumentSession.RoundTrip.{WorkspaceIsPrintable, read_workspace-workspace_lines}

abbrev pub workspace_id : WorkspaceSession → ℕ
workspace_id w = w.workspace

-- What a session can hold for its text to be read back, within the limits.
pub record IsPrintable (limits : Limits) (s : Session) : Type 0 where
  pub version_is_known : s.schema_version ≤ current_version
  pub count_fits : length s.workspaces ≤ limits.maximum_workspaces
  pub size_fits : length s.workspaces < u64_mod
  pub workspaces_printable : All (WorkspaceIsPrintable limits) s.workspaces
  pub workspaces_distinct : distinct (map workspace_id s.workspaces) ≡ true

-- The session as it is read: its text has the current version from then on.
abbrev pub migrated : Session → Session
migrated s = record s { schema_version = current_version }

module _ (f : DoubleFormat) (exact : IsExact f) (limits : Limits) where
  read_workspaces-all_lines :
      (before ws : List WorkspaceSession)
      → All (WorkspaceIsPrintable limits) ws
      → distinct (map workspace_id before ++ map workspace_id ws) ≡ true
      → read_workspaces f limits (length ws) before (all_lines f ws) ≡ inr (before ++ ws, [])
  unfolding read_workspaces all_lines
  read_workspaces-all_lines before [] h new = rw (append-nil before) refl
  read_workspaces-all_lines before (w ∷ ws) h new =
      let fresh : any (λ other. other.workspace == w.workspace) before ≡ false =
        sym (any-map (λ y. y == w.workspace) workspace_id before)
        ∙ distinct_new (map workspace_id before) w.workspace (map workspace_id ws) new in
      let moved : map workspace_id (before ++ w ∷ []) ++ map workspace_id ws
          ≡ map workspace_id before ++ map workspace_id (w ∷ ws) =
        simp (map-append, append_assoc) in
      bind_inr _ _ (read_workspace-workspace_lines f limits w (all_lines f ws) exact h.0) (
        rw fresh (
          read_workspaces-all_lines (before ++ w ∷ []) ws h.1 (ap distinct moved ∙ new)
          ∙ ap (λ l. inr (l, [])) (append_assoc before (w ∷ []) ws)))

  documents_one_line :
      (tag : ℕ) (ds : List SessionDocument)
      → ((tag == 10) || (tag == 65535)) ≡ false
      → All (DocumentIsPrintable limits) ds
      → All OneLine (map (document_line f tag) ds)
  documents_one_line tag [] t h = tt
  documents_one_line tag (d ∷ ds) t h =
      (document_one_line f limits tag d t exact h.0, documents_one_line tag ds t h.1)

  workspaces_one_line :
      (ws : List WorkspaceSession)
      → All (WorkspaceIsPrintable limits) ws
      → All OneLine (all_lines f ws)
  unfolding all_lines workspace_lines
  workspaces_one_line [] h = tt
  workspaces_one_line (w ∷ ws) h = (
    workspace_one_line w,
    All-append OneLine (map (document_line f b'D') w.documents) _
        (documents_one_line b'D' w.documents refl h.0.documents_printable)
        (All-append OneLine (map (document_line f b'R') w.recently_closed) _
          (documents_one_line b'R' w.recently_closed refl h.0.recent_printable)
          ((refl, tt), workspaces_one_line ws h.1)),
  )

  read_session-lines :
      (s : Session)
      → IsPrintable limits s
      → read_session f limits (header_line s ∷ all_lines f s.workspaces) ≡ inr (migrated s)
  unfolding read_session ends_cleanly any
  read_session-lines s h =
      bind_inr _ _
        (ap (or_fail malformed)
          (parse_header-header_line s (omega (arith, h.version_is_known)) h.size_fits))
        (bind_inr _ _ {a = (s.workspaces, [])}
          (ground (
            arith,
            h.version_is_known,
            h.count_fits,
            read_workspaces-all_lines [] s.workspaces h.workspaces_printable h.workspaces_distinct,
          ))
          refl)

  module _ ⦃os : Utf8Api⦄ where
    -- A session whose values can be printed, of the current version or the one before, and whose
    -- text is within the size limit, is given back by the parser of its text, with the current
    -- version.
    pub parse_document_session-serialize :
        (s : Session) {bytes : ℕ}
        → IsPrintable limits s
        → utf8_size (serialize f s) ≡ some bytes
        → bytes ≤ limits.maximum_bytes
        → parse_session f limits (serialize f s) ≡ inr (migrated s)
    unfolding parse_session serialize
    parse_document_session-serialize s h u k = bind_inr _ _ (ap (or_fail malformed) u) (
        ground (
          arith,
          k,
          ap (read_session f limits) (
              lines-unlines (header_line s ∷ all_lines f s.workspaces)
                (header_one_line s, workspaces_one_line s.workspaces h.workspaces_printable)),
          read_session-lines s h,
        ))
