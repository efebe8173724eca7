-- ===== src/DocumentSession.antt =====
-- The text format of the sessions of document workspaces: src/document_session.cpp and
-- include/mwfl/document_session.h. This file has the types and the lines, printed and parsed. Read
-- has `ParseDocumentSession`, and Restore has the capture and the restoring of a workspace.
pub mod Read
pub mod Fields
pub mod Distinct
pub mod RoundTrip
pub mod Restore
pub mod Store
mod Tests
use mwfl.Prelude.{
  ℕ, zero, suc, ◌+◌, ◌-◌, ◌*◌, ◌/◌, ◌%◌, ◌^◌, ◌≤◌, ◌<◌, min, max, ◌≡◌, refl, sym, ap, subst, ◌∙◌,
  ◌≢◌, ◌↔◌, ◌⊎◌, inl, inr, Bool, true, false, not, ◌&&◌, ◌||◌, Option, none, some, List, [], ◌∷◌,
  ◌++◌, map, Mem, Nodup, Perm, arith, Text, u64_mod, next_u64, ltb, leb, ◌==◌, if◌then◌else◌,
  ltb→lt, lt→ltb, leb→le, ==_iff, ==_refl, Bool-cases, Option-cases, Either-cases, text_eq,
  text_eq_iff, opt_eq, codes, is_nil, is_some, length, get_elem?, take, drop, insert_at, erase_idx,
  modify, find_index, find, any, erase_if, length-append, length-take, length-drop,
  length-insert_at, length-erase_idx, length-modify, get_elem?-insert_at_self, erase_idx-insert_at,
  get_elem?_of_lt, lt-length_of_get_elem?, mem_of_get_elem?, insert_at-perm, erase_idx-perm,
  find_index_sound, find_index-any, length-map, get_elem?-map, map-insert_at, map-erase_idx,
  map-modify, shift, All, All-append, All-insert_at, All-erase_idx, All-modify, All-take,
  All-erase_if, All-get_elem?, All-mono, get_elem?-erase_idx_lt, get_elem?-erase_idx_le, heir,
  get_elem?-min-erase_idx,
}
use mwfl.TextFile.Files.{FileStamp}
use mwfl.DocumentWorkspace.{Document, ViewState, is_valid_document}
use mwfl.Stream.{
  Parser, ◌>>=◌, pure, pure_if, finish, read_unsigned, read_bool, read_char, read_word, read_quoted,
  show, show_bool, show_quoted, put, value_of, done_if, optional_code, optional_of,
}
use mwfl.Stream.Doubles.{DoubleFormat}

pub record SessionDocument : Type 0 where
  pub metadata : Document
  pub stamp : Option FileStamp

pub record WorkspaceSession : Type 0 where
  pub workspace : ℕ
  pub active : Option ℕ
  pub documents : List SessionDocument
  pub recently_closed : List SessionDocument

pub record Session : Type 0 where
  pub schema_version : ℕ
  pub workspaces : List WorkspaceSession

pub record Limits : Type 0 where
  pub maximum_bytes : ℕ
  pub maximum_workspaces : ℕ
  pub maximum_documents_per_workspace : ℕ
  pub maximum_string_units : ℕ

abbrev pub default_limits : Limits
default_limits = record {
  maximum_bytes = 4 * 1024 * 1024;
  maximum_workspaces = 32;
  maximum_documents_per_workspace = 4096;
  maximum_string_units = 32 * 1024;
}

pub data SessionStatus : Type 0 where
  success not_found unsupported_version malformed oversized duplicate_identity : SessionStatus
  io_error : SessionStatus

abbrev pub magic : Text
magic = codes "MWFL_DOCUMENT_SESSION"

-- `document_session_schema_version`.
abbrev pub current_version : ℕ
current_version = 1

abbrev pub session_id : SessionDocument → ℕ
session_id d = d.metadata.id

-- The end of `WriteDocument`: whether there is a stamp, and the stamp.
unfoldable pub put_stamp : Option FileStamp → Text
put_stamp none = put (show_bool false) []
put_stamp (some s) = put (show_bool true) (
    put (show s.size)
      (put (show s.last_write_time) (put (show s.file_id) (put (show s.volume_serial) []))))

-- `WriteDocument`.
unfoldable pub document_line : DoubleFormat → ℕ → SessionDocument → Text
document_line f tag d =
    tag
    ∷ put (show d.metadata.id) (
        put (show_quoted d.metadata.title) (
          put (show_quoted d.metadata.path) (
            put (show_bool d.metadata.dirty) (
              put (show_bool d.metadata.can_undo) (
                put (show_bool d.metadata.can_redo) (
                  put (show d.metadata.view.selection_start) (
                    put (show d.metadata.view.selection_end) (
                      put (show d.metadata.view.first_visible_unit)
                        (put (f.print d.metadata.view.zoom) (put_stamp d.stamp))))))))))

-- The stamp that follows `has_stamp`.
unfoldable pub read_stamp : Bool → Parser (Option FileStamp)
read_stamp false = pure none
read_stamp true = do
  size ← read_unsigned 64
  written ← read_unsigned 64
  file ← read_unsigned 64
  volume ← read_unsigned 32
  pure (
      some
        (record { size = size; last_write_time = written; file_id = file; volume_serial = volume }))

-- `ReadDocument`.
unfoldable pub read_document : DoubleFormat → Limits → Text → Option SessionDocument
read_document f limits line =
    let parser : Parser SessionDocument = do
      id ← read_unsigned 64
      title ← read_quoted
      path ← read_quoted
      dirty ← read_bool
      can_undo ← read_bool
      can_redo ← read_bool
      start ← read_unsigned 64
      end ← read_unsigned 64
      first ← read_unsigned 64
      zoom ← f.read
      has_stamp ← read_bool
      stamp ← read_stamp has_stamp
      let d : Document = record {
        id = id;
        title = title;
        path = path;
        dirty = dirty;
        can_undo = can_undo;
        can_redo = can_redo;
        view = record {
          selection_start = start;
          selection_end = end;
          first_visible_unit = first;
          zoom = zoom;
        };
      }
      done_if
          (is_valid_document d
            && leb (length title) limits.maximum_string_units
            && leb (length path) limits.maximum_string_units)
          record { metadata = d; stamp = stamp }
    in value_of (parser line)

-- The line of a document behind its tag and a space.
unfoldable pub parse_document : DoubleFormat → Limits → ℕ → Text → Option SessionDocument
parse_document f limits tag [] = none
parse_document f limits tag (c ∷ []) = none
parse_document f limits tag (c ∷ d ∷ line) =
    if (c == tag) && (d == 32) then read_document f limits line else none

unfoldable pub header_line : Session → Text
header_line s = magic ++ put (show s.schema_version) (put (show (length s.workspaces)) [])

-- The version and the number of workspaces.
unfoldable pub parse_header : Text → Option (ℕ × ℕ)
parse_header line =
    let parser : Parser (ℕ × ℕ) = do
      word ← read_word
      version ← read_unsigned 32
      count ← read_unsigned 64
      done_if (text_eq word magic) (version, count)
    in value_of (parser line)

unfoldable pub workspace_line : WorkspaceSession → Text
workspace_line w =
    b'W'
    ∷ put (show w.workspace) (
        put (show (optional_code w.active))
          (put (show (length w.documents)) (put (show (length w.recently_closed)) [])))

pub record WorkspaceHead : Type 0 where
  pub id : ℕ
  pub active : Option ℕ
  pub document_count : ℕ
  pub recent_count : ℕ

unfoldable pub parse_workspace_line : Text → Option WorkspaceHead
parse_workspace_line line =
    let parser : Parser WorkspaceHead = do
      tag ← read_char
      id ← read_unsigned 64
      active ← read_unsigned 64
      documents ← read_unsigned 64
      recent ← read_unsigned 64
      done_if ((tag == b'W') && not (id == 0)) record {
        id = id;
        active = optional_of active;
        document_count = documents;
        recent_count = recent;
      }
    in value_of (parser line)
