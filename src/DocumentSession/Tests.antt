-- ===== src/DocumentSession/Tests.antt =====
-- Sessions written, read and restored as src/document_session.cpp does, and the theorems applied
-- there.
use mwfl.Prelude.{
  text_eq_comm, ℕ, ◌≡◌, refl, inr, true, false, none, some, [], ◌∷◌, arith, ◌==◌, if◌then◌else◌,
  text_eq, codes, insert_at, erase_idx, any, erase_if,
}
use mwfl.TextFile.{Utf8Api, int_max}
use mwfl.Prelude.Double.{le_double, tenth, of_ℕ}
use mwfl.DocumentWorkspace.{
  PathApi, Document, Workspace, ViewState, is_valid_document, view_is_valid, find_document,
  same_path, contains_path, insert_document, add, close, remember_closed, close_at, activate,
  create,
}
use mwfl.DocumentWorkspace.Recent.{restore, restore_recently_closed}
use mwfl.Stream.{show_fuel, show, show_bool, escape, show_quoted}
use mwfl.Stream.Plain.{plain, plain-IsExact, show_plain}
use mwfl.Stream.Lines.{unlines, utf8_size}
use mwfl.DocumentSession.{
  WorkspaceSession, Session, default_limits, put_stamp, document_line, header_line, workspace_line,
}
use mwfl.DocumentSession.Distinct.{distinct}
use mwfl.DocumentSession.Read.{parse_session, workspace_lines, all_lines, serialize}
use mwfl.DocumentSession.RoundTrip.{WorkspaceIsPrintable}
use mwfl.DocumentSession.RoundTrip.Whole.{IsPrintable, migrated, parse_document_session-serialize}
use mwfl.DocumentSession.Restore.{
  Disposition, missing, Callbacks, partial_success, invalid_argument, restore_session, capture,
  probe, probe_documents, restore_all, restore_documents, restore_active, assess, assess_recent,
  restore_recent, with_status, add_issue,
}
use mwfl.Prelude.Keyed.{index_of}
use mwfl.DocumentSession.Restore.Restored.{Restored}

instance abbrev ascii_api : Utf8Api
ascii_api = record { to_wide = λ bytes. some bytes; to_multi_byte = λ text. some text }

abbrev view : ViewState
view = record { selection_start = 2; selection_end = 5; first_visible_unit = 0; zoom = of_ℕ 1 }

abbrev notes : Document
notes = record {
  id = 7;
  title = codes "Notes";
  path = codes "c:\\notes.txt";
  dirty = true;
  can_undo = true;
  can_redo = false;
  view = view;
}

abbrev draft : Document
draft = record {
  id = 9;
  title = codes "Draft";
  path = [];
  dirty = false;
  can_undo = false;
  can_redo = false;
  view = view;
}

abbrev old : Document
old = record {
  id = 4;
  title = codes "Old";
  path = codes "c:\\old.txt";
  dirty = false;
  can_undo = false;
  can_redo = false;
  view = view;
}

abbrev saved : WorkspaceSession
saved = record {
  workspace = 3;
  active = some 9;
  documents =
      record {
        metadata = notes;
        stamp = some (record { size = 12; last_write_time = 99; file_id = 5; volume_serial = 77 });
      }
      ∷ record { metadata = draft; stamp = none }
      ∷ [];
  recently_closed = record { metadata = old; stamp = none } ∷ [];
}

-- A session as an older version wrote it.
abbrev session : Session
session = record { schema_version = 0; workspaces = saved ∷ [] }

valid_documents :
    (is_valid_document notes ≡ true)
    × (is_valid_document draft ≡ true)
    × (is_valid_document old ≡ true)
unfolding is_valid_document view_is_valid le_double tenth
valid_documents = (refl, refl, refl)

saved_is_printable : WorkspaceIsPrintable default_limits saved
unfolding distinct any
saved_is_printable = record {
  head = omega arith;
  counts_fit = omega arith;
  sum_fits = omega arith;
  documents_printable = (
    record {
      valid = valid_documents.0;
      id_fits = omega arith;
      title_fits = omega arith;
      path_fits = omega arith;
      title_is_one_line = ground arith;
      path_is_one_line = ground arith;
      start_fits = omega arith;
      end_fits = omega arith;
      first_fits = omega arith;
      stamp_fits = omega arith;
    },
    (
      record {
        valid = valid_documents.1;
        id_fits = omega arith;
        title_fits = omega arith;
        path_fits = omega arith;
        title_is_one_line = ground arith;
        path_is_one_line = tt;
        start_fits = omega arith;
        end_fits = omega arith;
        first_fits = omega arith;
        stamp_fits = tt;
      },
      tt,
    ),
  );
  recent_printable = (
    record {
      valid = valid_documents.2;
      id_fits = omega arith;
      title_fits = omega arith;
      path_fits = omega arith;
      title_is_one_line = ground arith;
      path_is_one_line = ground arith;
      start_fits = omega arith;
      end_fits = omega arith;
      first_fits = omega arith;
      stamp_fits = tt;
    },
    tt,
  );
  ids_distinct = refl;
  active_open = refl;
}

session-IsPrintable : IsPrintable default_limits session
unfolding distinct any
session-IsPrintable = record {
  version_is_known = omega arith;
  count_fits = omega arith;
  size_fits = omega arith;
  workspaces_printable = (saved_is_printable, tt);
  workspaces_distinct = refl;
}

abbrev size : ℕ
size = 1133

size-session : utf8_size (serialize plain session) ≡ some size
unfolding utf8_size int_max serialize unlines header_line all_lines workspace_lines workspace_line
    document_line put_stamp show_plain show show_fuel show_bool show_quoted escape
size-session = refl

parse_document_session-serialize_example :
    parse_session plain default_limits (serialize plain session) ≡ inr (migrated session)
parse_document_session-serialize_example =
    parse_document_session-serialize plain plain-IsExact default_limits session session-IsPrintable
      size-session (omega arith)

-- Paths that are normal already, told apart by every letter.
instance abbrev plain_paths : PathApi
plain_paths = record {
  normal_native = λ t. t;
  equal_ordinal = text_eq;
  equal_ordinal_comm = text_eq_comm;
}

-- An application that no longer has the draft, and takes back everything else.
abbrev found : Callbacks
found = record {
  validate = λ item w. (some (if item.metadata.id == 9 then missing else Disposition.restore), w);
  restore_document = λ item w. (some true, w);
}

abbrev empty : Workspace
empty = record {
  id = 3;
  maximum_recently_closed = 5;
  documents = [];
  recently_closed = [];
  active = none;
  revision = 0;
}

restored :
    ((restore_session empty saved (some found)).1.status ≡ partial_success)
    × ((restore_session empty saved (some found)).0.documents ≡ notes ∷ [])
    × ((restore_session empty saved (some found)).0.active ≡ some 7)
    × ((restore_session empty saved (some found)).0.recently_closed ≡ old ∷ [])
unfolding restore_session probe probe_documents restore_all restore_documents restore_active assess
    assess_recent restore_recent with_status add_issue create add find_document contains_path
    same_path insert_document insert_at any index_of text_eq is_valid_document view_is_valid
    le_double tenth activate restore_recently_closed restore
restored = (refl, refl, refl, refl)

-- A file that is closed and then opened again under another ID stands in both lists.
abbrev reopened : Workspace
reopened = (add (close (add empty old none).0 4 true).0 (record old { id = 5 }) none).0

-- The session of such a workspace is refused as a whole.
reopened_is_refused :
    (restore_session empty (capture reopened) (some found)).1.status ≡ invalid_argument
unfolding restore_session capture probe probe_documents create add close remember_closed close_at
    erase_if erase_idx find_document contains_path same_path insert_document insert_at any index_of
    text_eq is_valid_document view_is_valid le_double tenth activate restore_recently_closed restore
reopened_is_refused = refl
