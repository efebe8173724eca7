-- ===== src/DocumentSession/Fields.antt =====
-- Each line of src/document_session.cpp read back, and with neither a line feed nor U+FFFF in it.
use mwfl.Prelude.{
  ◌||◌, ℕ, ◌^◌, ◌≤◌, ◌<◌, ◌≡◌, refl, ap, ◌∙◌, Bool, true, false, Option, none, some, [], ◌∷◌, arith,
  Text, u64_mod, ◌==◌, ==_refl, text_eq_iff, length, any, All-append,
}
use mwfl.Prelude.Double.{is_finite}
use mwfl.DocumentWorkspace.{Document, is_valid_document, view_is_valid}
use mwfl.Stream.{
  ◌>>=◌, read_bool, bind_step, is_space, read_unsigned, read_integer, skip_space, show, show_bool,
  show_quoted, put, value_of, optional_code,
}
use mwfl.Stream.Fields.{
  Ends, read_unsigned-put, read_bool-put, read_quoted-put, read_word-append, any-IsWord, IsProper,
  optional_back, done_lem, tag_lem,
}
use mwfl.Stream.Doubles.{DoubleFormat, IsExact}
use mwfl.Stream.Lines.{OneLine}
use mwfl.Stream.Printed.{show_one_line, show_bool_one_line, put_one_line, show_quoted_one_line}
use mwfl.TextFile.Files.{FileStamp}
use mwfl.DocumentSession.{
  SessionDocument, WorkspaceSession, Session, Limits, magic, put_stamp, document_line, read_stamp,
  read_document, parse_document, header_line, parse_header, workspace_line, WorkspaceHead,
  parse_workspace_line,
}

-- What a line can hold to be read back.
abbrev pub StampFits : Option FileStamp → Type 0
StampFits none = Unit
StampFits (some s) =
    (s.size < u64_mod)
    × (s.last_write_time < u64_mod)
    × (s.file_id < u64_mod)
    × (s.volume_serial < 2 ^ 32)

pub record DocumentIsPrintable (limits : Limits) (d : SessionDocument) : Type 0 where
  pub valid : is_valid_document d.metadata ≡ true
  pub id_fits : d.metadata.id < u64_mod
  pub title_fits : length d.metadata.title ≤ limits.maximum_string_units
  pub path_fits : length d.metadata.path ≤ limits.maximum_string_units
  pub title_is_one_line : OneLine d.metadata.title
  pub path_is_one_line : OneLine d.metadata.path
  pub start_fits : d.metadata.view.selection_start < u64_mod
  pub end_fits : d.metadata.view.selection_end < u64_mod
  pub first_fits : d.metadata.view.first_visible_unit < u64_mod
  pub stamp_fits : StampFits d.stamp

zoom_is_finite : (d : Document) → is_valid_document d ≡ true → is_finite d.view.zoom ≡ true
unfolding is_valid_document view_is_valid
zoom_is_finite d h = ground (arith, h)

Ends-put_stamp : (s : Option FileStamp) → Ends (put_stamp s)
unfolding put_stamp
Ends-put_stamp none = refl
Ends-put_stamp (some s) = refl

-- The stamp, and whether there is one.
stamp_lem :
    {A : Type 0} (s : Option FileStamp) (k : Option FileStamp → Text → Option (A × Text))
    {r : Option (A × Text)}
    → StampFits s
    → k s [] ≡ r
    → (◌>>=◌ read_bool λ has. ◌>>=◌ (read_stamp has) k) (put_stamp s) ≡ r
unfolding put_stamp read_stamp
stamp_lem none k h e = bind_step _ _ _ (read_bool-put false [] tt) (bind_step _ _ _ refl e)
stamp_lem (some s) k h e = bind_step _ _ _ (read_bool-put true _ refl) (
    bind_step _ _ _
      (bind_step _ _ _ (read_unsigned-put 64 s.size _ h.0 refl) (
        bind_step _ _ _ (read_unsigned-put 64 s.last_write_time _ h.1 refl) (
          bind_step _ _ _ (read_unsigned-put 64 s.file_id _ h.2 refl)
            (bind_step _ _ _ (read_unsigned-put 32 s.volume_serial _ h.3 tt) refl))))
      e)

-- The document of a line whose tag and first space are taken off.
without_space : (w : ℕ) (t : Text) → read_unsigned w t ≡ read_unsigned w (32 ∷ t)
unfolding read_unsigned read_integer skip_space is_space
without_space w t = refl

pub parse_document-document_line :
    (f : DoubleFormat) (limits : Limits) (tag : ℕ) (d : SessionDocument)
    → IsExact f
    → DocumentIsPrintable limits d
    → parse_document f limits tag (document_line f tag d) ≡ some d
unfolding parse_document document_line read_document
parse_document-document_line f limits tag d exact h = rw (==_refl tag) (
    ap value_of (
      bind_step _ _ _ (without_space 64 _ ∙ read_unsigned-put 64 d.metadata.id _ h.id_fits refl) (
        bind_step _ _ _ (read_quoted-put d.metadata.title _) (
          bind_step _ _ _ (read_quoted-put d.metadata.path _) (
            bind_step _ _ _ (read_bool-put d.metadata.dirty _ refl) (
              bind_step _ _ _ (read_bool-put d.metadata.can_undo _ refl) (
                bind_step _ _ _ (read_bool-put d.metadata.can_redo _ refl) (
                  bind_step _ _ _
                    (read_unsigned-put 64 d.metadata.view.selection_start _ h.start_fits refl)
                    (bind_step _ _ _
                      (read_unsigned-put 64 d.metadata.view.selection_end _ h.end_fits refl)
                      (bind_step _ _ _
                        (read_unsigned-put 64 d.metadata.view.first_visible_unit _ h.first_fits
                          refl)
                        (bind_step _ _ _
                          (exact.reads d.metadata.view.zoom _ (zoom_is_finite d.metadata h.valid)
                            (Ends-put_stamp d.stamp))
                          (stamp_lem d.stamp _ h.stamp_fits (
                            done_lem _ (ground (arith, h.valid, h.title_fits, h.path_fits))
                              refl)))))))))))))

pub parse_header-header_line :
    (s : Session)
    → s.schema_version < 2 ^ 32
    → length s.workspaces < u64_mod
    → parse_header (header_line s) ≡ some (s.schema_version, length s.workspaces)
unfolding parse_header header_line is_space any
parse_header-header_line s h k = ap value_of (
    bind_step _ _ _ (read_word-append 77 _ _ (any-IsWord magic refl) refl) (
      bind_step _ _ _ (read_unsigned-put 32 s.schema_version _ h refl) (
        bind_step _ _ _ (read_unsigned-put 64 (length s.workspaces) _ k tt)
          (done_lem _ ((text_eq_iff magic magic).1 refl) refl))))

abbrev pub head_of : WorkspaceSession → WorkspaceHead
head_of w = record {
  id = w.workspace;
  active = w.active;
  document_count = length w.documents;
  recent_count = length w.recently_closed;
}

pub record HeadIsPrintable (w : WorkspaceSession) : Type 0 where
  pub id_is_nonzero : 0 < w.workspace
  pub id_fits : w.workspace < u64_mod
  pub active_fits : IsProper w.active
  pub documents_fit : length w.documents < u64_mod
  pub recent_fit : length w.recently_closed < u64_mod

pub parse_workspace_line-workspace_line :
    (w : WorkspaceSession)
    → HeadIsPrintable w
    → parse_workspace_line (workspace_line w) ≡ some (head_of w)
unfolding parse_workspace_line workspace_line
parse_workspace_line-workspace_line w h =
    let (small, back) = optional_back w.active h.active_fits in
    ap value_of (
      bind_step _ _ _ (tag_lem 87 _ refl) (
        bind_step _ _ _ (read_unsigned-put 64 w.workspace _ h.id_fits refl) (
          bind_step _ _ _ (read_unsigned-put 64 (optional_code w.active) _ small refl) (
            bind_step _ _ _ (read_unsigned-put 64 (length w.documents) _ h.documents_fit refl) (
              bind_step _ _ _ (read_unsigned-put 64 (length w.recently_closed) _ h.recent_fit tt) (
                done_lem _ (ground (arith, h.id_is_nonzero))
                  (ap (λ a. record (head_of w) { active = a }) back)))))))

one : (t : Text) → OneLine t → OneLine (put t [])
one t h = put_one_line t [] h tt

number : (n : ℕ) (rest : Text) → OneLine rest → OneLine (put (show n) rest)
number n rest h = put_one_line (show n) rest (show_one_line n) h

flag : (b : Bool) (rest : Text) → OneLine rest → OneLine (put (show_bool b) rest)
flag b rest h = put_one_line (show_bool b) rest (show_bool_one_line b) h

quoted : (t rest : Text) → OneLine t → OneLine rest → OneLine (put (show_quoted t) rest)
quoted t rest k h = put_one_line (show_quoted t) rest (show_quoted_one_line t k) h

put_stamp_one_line : (s : Option FileStamp) → OneLine (put_stamp s)
unfolding put_stamp
put_stamp_one_line none = flag false [] tt
put_stamp_one_line (some s) = flag true _ (
    number s.size _
      (number s.last_write_time _ (number s.file_id _ (number s.volume_serial [] tt))))

pub document_one_line :
    (f : DoubleFormat) (limits : Limits) (tag : ℕ) (d : SessionDocument)
    → ((tag == 10) || (tag == 65535)) ≡ false
    → IsExact f
    → DocumentIsPrintable limits d
    → OneLine (document_line f tag d)
unfolding document_line
document_one_line f limits tag d t exact h = (
  t,
  number d.metadata.id _ (
      quoted d.metadata.title _ h.title_is_one_line (
        quoted d.metadata.path _ h.path_is_one_line (
          flag d.metadata.dirty _ (
            flag d.metadata.can_undo _ (
              flag d.metadata.can_redo _ (
                number d.metadata.view.selection_start _ (
                  number d.metadata.view.selection_end _ (
                    number d.metadata.view.first_visible_unit _ (
                      put_one_line _ _ (exact.one_line d.metadata.view.zoom)
                        (put_stamp_one_line d.stamp)))))))))),
)

pub workspace_one_line : (w : WorkspaceSession) → OneLine (workspace_line w)
unfolding workspace_line
workspace_one_line w = (
  refl,
  number w.workspace _ (
      number (optional_code w.active) _
        (number (length w.documents) _ (number (length w.recently_closed) [] tt))),
)

pub header_one_line : (s : Session) → OneLine (header_line s)
unfolding header_line
header_one_line s =
    All-append (λ c. ((c == 10) || (c == 65535)) ≡ false) magic
      (put (show s.schema_version) (put (show (length s.workspaces)) [])) (ground arith)
      (number s.schema_version _ (number (length s.workspaces) [] tt))
