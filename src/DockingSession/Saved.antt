-- ===== src/DockingSession/Saved.antt =====
-- What `SaveDockingSessionAtomic` of src/docking_session.cpp leaves at its path.
use mwfl.Prelude.{
  ℕ, ◌≡◌, refl, sym, ap, ◌∙◌, ◌≢◌, ◌⊎◌, inl, inr, Bool, true, false, not, Option, none, some, List,
  [], ◌∷◌, arith, Text, ltb, if◌then◌else◌, Bool-cases,
}
use mwfl.TextFile.{utf8, Utf8Api, encode}
use mwfl.TextFile.Files.{FileStamp, FileApi, Failure}
use mwfl.TextFile.Write.{write_text_file}
use mwfl.TextFile.Write.Kept.{IsFileSystem}
use mwfl.TextFile.Write.Atomic.{Atomic, write_text_file-Atomic}
use mwfl.Docking.{Snapshot, LayoutStatus, is_success}
use mwfl.Docking.Validate.{validate}
use mwfl.Stream.Doubles.{DoubleFormat}
use mwfl.Stream.Lines.{lines, utf8_size, read_required, read_records, ends_cleanly}
use mwfl.Stream.Steps.{◌>>=◌, or_fail, read_line}
use mwfl.DockingSession.{Limits, SessionStatus, success, malformed, schema_version, parse_header}
use mwfl.DockingSession.Read.{
  read_section, read_snapshot, graph_status, check_graph, read_session, parse_session, serialize,
}
use mwfl.DockingSession.Store.{write_status, save_checked, save_sized, save}

-- A step that does not end with the status of success.
abbrev Proper : {A : Type 0} → SessionStatus ⊎ A → Type 0
Proper m = m ≢ inl success

bind-Proper :
    {A B : Type 0} (m : SessionStatus ⊎ A) (f : A → SessionStatus ⊎ B)
    → Proper m
    → ((a : A) → Proper (f a))
    → Proper (m >>= f)
unfolding ◌>>=◌
bind-Proper (inl status) f h k = λ e. h (ap (λ m. m) (ground (arith, e)))
bind-Proper (inr a) f h k = k a

or_fail-Proper : {A : Type 0} (o : Option A) → Proper (or_fail malformed o)
or_fail-Proper none = λ e. cc
or_fail-Proper (some a) = λ e. cc

branch-Proper :
    {A : Type 0} (b : Bool) (m n : SessionStatus ⊎ A)
    → Proper m
    → Proper n
    → Proper (if b then m else n)
branch-Proper true m n h k = h
branch-Proper false m n h k = k

read_line-Proper :
    {A : Type 0} (p : Text → Option A) (ls : List Text) → Proper (read_line malformed p ls)
unfolding read_line
read_line-Proper p ls =
    bind-Proper _ _ (or_fail-Proper (read_required ls))
      λ l. bind-Proper _ _ (or_fail-Proper (p l.0)) λ a e. cc

read_section-Proper :
    {A : Type 0} (tag : Text) (maximum : ℕ) (p : Text → Option A) (ls : List Text)
    → Proper (read_section tag maximum p ls)
unfolding read_section
read_section-Proper tag maximum p ls =
    bind-Proper _ _ (read_line-Proper _ ls)
      λ c. branch-Proper (ltb maximum c.0) _ _ (λ e. cc) (or_fail-Proper (read_records p c.0 c.1))

read_snapshot-Proper :
    (f : DoubleFormat) (limits : Limits) (ls : List Text) → Proper (read_snapshot f limits ls)
unfolding read_snapshot
read_snapshot-Proper f limits ls = bind-Proper _ _ (read_line-Proper _ ls) λ root.
    bind-Proper _ _ (read_section-Proper _ _ _ root.1) λ panels.
      bind-Proper _ _ (read_section-Proper _ _ _ panels.1) λ groups.
        bind-Proper _ _ (read_section-Proper _ _ _ groups.1) λ nodes.
          bind-Proper _ _ (read_section-Proper _ _ _ nodes.1) λ hosts.
            bind-Proper _ _ (read_section-Proper _ _ _ hosts.1) λ entries.
              bind-Proper _ _ (read_line-Proper _ entries.1)
                λ end. branch-Proper (not (ends_cleanly end.1)) _ _ (λ e. cc) (λ e. cc)

graph_status_lem :
    (status : LayoutStatus) → is_success status ≡ false → graph_status status ≢ success
graph_status_lem LayoutStatus.success h = cc
graph_status_lem LayoutStatus.invalid_argument h = λ e. cc
graph_status_lem LayoutStatus.duplicate_id h = λ e. cc
graph_status_lem LayoutStatus.not_found h = λ e. cc
graph_status_lem LayoutStatus.role_mismatch h = λ e. cc
graph_status_lem LayoutStatus.invalid_graph h = λ e. cc
graph_status_lem LayoutStatus.stale_transaction h = λ e. cc

check_graph-Proper : (s : Snapshot) → Proper (check_graph s)
unfolding check_graph
check_graph-Proper s = elim (Bool-cases (is_success (validate s))) [
  | inl e ↦ rw e (λ k. cc)
  | inr e ↦ rw e (λ k. graph_status_lem (validate s) e (ground (arith, k)))
]

read_session-Proper :
    (f : DoubleFormat) (limits : Limits) (ls : List Text) → Proper (read_session f limits ls)
unfolding read_session
read_session-Proper f limits [] = λ e. cc
read_session-Proper f limits (header ∷ ls) =
    bind-Proper _ _ (or_fail-Proper (parse_header header)) λ version.
      branch-Proper (ltb schema_version version) _ _ (λ e. cc)
        (bind-Proper _ _ (read_snapshot-Proper f limits ls) check_graph-Proper)

parse_session-Proper :
    ⦃api : Utf8Api⦄ (f : DoubleFormat) (limits : Limits) (text : Text)
    → Proper (parse_session f limits text)
unfolding parse_session
parse_session-Proper f limits text = bind-Proper _ _ (or_fail-Proper (utf8_size text)) λ bytes.
    branch-Proper (ltb limits.maximum_bytes bytes) _ _ (λ e. cc)
      (read_session-Proper f limits (lines text))

module _ {W : Type 0} ⦃files : FileApi W⦄ ⦃api : Utf8Api⦄ (content : W → Text → Option (List ℕ))
    (owner : W → ℕ → Text) (fs : IsFileSystem files content owner) (f : DoubleFormat) (path : Text)
    (s : Snapshot) (limits : Limits) (w : W) where
  -- The file holds the text of the layout.
  abbrev pub Holds : SessionStatus × W → Type 0
  Holds r =
      (bytes : List ℕ) × (encode (serialize f s) utf8 ≡ some bytes)
      × (content r.1 path ≡ some bytes)

  -- Success: the file holds the text, and the parser reads it. No success: the file is as it was, or
  -- it holds the text.
  abbrev pub Saves : SessionStatus × W → Type 0
  Saves r =
      ((r.0 ≡ success)
        × Holds r
        × ((t : Snapshot) × (parse_session f limits (serialize f s) ≡ inr t)))
      ⊎ ((r.0 ≢ success) × ((content r.1 path ≡ content w path) ⊎ Holds r))

  write_status-Saves :
      (r : (Failure ⊎ FileStamp) × W) (t : Snapshot)
      → parse_session f limits (serialize f s) ≡ inr t
      → Atomic content owner fs path (serialize f s) utf8 w r
      → Saves (write_status f r)
  write_status-Saves (inl failure, v) t e (inl old) = inr ((λ k. cc), inl old.1)
  write_status-Saves (inl failure, v) t e (inr new) = inr ((λ k. cc), inr new)
  write_status-Saves (inr stamp, v) t e (inl (failed, old)) = absurd (ground (arith, failed.1))
  write_status-Saves (inr stamp, v) t e (inr new) = inl (refl, new, (t, e))

  save_checked-Saves :
      (p : SessionStatus ⊎ Snapshot)
      → p ≡ parse_session f limits (serialize f s)
      → Saves (save_checked f path (serialize f s) p w)
  save_checked-Saves (inl status) e =
      inr
        ((λ k. parse_session-Proper f limits (serialize f s) (sym e ∙ ap (λ x. inl x) k)), inl refl)
  save_checked-Saves (inr t) e =
      write_status-Saves (write_text_file path (serialize f s) utf8 none w) t (sym e)
        (write_text_file-Atomic content owner fs path (serialize f s) utf8 none w)

  save_sized-Saves : (o : Option ℕ) → Saves (save_sized f path (serialize f s) limits o w)
  save_sized-Saves none = inr ((λ k. cc), inl refl)
  save_sized-Saves (some bytes) = elim (Bool-cases (ltb limits.maximum_bytes bytes)) [
    | inl e ↦ rw e (inr ((λ k. cc), inl refl))
    | inr e ↦ rw e (save_checked-Saves (parse_session f limits (serialize f s)) refl)
  ]

  -- A save that reports success has left the whole text of the layout at the path, and the parser
  -- reads that text. A save that does not has left there what there was, or the whole text.
  pub save_lem : Saves (save f path s limits w)
  unfolding save
  save_lem = elim (Bool-cases (is_success (validate s))) [
    | inl e ↦ rw e (save_sized-Saves (utf8_size (serialize f s)))
    | inr e ↦ rw e (inr (graph_status_lem (validate s) e, inl refl))
  ]
