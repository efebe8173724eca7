-- ===== src/DocumentSession/RoundTrip.antt =====
-- `ParseDocumentSession` after `SerializeDocumentSession`, both of src/document_session.cpp.
pub mod Whole
use mwfl.Prelude.{
  ℕ, zero, suc, ◌+◌, ◌-◌, ◌*◌, ◌/◌, ◌%◌, ◌^◌, ◌≤◌, ◌<◌, min, max, ◌≡◌, refl, sym, ap, subst, ◌∙◌,
  ◌≢◌, ◌↔◌, ◌⊎◌, inl, inr, Bool, true, false, not, ◌&&◌, ◌||◌, Option, none, some, List, [], ◌∷◌,
  ◌++◌, map, Mem, Nodup, Perm, arith, Text, u64_mod, next_u64, ltb, leb, ◌==◌, if◌then◌else◌,
  ltb→lt, lt→ltb, leb→le, ==_iff, ==_refl, Bool-cases, Option-cases, Either-cases, text_eq,
  text_eq_iff, opt_eq, codes, is_nil, is_some, length, get_elem?, take, drop, insert_at, erase_idx,
  modify, find_index, find, any, erase_if, length-append, length-take, length-drop,
  length-insert_at, length-erase_idx, length-modify, get_elem?-insert_at_self, erase_idx-insert_at,
  get_elem?_of_lt, lt-length_of_get_elem?, mem_of_get_elem?, insert_at-perm, erase_idx-perm,
  find_index_sound, find_index-any, length-map, get_elem?-map, map-insert_at, map-erase_idx,
  map-modify, shift, All, All-append, All-insert_at, All-erase_idx, All-modify, All-take,
  All-erase_if, All-get_elem?, All-mono, get_elem?-erase_idx_lt, get_elem?-erase_idx_le, heir,
  get_elem?-min-erase_idx,
}
use mathlib.Core.List.{append_assoc, append-nil, map-append}
use mwfl.TextFile.{Utf8Api, starts_with}
use mwfl.Stream.Doubles.{DoubleFormat, IsExact}
use mwfl.Stream.Lines.{OneLine, is_extension}
use mwfl.Stream.Steps.{◌>>=◌, bind_inr, or_fail, read_line, read_line_lem}
use mwfl.DocumentSession.{
  SessionDocument, WorkspaceSession, Session, Limits, SessionStatus, malformed, session_id,
  document_line, parse_document, workspace_line, parse_workspace_line,
}
use mwfl.DocumentSession.Distinct.{distinct, any-append, any-map, distinct_new}
use mwfl.DocumentSession.Fields.{
  DocumentIsPrintable, HeadIsPrintable, head_of, parse_document-document_line,
  parse_workspace_line-workspace_line,
}
use mwfl.DocumentSession.Read.{
  has_id, tag_at, push_document, parse_end, active_is_open, read_documents, count_is_large,
  read_workspace, read_workspaces, read_session, parse_session, workspace_lines, all_lines,
  serialize,
}

abbrev pub ids : List SessionDocument → List ℕ
ids ds = map session_id ds

tagged :
    (f : DoubleFormat) (c : ℕ) (d : SessionDocument)
    → (c == 88) ≡ false
    → is_extension (document_line f c d) ≡ false
unfolding is_extension starts_with document_line
tagged f c d h = ground arith

has_id-ids :
    (w : WorkspaceSession) (id : ℕ)
    → has_id w id ≡ any (λ y. y == id) (ids w.documents ++ ids w.recently_closed)
unfolding has_id
has_id-ids w id = simp (
  any-append (λ y. y == id) (ids w.documents) (ids w.recently_closed),
  any-map (λ y. y == id) session_id w.documents,
  any-map (λ y. y == id) session_id w.recently_closed,
)

module _ (f : DoubleFormat) (exact : IsExact f) (limits : Limits) (id : ℕ) (active : Option ℕ) where
  abbrev so_far : List SessionDocument → List SessionDocument → WorkspaceSession
  so_far ds rs = record { workspace = id; active = active; documents = ds; recently_closed = rs }

  -- One line, and the loop behind it.
  one_document :
      (documents n i tag : ℕ) (w w' : WorkspaceSession) (d : SessionDocument) (ls : List Text)
      {r : SessionStatus ⊎ (WorkspaceSession × List Text)}
      → tag_at documents i ≡ tag
      → (tag == 88) ≡ false
      → push_document documents i d w ≡ w'
      → DocumentIsPrintable limits d
      → any (λ y. y == session_id d) (ids w.documents ++ ids w.recently_closed) ≡ false
      → read_documents f limits documents n (suc i) w' ls ≡ r
      → read_documents f limits documents (suc n) i w (document_line f tag d ∷ ls) ≡ r
  unfolding read_documents
  one_document documents n i tag w w' d ls t x pushed p new k =
      bind_inr _ _
        (read_line_lem malformed _ _ _
          (ap (λ c. parse_document f limits c (document_line f tag d)) t
            ∙ parse_document-document_line f limits tag d exact p)
          (tagged f tag d x))
        (rw (has_id-ids w (session_id d), new, pushed) k)

  recent_pushed :
      (documents i : ℕ) (ds rs : List SessionDocument) (d : SessionDocument)
      → documents ≤ i
      → (tag_at documents i ≡ b'R')
        × (push_document documents i d (so_far ds rs) ≡ so_far ds (rs ++ d ∷ []))
  unfolding push_document
  recent_pushed documents i ds rs d h = (ground arith, ground arith)

  open_pushed :
      (documents i : ℕ) (ds rs : List SessionDocument) (d : SessionDocument)
      → i < documents
      → (tag_at documents i ≡ b'D')
        × (push_document documents i d (so_far ds rs) ≡ so_far (ds ++ d ∷ []) rs)
  unfolding push_document
  open_pushed documents i ds rs d h = (ground arith, ground arith)

  -- The recently closed documents, behind the open ones.
  read_recent :
      (documents i : ℕ) (ds before rs : List SessionDocument) (ls : List Text)
      → documents ≤ i
      → All (DocumentIsPrintable limits) rs
      → distinct ((ids ds ++ ids before) ++ ids rs) ≡ true
      → read_documents f limits documents
          (length rs)
          i
          (so_far ds before)
          (map (document_line f b'R') rs ++ ls)
        ≡ inr (so_far ds (before ++ rs), ls)
  read_recent documents i ds before [] ls h p new =
      rw (append-nil before) (unfold read_documents in refl)
  read_recent documents i ds before (r ∷ rs) ls h p new =
      let (tag, pushed) = recent_pushed documents i ds before r h in
      let moved : (ids ds ++ ids (before ++ r ∷ [])) ++ ids rs
          ≡ (ids ds ++ ids before) ++ ids (r ∷ rs) =
        simp (map-append, append_assoc) in
      one_document documents (length rs) i b'R' (so_far ds before) (so_far ds (before ++ r ∷ [])) r
        _ tag refl pushed p.0 (distinct_new (ids ds ++ ids before) (session_id r) (ids rs) new)
        (read_recent documents (suc i) ds (before ++ r ∷ []) rs ls (omega arith) p.1
            (ap distinct moved ∙ new)
          ∙ ap (λ l. inr (so_far ds l, ls)) (append_assoc before (r ∷ []) rs))

  -- All documents of a workspace.
  read_both :
      (documents i n : ℕ) (before ds rs : List SessionDocument) (ls : List Text)
      → documents ≡ i + length ds
      → n ≡ length ds + length rs
      → All (DocumentIsPrintable limits) ds
      → All (DocumentIsPrintable limits) rs
      → distinct (ids before ++ (ids ds ++ ids rs)) ≡ true
      → read_documents f limits documents n i
          (so_far before [])
          (map (document_line f b'D') ds ++ (map (document_line f b'R') rs ++ ls))
        ≡ inr (so_far (before ++ ds) rs, ls)
  read_both documents i n before [] rs ls c e p q new =
      let e' : n ≡ length rs = omega (arith, e) in
      rw (e', append-nil before)
        (read_recent documents i before [] rs ls (omega arith) q
          (ap (λ l. distinct (l ++ ids rs)) (append-nil (ids before)) ∙ new))
  read_both documents i zero before (d ∷ ds) rs ls c e p q new = absurd (omega arith)
  read_both documents i (suc n) before (d ∷ ds) rs ls c e p q new =
      let (tag, pushed) = open_pushed documents i before [] d (omega arith) in
      let moved : ids (before ++ d ∷ []) ++ (ids ds ++ ids rs)
          ≡ ids before ++ (ids (d ∷ ds) ++ ids rs) =
        simp (map-append, append_assoc) in
      one_document documents n i b'D' (so_far before []) (so_far (before ++ d ∷ []) []) d _ tag refl
        pushed p.0
        (ap (λ l. any (λ y. y == session_id d) l) (append-nil (ids before))
          ∙ distinct_new (ids before) (session_id d) (ids ds ++ ids rs) new)
        (read_both documents (suc i) n (before ++ d ∷ []) ds rs ls (omega arith) (omega arith) p.1 q
            (ap distinct moved ∙ new)
          ∙ ap (λ l. inr (so_far l rs, ls)) (append_assoc before (d ∷ []) ds))

-- What a workspace can hold for its lines to be read back, within the limits.
pub record WorkspaceIsPrintable (limits : Limits) (w : WorkspaceSession) : Type 0 where
  pub head : HeadIsPrintable w
  pub counts_fit :
      length w.documents + length w.recently_closed ≤ limits.maximum_documents_per_workspace
  pub sum_fits : length w.documents + length w.recently_closed < u64_mod
  pub documents_printable : All (DocumentIsPrintable limits) w.documents
  pub recent_printable : All (DocumentIsPrintable limits) w.recently_closed
  pub ids_distinct : distinct (ids w.documents ++ ids w.recently_closed) ≡ true
  pub active_open : active_is_open w w.active ≡ true

is_end : (parse_end (codes "E") ≡ some tt) × (is_extension (codes "E") ≡ false)
unfolding parse_end text_eq is_extension starts_with
is_end = (refl, refl)

workspace_tag : (w : WorkspaceSession) → is_extension (workspace_line w) ≡ false
unfolding is_extension starts_with workspace_line
workspace_tag w = refl

pub read_workspace-workspace_lines :
    (f : DoubleFormat) (limits : Limits) (w : WorkspaceSession) (ls : List Text)
    → IsExact f
    → WorkspaceIsPrintable limits w
    → read_workspace f limits (workspace_lines f w ls) ≡ inr (w, ls)
unfolding read_workspace workspace_lines
read_workspace-workspace_lines f limits w ls exact h =
    let small : count_is_large f limits (head_of w) ≡ false =
      ground (arith, h.counts_fit, h.sum_fits) in
    let sum : (length w.documents + length w.recently_closed) % u64_mod
        ≡ length w.documents + length w.recently_closed =
      omega (arith, h.sum_fits) in
    bind_inr _ _
      (read_line_lem malformed _ _ _ (parse_workspace_line-workspace_line w h.head)
        (workspace_tag w))
      (bind_inr _ _ {a = (w, codes "E" ∷ ls)}
        (rw (small, sum)
          (read_both f exact limits w.workspace w.active (length w.documents) 0 _ [] w.documents
            w.recently_closed (codes "E" ∷ ls) (omega arith) refl h.documents_printable
            h.recent_printable h.ids_distinct))
        (bind_inr _ _ {a = (tt, ls)}
          (rw h.active_open (read_line_lem malformed parse_end _ ls is_end.0 is_end.1)) refl))
