-- ===== src/DocumentWorkspace/Invariant.antt =====
-- What every call on a workspace keeps (src/document_workspace.cpp): the statement, and the steps
-- that more than one call makes.
use mathlib.Core.List.{Pairwise, Pairwise-cons, Pairwise-map}
use mathlib.Core.List.Perm
use mwfl.Prelude.Keyed.{
  IsIds, IsIds-perm, IsIds-erase_idx, IsIds-insert_at, keys, index_of_sound, mem_of_index_of,
  not_mem_of_index_of, erase_idx-insert_at-perm,
}
use mwfl.Prelude.Selection.{Selects, Selects-perm, Selects-cons, Selects-close}
use mwfl.Prelude.Searching.{Bool-eq-prop, any_none}
use mwfl.Prelude.{
  ℕ, ◌≤◌, ◌≡◌, refl, ◌∙◌, ◌≢◌, inl, inr, true, false, Option, none, some, List, [], ◌∷◌, map, Mem,
  Perm, arith, Text, ◌==◌, Bool-cases, length, get_elem?, erase_idx, length-take, insert_at-perm,
  erase_idx-perm, map-modify, All, All-insert_at, All-erase_idx, All-modify, All-get_elem?,
}
use mwfl.DocumentWorkspace.{
  PathApi, Document, Workspace, document_id, is_valid_document, find_document, same_path,
  contains_path, insert_document, remember_closed, close_at, write, move_entry,
}

abbrev pub document_path : Document → Text
document_path d = d.path

-- The paths of the open documents.
abbrev pub paths : List Document → List Text
paths = map document_path

abbrev pub IsGood : Document → Type 0
IsGood d = is_valid_document d ≡ true

pub find_document_sound :
    (w : Workspace) (id : ℕ) {i : ℕ}
    → find_document w id ≡ some i
    → (d : Document) × (get_elem? w.documents i ≡ some d) × (d.id ≡ id)
unfolding find_document
find_document_sound w id h = index_of_sound document_id id w.documents (ground arith)

pub find_document-mem :
    (w : Workspace) (id : ℕ) {i : ℕ}
    → find_document w id ≡ some i
    → Mem id (keys document_id w.documents)
unfolding find_document
find_document-mem w id {i = i} h = mem_of_index_of document_id id w.documents {i = i} (ground arith)

pub find_document_miss :
    (w : Workspace) (id : ℕ)
    → id ≢ 0
    → find_document w id ≡ none
    → ¬ Mem id (keys document_id w.documents)
unfolding find_document
find_document_miss w id n h = not_mem_of_index_of document_id id w.documents (ground arith)

module _ ⦃os : PathApi⦄ where
  abbrev pub Apart : Text → Text → Type 0
  Apart a b = same_path a b ≡ false

  abbrev pub ApartDocuments : Document → Document → Type 0
  ApartDocuments a b = Apart a.path b.path

  -- The IDs are distinct and not zero, every document is valid, no two documents have the same
  -- path, the active document is open and there is one unless nothing is open, and the list of
  -- recently closed documents keeps its bound.
  pub record IsValid (w : Workspace) : Type 0 where
    pub ids : IsIds (keys document_id w.documents)
    pub good : All IsGood w.documents
    pub apart : Pairwise ApartDocuments w.documents
    pub selection : Selects w.active (keys document_id w.documents)
    pub recent : length w.recently_closed ≤ w.maximum_recently_closed

  pub same_path_comm : (a b : Text) → same_path a b ≡ same_path b a
  unfolding same_path
  same_path_comm a b =
      ground (arith, os.equal_ordinal_comm (os.normal_native a) (os.normal_native b))

  ApartDocuments-prop : (a b : Document) → IsProp (ApartDocuments a b)
  ApartDocuments-prop a b = Bool-eq-prop (same_path a.path b.path) false

  ApartDocuments-symm : (a b : Document) → ApartDocuments a b → ApartDocuments b a
  ApartDocuments-symm a b h = same_path_comm b.path a.path ∙ h

  pub Pairwise-perm :
      {xs ys : List Document} → Perm xs ys → Pairwise ApartDocuments xs → Pairwise ApartDocuments ys
  Pairwise-perm p h = Perm.pairwise ApartDocuments-prop ApartDocuments-symm p h

  -- A path that no open document has.
  pub contains_path_none :
      (w : Workspace) (path : Text)
      → contains_path w path ≡ false
      → (d : Document) → Mem d w.documents
      → Apart path d.path
  unfolding contains_path same_path
  contains_path_none w [] h d m = refl
  contains_path_none w (c ∷ path) h d m =
      same_path_comm (c ∷ path) d.path
      ∙ any_none (λ e. same_path e.path (c ∷ path)) w.documents h d m

  pub insert_document-IsValid :
      (w : Workspace) (d : Document) (i : ℕ)
      → IsGood d
      → d.id ≢ 0
      → find_document w d.id ≡ none
      → contains_path w d.path ≡ false
      → IsValid w
      → IsValid (insert_document w d i)
  unfolding insert_document
  insert_document-IsValid w d i good n fresh apart v =
      let moved = Perm.symm (insert_at-perm w.documents i d) in
      record {
        ids =
            IsIds-insert_at document_id w.documents i d n (find_document_miss w d.id n fresh) v.ids;
        good = All-insert_at IsGood w.documents i d good v.good;
        apart = Pairwise-perm moved (Pairwise-cons.1 (contains_path_none w d.path apart, v.apart));
        selection =
            Selects-perm _ (Perm.map document_id moved)
              (Selects-cons w.active (keys document_id w.documents) d.id v.selection);
        recent = v.recent;
      }

  -- The bound is all that the invariant asks of the recently closed list.
  pub recently_closed-IsValid :
      (w : Workspace) (ds : List Document)
      → length ds ≤ w.maximum_recently_closed
      → IsValid w
      → IsValid (record w { recently_closed = ds })
  recently_closed-IsValid w ds h v = record {
    ids = v.ids;
    good = v.good;
    apart = v.apart;
    selection = v.selection;
    recent = h;
  }

  pub revision-IsValid : (w : Workspace) (r : ℕ) → IsValid w → IsValid (record w { revision = r })
  revision-IsValid w r v = record {
    ids = v.ids;
    good = v.good;
    apart = v.apart;
    selection = v.selection;
    recent = v.recent;
  }

  pub active-IsValid :
      (w : Workspace) (id r : ℕ)
      → Mem id (keys document_id w.documents)
      → IsValid w
      → IsValid (record w { active = some id; revision = r })
  active-IsValid w id r m v = record {
    ids = v.ids;
    good = v.good;
    apart = v.apart;
    selection = m;
    recent = v.recent;
  }

  pub remember_closed-IsValid :
      (w : Workspace) (d : Document) → IsValid w → IsValid (remember_closed w d)
  unfolding remember_closed
  remember_closed-IsValid w d v = elim (Bool-cases (w.maximum_recently_closed == 0)) [
    | inl off ↦ rw off v
    | inr on ↦
        rw on (
          recently_closed-IsValid w _ (omega (arith, length-take {0} w.maximum_recently_closed _))
            v)
  ]

  pub close_at-IsValid :
      (w : Workspace) (id i : ℕ) (d : Document)
      → get_elem? w.documents i ≡ some d
      → d.id ≡ id
      → IsValid w
      → IsValid (close_at w id i)
  unfolding close_at
  close_at-IsValid w id i d at same v = record {
    ids = (IsIds-erase_idx document_id w.documents i at v.ids).0;
    good = All-erase_idx IsGood w.documents i v.good;
    apart = (Pairwise-cons.0 (Pairwise-perm (erase_idx-perm w.documents i at) v.apart)).1;
    selection = Selects-close document_id w.active w.documents i id d at same v.selection;
    recent = v.recent;
  }

  pub move_entry-IsValid :
      (w : Workspace) (i j : ℕ) (o : Option Document)
      → get_elem? w.documents i ≡ o
      → IsValid w
      → IsValid (move_entry w i j o)
  unfolding move_entry
  move_entry-IsValid w i j none at v = v
  move_entry-IsValid w i j (some d) at v =
      let moved = Perm.symm (erase_idx-insert_at-perm document_id w.documents i j at) in
      record {
        ids = IsIds-perm (Perm.map document_id moved) v.ids;
        good =
            All-insert_at IsGood (erase_idx w.documents i) j d
              (All-get_elem? IsGood w.documents i at v.good)
              (All-erase_idx IsGood w.documents i v.good);
        apart = Pairwise-perm moved v.apart;
        selection = Selects-perm w.active (Perm.map document_id moved) v.selection;
        recent = v.recent;
      }

  -- A write that keeps IDs and paths, and good documents good.
  pub write-IsValid :
      (w : Workspace) (f : Document → Document) (i : ℕ)
      → ((d : Document) → (f d).id ≡ d.id)
      → ((d : Document) → (f d).path ≡ d.path)
      → ((d : Document) → IsGood d → IsGood (f d))
      → IsValid w
      → IsValid (write w f i)
  unfolding write
  write-IsValid w f i same_id same_text good v =
      let kept = map-modify document_id f same_id w.documents i in
      let kept_paths = map-modify document_path f same_text w.documents i in
      record {
        ids = rw kept v.ids;
        good = All-modify IsGood f good w.documents i v.good;
        apart =
            (Pairwise-map {R = Apart} (λ a b. Bool-eq-prop (same_path a b) false) document_path).0 (
              rw kept_paths (
                (Pairwise-map {R = Apart} (λ a b. Bool-eq-prop (same_path a b) false)
                    document_path).1
                  v.apart));
        selection = rw kept v.selection;
        recent = v.recent;
      }
