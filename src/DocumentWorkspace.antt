-- ===== src/DocumentWorkspace.antt =====
-- The documents open in one workspace: src/document_workspace.cpp and
-- include/mwfl/document_workspace.h. This file has the data, the lookups and the calls on single
-- documents; CloseMany, the recently closed list and transfers are in the children Closing, Recent
-- and Transfer. A call returns the new workspace beside its result.
pub mod Closing
pub mod Recent
pub mod Transfer
pub mod Calls
pub mod Invariant
pub mod Preserve
pub mod Batch
pub mod Reachable
pub mod Conserve
pub mod Refused
pub mod CloseAll
pub mod Tests
use mathlib.Core.Option
use mwfl.Prelude.Double.{Double, is_finite, le_double, tenth, of_ℕ}
use mwfl.Prelude.Selection.{id_at}
use mwfl.Prelude.Keyed.{index_of}
use mwfl.Prelude.{
  ℕ, zero, suc, ◌+◌, ◌-◌, ◌*◌, ◌/◌, ◌%◌, ◌^◌, ◌≤◌, ◌<◌, min, max, ◌≡◌, refl, sym, ap, subst, ◌∙◌,
  ◌≢◌, ◌↔◌, ◌⊎◌, inl, inr, Bool, true, false, not, ◌&&◌, ◌||◌, Option, none, some, List, [], ◌∷◌,
  ◌++◌, map, Mem, Nodup, Perm, arith, Text, u64_mod, next_u64, ltb, leb, ◌==◌, if◌then◌else◌,
  ltb→lt, lt→ltb, leb→le, ==_iff, ==_refl, Bool-cases, Option-cases, text_eq, text_eq_iff, opt_eq,
  is_nil, is_some, length, get_elem?, take, drop, insert_at, erase_idx, modify, find_index, find,
  any, erase_if, length-append, length-take, length-drop, length-insert_at, length-erase_idx,
  length-modify, get_elem?-insert_at_self, erase_idx-insert_at, get_elem?_of_lt,
  lt-length_of_get_elem?, mem_of_get_elem?, insert_at-perm, erase_idx-perm, find_index_sound,
  find_index-any, length-map, get_elem?-map, map-insert_at, map-erase_idx, map-modify, shift, All,
  All-append, All-insert_at, All-erase_idx, All-modify, All-take, All-erase_if, All-get_elem?,
  get_elem?-erase_idx_lt, get_elem?-erase_idx_le, heir, get_elem?-min-erase_idx,
}

-- What `SamePath` takes from the C++ library and from Windows: the native text of a path after
-- `lexically_normal` and `make_preferred`, and `CompareStringOrdinal` without regard to case, which
-- does not depend on the order of the two texts.
pub record PathApi : Type 0 where
  pub normal_native : Text → Text
  pub equal_ordinal : Text → Text → Bool
  pub equal_ordinal_comm : (a b : Text) → equal_ordinal a b ≡ equal_ordinal b a

pub record ViewState : Type 0 where
  pub selection_start : ℕ
  pub selection_end : ℕ
  pub first_visible_unit : ℕ
  pub zoom : Double

pub record Document : Type 0 where
  pub id : ℕ
  pub title : Text
  pub path : Text
  pub dirty : Bool
  pub can_undo : Bool
  pub can_redo : Bool
  pub view : ViewState

pub data Status : Type 0 where
  success invalid_argument duplicate_id duplicate_path not_found stale_transfer : Status

pub record Result : Type 0 where
  pub status : Status
  pub active : Option ℕ

pub record Workspace : Type 0 where
  pub id : ℕ
  pub maximum_recently_closed : ℕ
  pub documents : List Document
  pub recently_closed : List Document
  pub active : Option ℕ
  pub revision : ℕ

-- `explicit operator bool` of a result.
abbrev pub is_success : Status → Bool
is_success success = true
is_success s = false

abbrev pub document_id : Document → ℕ
document_id d = d.id

unfoldable pub view_is_valid : ViewState → Bool
view_is_valid v =
    leb v.selection_start v.selection_end
    && is_finite v.zoom
    && le_double tenth v.zoom
    && le_double v.zoom (of_ℕ 10)

-- `IsValidDocument`.
unfoldable pub is_valid_document : Document → Bool
is_valid_document d = not (d.id == 0) && not (is_nil d.title) && view_is_valid d.view

-- The constructor; `none` is the exception for the ID zero.
unfoldable pub create : ℕ → ℕ → Option Workspace
create id maximum =
    if id == 0
    then none
    else some (record {
      id = id;
      maximum_recently_closed = maximum;
      documents = [];
      recently_closed = [];
      active = none;
      revision = 0;
    })

-- `FindIndex`: the ID zero is never found.
unfoldable pub find_document : Workspace → ℕ → Option ℕ
find_document w id = if id == 0 then none else index_of document_id id w.documents

abbrev pub fail : Workspace → Status → Workspace × Result
fail w s = (w, record { status = s; active = w.active })

-- `Success()`.
abbrev pub done : Workspace → Workspace × Result
done w = (w, record { status = success; active = w.active })

-- A write through the pointer that `FindMutable` returned, and `++revision_`.
unfoldable pub write : Workspace → (Document → Document) → ℕ → Workspace
write w f i = record w { documents = modify f w.documents i; revision = next_u64 w.revision }

module _ ⦃os : PathApi⦄ where
  -- An empty path is the same as no path.
  unfoldable pub same_path : Text → Text → Bool
  same_path left right =
      if is_nil left || is_nil right
      then false
      else os.equal_ordinal (os.normal_native left) (os.normal_native right)

  unfoldable pub contains_path : Workspace → Text → Bool
  contains_path w path = not (is_nil path) && any (λ d. same_path d.path path) w.documents

  unfoldable pub insert_document : Workspace → Document → ℕ → Workspace
  insert_document w d i = record w {
    documents = insert_at w.documents i d;
    active = if is_some w.active then w.active else some d.id;
    revision = next_u64 w.revision;
  }

  -- `index && *index > documents_.size()`
  abbrev pub is_beyond : Option ℕ → ℕ → Bool
  is_beyond none size = false
  is_beyond (some i) size = ltb size i

  abbrev pub value_or : Option ℕ → ℕ → ℕ
  value_or none i = i
  value_or (some k) i = k

  unfoldable pub add : Workspace → Document → Option ℕ → Workspace × Result
  add w d index =
      if not (is_valid_document d) || is_beyond index (length w.documents)
      then fail w invalid_argument
      else if is_some (find_document w d.id)
      then fail w duplicate_id
      else if contains_path w d.path
      then fail w duplicate_path
      else done (insert_document w d (value_or index (length w.documents)))

  -- `RememberClosed`: the newest entry stands first, and is the only one with its ID or path.
  unfoldable pub remember_closed : Workspace → Document → Workspace
  remember_closed w d = if w.maximum_recently_closed == 0 then w else record w {
    recently_closed =
        take w.maximum_recently_closed
          (d ∷ erase_if (λ e. (e.id == d.id) || same_path e.path d.path) w.recently_closed);
  }

  -- `if (remember) RememberClosed(documents_[*index]);`
  abbrev pub remember_at : Workspace → Bool → Option Document → Workspace
  remember_at w false o = w
  remember_at w true none = w
  remember_at w true (some d) = remember_closed w d

  -- The rest of `Close`, with the position that was found.
  unfoldable pub close_at : Workspace → ℕ → ℕ → Workspace
  close_at w id i = record w {
    documents = erase_idx w.documents i;
    active =
        if opt_eq w.active (some id)
        then id_at document_id (erase_idx w.documents i) i
        else w.active;
    revision = next_u64 w.revision;
  }

  unfoldable pub close : Workspace → ℕ → Bool → Workspace × Result
  close w id remember = elim (find_document w id) [
    | none ↦ fail w not_found
    | some i ↦ done (close_at (remember_at w remember (get_elem? w.documents i)) id i)
  ]

  unfoldable pub rename : Workspace → ℕ → Text → Text → Workspace × Result
  rename w id title path =
      if is_nil title then fail w invalid_argument else elim (find_document w id) [
        | none ↦ fail w not_found
        | some i ↦
            if not (is_nil path) && any (λ d. not (d.id == id) && same_path d.path path) w.documents
            then fail w duplicate_path
            else done (write w (λ d. record d { title = title; path = path }) i)
      ]

-- `Move`: the document is erased first, and inserted into what is left.
unfoldable pub move_entry : Workspace → ℕ → ℕ → Option Document → Workspace
move_entry w current index none = w
move_entry w current index (some d) = record w {
  documents = insert_at (erase_idx w.documents current) index d;
  revision = next_u64 w.revision;
}

unfoldable pub move_from : Workspace → ℕ → ℕ → Workspace × Result
move_from w index current =
    if leb (length w.documents) index
    then fail w invalid_argument
    else if current == index
    then done w
    else done (move_entry w current index (get_elem? w.documents current))

unfoldable pub move : Workspace → ℕ → ℕ → Workspace × Result
move w id index = elim (find_document w id) [
  | none ↦ fail w not_found
  | some current ↦ move_from w index current
]

unfoldable pub activate : Workspace → ℕ → Workspace × Result
activate w id =
    if not (is_some (find_document w id))
    then fail w not_found
    else if opt_eq w.active (some id)
    then done w
    else done (record w { active = some id; revision = next_u64 w.revision })

-- `a == b` of two flags.
abbrev pub bool_eq : Bool → Bool → Bool
bool_eq true b = b
bool_eq false b = not b

-- The flags of the document at a position.
abbrev pub has_dirty : Option Document → Bool → Bool
has_dirty none dirty = false
has_dirty (some d) dirty = bool_eq d.dirty dirty

abbrev pub has_undo_state : Option Document → Bool → Bool → Bool
has_undo_state none can_undo can_redo = false
has_undo_state (some d) can_undo can_redo =
    bool_eq d.can_undo can_undo && bool_eq d.can_redo can_redo

unfoldable pub set_dirty : Workspace → ℕ → Bool → Workspace × Result
set_dirty w id dirty = elim (find_document w id) [
  | none ↦ fail w not_found
  | some i ↦
      if has_dirty (get_elem? w.documents i) dirty
      then done w
      else done (write w (λ d. record d { dirty = dirty }) i)
]

unfoldable pub set_undo_state : Workspace → ℕ → Bool → Bool → Workspace × Result
set_undo_state w id can_undo can_redo = elim (find_document w id) [
  | none ↦ fail w not_found
  | some i ↦
      if has_undo_state (get_elem? w.documents i) can_undo can_redo
      then done w
      else done (write w (λ d. record d { can_undo = can_undo; can_redo = can_redo }) i)
]

unfoldable pub set_view_state : Workspace → ℕ → ViewState → Workspace × Result
set_view_state w id state =
    if not (view_is_valid state) then fail w invalid_argument else elim (find_document w id) [
      | none ↦ fail w not_found
      | some i ↦ done (write w (λ d. record d { view = state }) i)
    ]
