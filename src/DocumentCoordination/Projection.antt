-- ===== src/DocumentCoordination/Projection.antt =====
-- What the active document shows on its commands, and how a command reaches it:
-- `BuildActiveDocumentCommandProjection`, `ApplyActiveDocumentCommandProjection` and
-- `RouteActiveDocument` of src/document_coordination.cpp. `std::to_wstring` is an argument.
pub mod Shown
use mwfl.Prelude.{
  ℕ, zero, suc, ◌+◌, ◌-◌, ◌*◌, ◌/◌, ◌%◌, ◌^◌, ◌≤◌, ◌<◌, min, max, ◌≡◌, refl, sym, ap, subst, ◌∙◌,
  ◌≢◌, ◌↔◌, ◌⊎◌, inl, inr, Bool, true, false, not, ◌&&◌, ◌||◌, Option, none, some, List, [], ◌∷◌,
  ◌++◌, map, Mem, Nodup, Perm, arith, Text, u64_mod, next_u64, ltb, leb, ◌==◌, if◌then◌else◌,
  ltb→lt, lt→ltb, leb→le, ==_iff, ==_refl, Bool-cases, Option-cases, text_eq, text_eq_iff, opt_eq,
  ◌>>=◌, codes, is_nil, is_some, length, get_elem?, take, drop, insert_at, erase_idx, modify,
  find_index, find, any, erase_if, length-append, length-take, length-drop, length-insert_at,
  length-erase_idx, length-modify, get_elem?-insert_at_self, erase_idx-insert_at, get_elem?_of_lt,
  lt-length_of_get_elem?, mem_of_get_elem?, insert_at-perm, erase_idx-perm, find_index_sound,
  find_index-any, length-map, get_elem?-map, map-insert_at, map-erase_idx, map-modify, shift, All,
  All-append, All-insert_at, All-erase_idx, All-modify, All-take, All-erase_if, All-get_elem?,
  get_elem?-erase_idx_lt, get_elem?-erase_idx_le, heir, get_elem?-min-erase_idx,
}
use mwfl.DocumentWorkspace.{
  PathApi, Document, ViewState, Status, Result, Workspace, create, document_id, is_valid_document,
  find_document, same_path, contains_path, insert_document, remember_closed, remember_at, close_at,
  write, move_entry, add, close, rename, move, move_from, activate, set_dirty, set_undo_state,
  set_view_state, view_is_valid, is_success, value_or, done, fail,
}
use mwfl.Command.{Command, find_position, set_text, set_enabled}
use mwfl.DocumentCoordination.{document_of}

pub record CommandIds : Type 0 where
  pub save : ℕ
  pub close : ℕ
  pub undo : ℕ
  pub redo : ℕ

-- `std::any_of` for zero, and the two loops over the pairs.
unfoldable pub has_duplicate : List ℕ → Bool
has_duplicate [] = false
has_duplicate (x ∷ xs) = any (λ y. x == y) xs || has_duplicate xs

unfoldable pub ids_are_valid : CommandIds → Bool
unfolding has_duplicate any
ids_are_valid ids =
    let values : List ℕ = ids.save ∷ ids.close ∷ ids.undo ∷ ids.redo ∷ [] in
    not (any (λ value. value == 0) values) && not (has_duplicate values)

pub record Projection : Type 0 where
  pub document : Option ℕ
  pub save_text : Text
  pub close_text : Text
  pub status_text : Text
  pub can_save : Bool
  pub can_close : Bool
  pub can_undo : Bool
  pub can_redo : Bool

abbrev pub no_document : Projection
no_document = record {
  document = none;
  save_text = codes "Save";
  close_text = codes "Close";
  status_text = codes "No active document";
  can_save = false;
  can_close = false;
  can_undo = false;
  can_redo = false;
}

abbrev pub project : (ℕ → Text) → Workspace → ℕ → Option Document → Projection
project to_wstring w id none = no_document
project to_wstring w id (some d) = record {
  document = some id;
  save_text = codes "Save " ++ d.title;
  close_text = codes "Close " ++ d.title;
  status_text =
      (if d.dirty then d.title ++ codes " — modified" else d.title)
      ++ (codes " — " ++ (to_wstring (length w.documents) ++ codes " document(s)"));
  can_save = d.dirty;
  can_close = true;
  can_undo = d.can_undo;
  can_redo = d.can_redo;
}

-- `BuildActiveDocumentCommandProjection`.
unfoldable pub build_projection : (ℕ → Text) → Workspace → Projection
build_projection to_wstring w = elim w.active [
  | none ↦ no_document
  | some id ↦ project to_wstring w id (document_of w id)
]

pub data ProjectionStatus : Type 0 where
  success invalid_argument command_not_found : ProjectionStatus

module _ {H : Type 0} where
  -- The writes through the four pointers, which stay valid since nothing moves.
  unfoldable pub write_commands : Projection → List (Command H) → ℕ → ℕ → ℕ → ℕ → List (Command H)
  write_commands p cs save close undo redo =
      modify (set_enabled p.can_redo)
        (modify (set_enabled p.can_undo)
          (modify (λ c. set_enabled p.can_close (set_text p.close_text c))
            (modify (λ c. set_enabled p.can_save (set_text p.save_text c)) cs save) close)
          undo)
        redo

  -- The four lookups; `none` where one finds nothing.
  unfoldable pub find_and_write :
      List (Command H) → CommandIds → Projection → Option (List (Command H))
  find_and_write cs ids p = do
    save ← find_position cs ids.save
    close ← find_position cs ids.close
    undo ← find_position cs ids.undo
    redo ← find_position cs ids.redo
    some (write_commands p cs save close undo redo)

  unfoldable pub apply_projection :
      List (Command H) → CommandIds → Projection → List (Command H) × ProjectionStatus
  apply_projection cs ids p =
      if not (ids_are_valid ids)
      then (cs, ProjectionStatus.invalid_argument)
      else elim (find_and_write cs ids p) [
        | none ↦ (cs, command_not_found)
        | some written ↦ (written, ProjectionStatus.success)
      ]

pub data RouteStatus : Type 0 where
  success invalid_argument no_active_document active_document_changed callback_failure : RouteStatus

pub record RouteResult : Type 0 where
  pub status : RouteStatus
  pub routed_document : Option ℕ

abbrev pub route_result : RouteStatus → Option ℕ → RouteResult
route_result s o = record { status = s; routed_document = o }

-- What follows the call of the handler, which leaves a workspace and throws or not.
abbrev pub after_handler : ℕ → Workspace × Bool → Workspace × RouteResult
after_handler id (w, true) = (w, route_result callback_failure (some id))
after_handler id (w, false) =
    if not (opt_eq w.active (some id))
    then (w, route_result active_document_changed (some id))
    else (w, route_result RouteStatus.success (some id))

-- `RouteActiveDocument`.
unfoldable pub route :
    Workspace → Option (ℕ → Workspace → Workspace × Bool) → Workspace × RouteResult
route w none = (w, route_result RouteStatus.invalid_argument none)
route w (some handler) = elim w.active [
  | none ↦ (w, route_result no_active_document none)
  | some id ↦ after_handler id (handler id w)
]
