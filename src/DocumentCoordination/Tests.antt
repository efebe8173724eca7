-- ===== src/DocumentCoordination/Tests.antt =====
-- Runs of src/document_coordination.cpp at concrete inputs, and the theorems applied there.
use mathlib.Core.Option
use mwfl.Prelude.{
  ℕ, ◌≡◌, refl, ap, subst, ◌≢◌, ◌↔◌, Bool, true, false, Option, none, some, List, [], ◌∷◌, arith,
  Text, ◌==◌, length, insert_at, modify, find_index, find, any, All,
}
use mwfl.DocumentWorkspace.{
  PathApi, Document, Workspace, create, is_valid_document, find_document, contains_path,
  insert_document, add, view_is_valid,
}
use mwfl.Prelude.Double.{of_ℕ, le_double, tenth}
use mwfl.Prelude.Keyed.{index_of}
use mwfl.Command.{Command, new_command, find_position, find_command}
use mwfl.DocumentWorkspace.Calls.{adds, step, run}
use mwfl.DocumentWorkspace.Invariant.{IsValid}
use mwfl.DocumentWorkspace.Reachable.{run-create-IsValid}
use mwfl.DocumentCoordination.{
  save, discard, cancel, Decision, ready, cancelled, success, ClosePlan, build_plan,
  valid_decisions, visit, visit_one, document_of, result, Handler, run_saves, execute,
}
use mwfl.DocumentCoordination.Plan.{
  IsDirtyDecision, AreDistinct, build_plan_lem, IsSettled, to_save,
}
use mwfl.DocumentCoordination.Execution.{execute_refused, execute-build_plan}
use mwfl.DocumentCoordination.Projection.{
  CommandIds, Projection, ProjectionStatus, RouteStatus, route, apply_projection, ids_are_valid,
  has_duplicate, find_and_write, write_commands,
}
use mwfl.DocumentCoordination.Projection.Shown.{IsRouted, apply_projection-shown, shown, route_lem}

-- Paths of which only the empty one matters here.
same_size_comm : (a b : Text) → (length a == length b) ≡ (length b == length a)
same_size_comm a b = ground arith

instance abbrev no_paths : PathApi
no_paths = record {
  normal_native = λ t. t;
  equal_ordinal = λ a b. length a == length b;
  equal_ordinal_comm = same_size_comm;
}

abbrev note : ℕ → Bool → Document
note id dirty = record {
  id = id;
  title = 78 ∷ [];
  path = [];
  dirty = dirty;
  can_undo = true;
  can_redo = false;
  view = record { selection_start = 0; selection_end = 0; first_visible_unit = 0; zoom = of_ℕ 1 };
}

abbrev start : Workspace
start = record {
  id = 7;
  maximum_recently_closed = 10;
  documents = [];
  recently_closed = [];
  active = none;
  revision = 0;
}

abbrev edited : Workspace
edited = record start {
  documents = note 1 false ∷ note 2 true ∷ note 3 true ∷ [];
  active = some 1;
  revision = 3;
}

opened :
    run start (adds (note 1 false) none ∷ adds (note 2 true) none ∷ adds (note 3 true) none ∷ [])
    ≡ edited
unfolding run step add is_valid_document view_is_valid find_document index_of find_index
    contains_path insert_document insert_at le_double tenth
opened = refl

edited-IsValid : IsValid edited
unfolding create
edited-IsValid =
    subst (λ w. IsValid w) opened
      (run-create-IsValid 7 10
        (adds (note 1 false) none ∷ adds (note 2 true) none ∷ adds (note 3 true) none ∷ []) refl)

abbrev decisions : List Decision
decisions = record { document = 2; choice = save } ∷ record { document = 3; choice = discard } ∷ []

abbrev full_plan : ClosePlan
full_plan = record {
  status = ready;
  workspace_revision = 3;
  save_before_close = 2 ∷ [];
  close_documents = 1 ∷ 2 ∷ 3 ∷ [];
}

planned : build_plan edited decisions ≡ full_plan
unfolding build_plan valid_decisions document_of find_document index_of find_index any visit
    visit_one find
planned = refl

-- A cancelled document stops the plan.
cancelled_plan :
    (build_plan edited (
      record { document = 2; choice = cancel }
      ∷ record { document = 3; choice = save }
      ∷ [])).status
    ≡ cancelled
unfolding build_plan valid_decisions document_of find_document index_of find_index any visit
    visit_one find
cancelled_plan = refl

abbrev saves_all : Handler
saves_all id w = (w, some true)

abbrev saves_none : Handler
saves_none id w = (w, some false)

build_plan_lem_example :
    (((build_plan edited decisions).status ≡ ready) ↔ (
      All (IsDirtyDecision edited) decisions
      × AreDistinct decisions
      × All (IsSettled decisions) edited.documents))
    × ((build_plan edited decisions).workspace_revision ≡ 3)
    × ((build_plan edited decisions).status ≡ ready
        → ((build_plan edited decisions).close_documents ≡ 1 ∷ 2 ∷ 3 ∷ [])
          × ((build_plan edited decisions).save_before_close ≡ to_save decisions edited.documents))
build_plan_lem_example = build_plan_lem edited decisions

is_planned : (build_plan edited decisions).status ≡ ready
is_planned = ap (λ p. p.status) planned

execute_refused_example :
    (execute edited full_plan (some saves_none)).0.documents ≡ edited.documents
unfolding execute run_saves
execute_refused_example = execute_refused saves_none (λ id w. refl) edited full_plan (λ e. cc)

execute-build_plan_example :
    ((execute edited (build_plan edited decisions) (some saves_all)).1 ≡ result success none)
    × ((execute edited (build_plan edited decisions) (some saves_all)).0.documents ≡ [])
execute-build_plan_example =
    execute-build_plan saves_all (λ id w. refl) edited decisions edited-IsValid is_planned

abbrev ids : CommandIds
ids = record { save = 1; close = 2; undo = 3; redo = 4 }

abbrev projection : Projection
projection = record {
  document = some 1;
  save_text = 83 ∷ [];
  close_text = 67 ∷ [];
  status_text = [];
  can_save = false;
  can_close = true;
  can_undo = true;
  can_redo = false;
}

abbrev menu : List (Command ℕ)
menu =
    new_command 4 [] none
    ∷ new_command 3 [] none
    ∷ new_command 9 [] none
    ∷ new_command 2 [] none
    ∷ new_command 1 [] none
    ∷ []

apply_projection-shown_example :
    ((apply_projection menu ids projection).1 ≡ ProjectionStatus.success
      → (key : ℕ)
      → find_command (apply_projection menu ids projection).0 key
        ≡ Option.map (shown ids projection key) (find_command menu key))
    × ((apply_projection menu ids projection).1 ≢ ProjectionStatus.success
        → (apply_projection menu ids projection).0 ≡ menu)
apply_projection-shown_example = apply_projection-shown menu ids projection

applied : (apply_projection menu ids projection).1 ≡ ProjectionStatus.success
unfolding apply_projection ids_are_valid has_duplicate any find_and_write write_commands
    find_position index_of find_index modify
applied = refl

route_lem_example :
    (((route edited (some (λ id w. (w, false)))).1.status ≡ RouteStatus.success) ↔ (
      (id : ℕ) × (◌≡◌ {A = Option ℕ} (some 1) (some id))
      × (◌≡◌ {A = Bool} false false)
      × (◌≡◌ {A = Option ℕ} (some 1) (some id))))
    × IsRouted (λ id w. (w, false)) edited (route edited (some (λ id w. (w, false))))
route_lem_example = route_lem edited (λ id w. (w, false))
