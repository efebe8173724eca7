-- ===== src/Command.antt =====
-- Commands and their dispatch: src/command.cpp and include/mwfl/command.h. A handler is a value of
-- an abstract type; what `Invoke` and `Dispatch` call is given back as a result. The shortcut and
-- the image of a command are carried along.
pub mod Laws
pub mod Tests
use mwfl.Prelude.{
  ℕ, zero, suc, ◌+◌, ◌-◌, ◌*◌, ◌/◌, ◌%◌, ◌^◌, ◌≤◌, ◌<◌, min, max, ◌≡◌, refl, sym, ap, subst, ◌∙◌,
  ◌≢◌, ◌↔◌, ◌⊎◌, inl, inr, Bool, true, false, not, ◌&&◌, ◌||◌, Option, none, some, List, [], ◌∷◌,
  ◌++◌, map, Mem, Nodup, Perm, arith, Text, u64_mod, next_u64, ltb, leb, ◌==◌, if◌then◌else◌,
  ltb→lt, lt→ltb, leb→le, ==_iff, ==_refl, Bool-cases, Option-cases, text_eq, text_eq_iff, opt_eq,
  ◌>>=◌, is_nil, is_some, length, get_elem?, take, drop, insert_at, erase_idx, modify, find_index,
  find, any, erase_if, length-append, length-take, length-drop, length-insert_at, length-erase_idx,
  length-modify, get_elem?-insert_at_self, erase_idx-insert_at, get_elem?_of_lt,
  lt-length_of_get_elem?, mem_of_get_elem?, insert_at-perm, erase_idx-perm, find_index_sound,
  find_index-any, length-map, get_elem?-map, map-insert_at, map-erase_idx, map-modify, shift, All,
  All-append, All-insert_at, All-erase_idx, All-modify, All-take, All-erase_if, All-get_elem?,
  get_elem?-erase_idx_lt, get_elem?-erase_idx_le, heir, get_elem?-min-erase_idx,
}
use mwfl.Prelude.Keyed.{index_of, contains, keys}

pub record Shortcut : Type 0 where
  pub modifiers : ℕ
  pub key : ℕ

-- The ID is an `int`, of which only equality and the test against zero matter.
pub record Command (H : Type 0) : Type 0 where
  pub id : ℕ
  pub text : Text
  pub handler : Option H
  pub enabled : Bool
  pub checked : Bool
  pub visible : Bool
  pub image_index : Option ℕ
  pub shortcut : Option Shortcut

module _ {H : Type 0} where
  abbrev pub command_id : Command H → ℕ
  command_id c = c.id

  -- The constructor.
  abbrev pub new_command : ℕ → Text → Option H → Command H
  new_command id text handler = record {
    id = id;
    text = text;
    handler = handler;
    enabled = true;
    checked = false;
    visible = true;
    image_index = none;
    shortcut = none;
  }

  abbrev pub set_text : Text → Command H → Command H
  set_text value c = record c { text = value }

  abbrev pub set_enabled : Bool → Command H → Command H
  set_enabled value c = record c { enabled = value }

  -- The handler that `Invoke` calls, if it calls one.
  unfoldable pub invoke : Command H → Option H
  invoke c = if c.enabled && is_some c.handler then c.handler else none

  -- `Find`, as a position.
  unfoldable pub find_position : List (Command H) → ℕ → Option ℕ
  find_position cs id = index_of command_id id cs

  unfoldable pub find_command : List (Command H) → ℕ → Option (Command H)
  find_command cs id = find (λ c. c.id == id) cs

  -- `Add`: a command with the ID is overwritten in its place.
  unfoldable pub add_command : List (Command H) → Command H → List (Command H)
  add_command cs c = elim (find_position cs c.id) [
    | none ↦ cs ++ c ∷ []
    | some i ↦ modify (λ _. c) cs i
  ]

  -- `Dispatch`: whether the event was handled, and the handler that was called.
  unfoldable pub dispatch : List (Command H) → ℕ → Bool × Option H
  dispatch cs id = elim (find_command cs id) [
    | none ↦ (false, none)
    | some c ↦ if not c.enabled then (false, none) else (true, invoke c)
  ]
