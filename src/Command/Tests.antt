-- ===== src/Command/Tests.antt =====
-- Runs of src/command.cpp at concrete inputs, and the theorems applied there.
use mathlib.Core.List.{Nodup-nil, Nodup-cons, not-mem-nil}
use mwfl.Prelude.{
  ℕ, ◌≡◌, refl, ◌↔◌, true, false, none, some, List, [], ◌∷◌, map, Nodup, modify, find_index, find,
}
use mwfl.Prelude.Keyed.{index_of}
use mwfl.Command.{
  Command, command_id, new_command, find_position, find_command, add_command, dispatch, invoke,
  set_enabled,
}
use mwfl.Command.Laws.{find-add_command, dispatch_lem}

abbrev open_file : Command ℕ
open_file = new_command 1 (79 ∷ []) (some 10)

abbrev exit_program : Command ℕ
exit_program = new_command 2 (69 ∷ []) (some 20)

abbrev both : List (Command ℕ)
both = open_file ∷ exit_program ∷ []

dispatch_exit : dispatch both 2 ≡ (true, some 20)
unfolding dispatch invoke find_command find
dispatch_exit = refl

-- A command that is off lets the event pass.
dispatch_off : dispatch (add_command both (set_enabled false exit_program)) 2 ≡ (false, none)
unfolding dispatch invoke find_command find add_command find_position index_of find_index modify
dispatch_off = refl

find-add_command_example :
    find_command (add_command both (new_command 1 [] none)) 1 ≡ some (new_command 1 [] none)
unfolding find_command find
find-add_command_example = find-add_command both (new_command 1 [] none) 1

one-Nodup : Nodup (map command_id (open_file ∷ []))
one-Nodup = Nodup-cons.1 (not-mem-nil, Nodup-nil)

dispatch_lem_example : ((dispatch both 2).1 ≡ some 20) ↔ (
    (c : Command ℕ) × (find_command both 2 ≡ some c) × (c.enabled ≡ true) × (c.handler ≡ some 20))
dispatch_lem_example = dispatch_lem both 2 20
