-- ===== src/Command/Laws.antt =====
-- The lookups of src/command.cpp after an addition or a write.
use mathlib.Core.List.{Nodup-cons, perm_append_singleton}
use mathlib.Core.List.Perm
use mathlib.Core.Option
use mwfl.Prelude.{
  ℕ, zero, suc, ◌≡◌, refl, ap, ◌↔◌, inl, inr, true, none, some, List, [], ◌∷◌, ◌++◌, map, Nodup,
  arith, ◌==◌, if◌then◌else◌, Option-cases, is_some, modify, find_index, find,
}
use mwfl.Prelude.Keyed.{index_of, not_mem_of_index_of}
use mwfl.Command.{Command, command_id, find_position, find_command, add_command, dispatch, invoke}

module _ {H : Type 0} where
  -- A write to the command at the position of an ID, which keeps the ID.
  pub find-modify :
      (f : Command H → Command H) (cs : List (Command H)) (id key : ℕ) {i : ℕ}
      → ((c : Command H) → (f c).id ≡ c.id)
      → find_position cs id ≡ some i
      → find_command (modify f cs i) key
        ≡ (if key == id then Option.map f (find_command cs key) else find_command cs key)
  unfolding find_position index_of find_index find_command find modify
  find-modify f [] id key same h = cc
  find-modify f (c ∷ cs) id key {i = zero} same h = ground (arith, same c)
  find-modify f (c ∷ cs) id key {i = suc i} same h =
      ground (arith, find-modify f cs id key {i = i} same (ground arith))

  -- The lookup of `Find` and the position agree.
  pub position-of-find :
      (cs : List (Command H)) (id : ℕ)
      → is_some (find_position cs id) ≡ is_some (find_command cs id)
  unfolding find_position index_of find_index find_command find
  position-of-find [] id = refl
  position-of-find (c ∷ cs) id = ground (arith, position-of-find cs id)

  find-append :
      (cs : List (Command H)) (c : Command H) (key : ℕ)
      → find_command cs c.id ≡ none
      → find_command (cs ++ c ∷ []) key ≡ (if key == c.id then some c else find_command cs key)
  unfolding find_command find
  find-append [] c key h = ground arith
  find-append (d ∷ cs) c key h = ground (arith, find-append cs c key)

  find-replace :
      (cs : List (Command H)) (c : Command H) (key : ℕ) {i : ℕ}
      → find_position cs c.id ≡ some i
      → find_command (modify (λ _. c) cs i) key
        ≡ (if key == c.id then some c else find_command cs key)
  unfolding find_position index_of find_index find_command find modify
  find-replace [] c key h = cc
  find-replace (d ∷ cs) c key {i = zero} h = ground arith
  find-replace (d ∷ cs) c key {i = suc i} h =
      ground (arith, find-replace cs c key {i = i} (ground arith))

  -- After `Add` the command is found under its ID, in place of one that was there, and every other
  -- ID finds what it found before.
  pub find-add_command :
      (cs : List (Command H)) (c : Command H) (key : ℕ)
      → find_command (add_command cs c) key ≡ (if key == c.id then some c else find_command cs key)
  unfolding add_command
  find-add_command cs c key = elim (Option-cases (find_position cs c.id)) [
    | inl miss ↦
        rw (miss, add_command) (find-append cs c key (ground (arith, position-of-find cs c.id)))
    | inr (i, hit) ↦ rw (hit, add_command) (find-replace cs c key hit)
  ]

  map-replace :
      (cs : List (Command H)) (c : Command H) {i : ℕ}
      → index_of command_id c.id cs ≡ some i
      → map command_id (modify (λ _. c) cs i) ≡ map command_id cs
  unfolding index_of find_index modify
  map-replace [] c h = cc
  map-replace (d ∷ cs) c {i = zero} h = ground arith
  map-replace (d ∷ cs) c {i = suc i} h = ap (d.id ∷◌) (map-replace cs c {i = i} (ground arith))

  -- `Add` gives no ID to two commands.
  pub add_command-Nodup :
      (cs : List (Command H)) (c : Command H)
      → Nodup (map command_id cs)
      → Nodup (map command_id (add_command cs c))
  unfolding add_command find_position
  add_command-Nodup cs c distinct = elim (Option-cases (find_position cs c.id)) [
    | inl miss ↦
        rw (miss, add_command)
          (Perm.nodup (Perm.symm (Perm.map command_id (perm_append_singleton c cs)))
            (Nodup-cons.1 (not_mem_of_index_of command_id c.id cs miss, distinct)))
    | inr (i, hit) ↦ rw (hit, add_command) (rw (map-replace cs c {i = i} hit) distinct)
  ]

  -- `Dispatch` calls a handler exactly where the command of the ID is enabled and has that handler.
  pub dispatch_lem :
      (cs : List (Command H)) (id : ℕ) (h : H)
      → ((dispatch cs id).1 ≡ some h) ↔ (
          (c : Command H) × (find_command cs id ≡ some c)
          × (c.enabled ≡ true)
          × (c.handler ≡ some h))
  unfolding dispatch invoke
  dispatch_lem cs id h = elim (Option-cases (find_command cs id)) [
    | inl miss ↦ rw (miss, dispatch) (λ e. cc, λ (c, at, on, has). cc)
    | inr (d, hit) ↦
        rw (hit, dispatch)
          (
            λ e. (d, refl, ground arith, ground arith),
            λ (c, at, on, has). let same : d ≡ c = cc in rw same (ground arith),
          )
  ]
