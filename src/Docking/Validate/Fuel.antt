-- ===== src/Docking/Validate/Fuel.antt =====
-- The walk of `Validate` over the nodes (src/docking_workspace.cpp) ends: each round marks a node
-- that was not visited before.
use mwfl.Prelude.{
  ℕ, zero, suc, ◌<◌, ◌≡◌, refl, ap, ◌≢◌, inl, inr, Bool, true, false, List, [], ◌∷◌, arith,
  Bool-cases, Option-cases, length, get_elem?, modify,
}
use mwfl.Docking.{Snapshot, Node, find_node}
use mwfl.Docking.Validate.{out_of_fuel, is_visited, push_children, walk, unvisited}

-- How many nodes are still to visit.
abbrev remaining : List Bool → ℕ
remaining [] = 0
remaining (true ∷ vs) = remaining vs
remaining (false ∷ vs) = suc (remaining vs)

remaining-modify :
    (vs : List Bool) (i : ℕ)
    → is_visited (get_elem? vs i) ≡ false
    → suc (remaining (modify (λ _. true) vs i)) ≡ remaining vs
unfolding modify
remaining-modify [] i h = cc
remaining-modify (false ∷ vs) zero h = refl
remaining-modify (true ∷ vs) zero h = cc
remaining-modify (true ∷ vs) (suc i) h = remaining-modify vs i h
remaining-modify (false ∷ vs) (suc i) h = ap suc (remaining-modify vs i h)

walk-ends :
    (s : Snapshot) (fuel : ℕ) (visited : List Bool) (pending : List ℕ)
    → remaining visited < fuel
    → walk s fuel visited pending ≢ out_of_fuel
unfolding walk
walk-ends s zero visited pending h = elim h [ ]
walk-ends s (suc fuel) visited [] h = λ e. cc
walk-ends s (suc fuel) visited (id ∷ pending) h = elim (Option-cases (find_node s id)) [
  | inl miss ↦ rw (miss, walk) (λ e. cc)
  | inr (i, hit) ↦ elim (Bool-cases (is_visited (get_elem? visited i))) [
    | inl seen ↦ rw (hit, walk, seen) (λ e. cc)
    | inr new ↦
        rw (hit, walk, new)
          (walk-ends s fuel (modify (λ _. true) visited i)
            (push_children (get_elem? s.nodes i) pending)
            (omega (arith, remaining-modify visited i new)))
  ]
]

remaining-unvisited : (ns : List Node) → remaining (unvisited ns) ≡ length ns
unfolding unvisited
remaining-unvisited [] = refl
remaining-unvisited (n ∷ ns) = ap suc (remaining-unvisited ns)

-- With one round more than there are nodes the walk of `Validate` ends by itself, whatever the
-- layout and the pending nodes are.
pub walk_total :
    (s : Snapshot) (pending : List ℕ)
    → walk s (suc (length s.nodes)) (unvisited s.nodes) pending ≢ out_of_fuel
walk_total s pending =
    walk-ends s (suc (length s.nodes)) (unvisited s.nodes) pending
      (omega (arith, remaining-unvisited s.nodes))
