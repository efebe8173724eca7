-- ===== src/DocumentCoordination/Projection/Shown.antt =====
-- What the commands of src/document_coordination.cpp show after a projection is applied.
use mathlib.Core.Option
use mwfl.Prelude.{
  none, ◌⊎◌, ℕ, zero, suc, ◌≡◌, refl, ◌∙◌, ◌≢◌, ◌↔◌, inl, inr, Bool, true, false, some, List, [],
  ◌∷◌, arith, ◌==◌, if◌then◌else◌, Bool-cases, Option-cases, opt_eq, modify, find_index, any,
}
use mwfl.DocumentWorkspace.{Workspace}
use mwfl.Prelude.Keyed.{index_of}
use mwfl.Command.{Command, find_position, find_command, set_text, set_enabled}
use mwfl.Command.Laws.{find-modify}
use mwfl.DocumentCoordination.Projection.{
  CommandIds, ids_are_valid, has_duplicate, Projection, ProjectionStatus, RouteStatus,
  no_active_document, RouteResult, route_result, route, write_commands, find_and_write,
  apply_projection,
}

module _ {H : Type 0} where
  position-modify :
      (f : Command H → Command H) (cs : List (Command H)) (id i : ℕ)
      → ((c : Command H) → (f c).id ≡ c.id)
      → find_position (modify f cs i) id ≡ find_position cs id
  unfolding find_position index_of find_index modify
  position-modify f [] id i same = refl
  position-modify f (c ∷ cs) id zero same = rw (same c) refl
  position-modify f (c ∷ cs) id (suc i) same = rw (position-modify f cs id i same) refl

  -- What a projection writes into the command of an ID.
  unfoldable pub shown : CommandIds → Projection → ℕ → Command H → Command H
  shown ids p key c =
      if key == ids.save
      then set_enabled p.can_save (set_text p.save_text c)
      else if key == ids.close
      then set_enabled p.can_close (set_text p.close_text c)
      else if key == ids.undo
      then set_enabled p.can_undo c
      else if key == ids.redo
      then set_enabled p.can_redo c
      else c

  written-shown :
      (cs : List (Command H)) (ids : CommandIds) (p : Projection) (s c u r key : ℕ)
      → ids_are_valid ids ≡ true
      → find_position cs ids.save ≡ some s
      → find_position cs ids.close ≡ some c
      → find_position cs ids.undo ≡ some u
      → find_position cs ids.redo ≡ some r
      → find_command (write_commands p cs s c u r) key
        ≡ Option.map (shown ids p key) (find_command cs key)
  unfolding write_commands shown ids_are_valid has_duplicate any
  written-shown cs ids p s c u r key valid hs hc hu hr =
      let f₁ : Command H → Command H = λ c. set_enabled p.can_save (set_text p.save_text c) in
      let f₂ : Command H → Command H = λ c. set_enabled p.can_close (set_text p.close_text c) in
      let f₃ : Command H → Command H = λ c. set_enabled p.can_undo c in
      let f₄ : Command H → Command H = λ c. set_enabled p.can_redo c in
      let cs₁ = modify f₁ cs s in
      let cs₂ = modify f₂ cs₁ c in
      let cs₃ = modify f₃ cs₂ u in
      let at₂ = position-modify f₁ cs ids.close s (λ c. refl) ∙ hc in
      let at₃ =
        position-modify f₂ cs₁ ids.undo c (λ c. refl)
        ∙ position-modify f₁ cs ids.undo s (λ c. refl)
        ∙ hu in
      let at₄ =
        position-modify f₃ cs₂ ids.redo u (λ c. refl)
        ∙ position-modify f₂ cs₁ ids.redo c (λ c. refl)
        ∙ position-modify f₁ cs ids.redo s (λ c. refl)
        ∙ hr in
      ground (
        arith,
        find-modify f₁ cs ids.save key {i = s} (λ c. refl) hs,
        find-modify f₂ cs₁ ids.close key {i = c} (λ c. refl) at₂,
        find-modify f₃ cs₂ ids.undo key {i = u} (λ c. refl) at₃,
        find-modify f₄ cs₃ ids.redo key {i = r} (λ c. refl) at₄,
      )

  found-shown :
      (cs : List (Command H)) (ids : CommandIds) (p : Projection) (written : List (Command H))
      → ids_are_valid ids ≡ true
      → find_and_write cs ids p ≡ some written
      → (key : ℕ) → find_command written key ≡ Option.map (shown ids p key) (find_command cs key)
  unfolding find_and_write
  found-shown cs ids p written valid e key = elim (Option-cases (find_position cs ids.save)) [
    | inl miss ↦ absurd (ground (arith, miss))
    | inr (s, hs) ↦ elim (Option-cases (find_position cs ids.close)) [
      | inl miss ↦ absurd (ground (arith, hs, miss))
      | inr (c, hc) ↦ elim (Option-cases (find_position cs ids.undo)) [
        | inl miss ↦ absurd (ground (arith, hs, hc, miss))
        | inr (u, hu) ↦ elim (Option-cases (find_position cs ids.redo)) [
          | inl miss ↦ absurd (ground (arith, hs, hc, hu, miss))
          | inr (r, hr) ↦
              let same : write_commands p cs s c u r ≡ written = ground (arith, hs, hc, hu, hr) in
              rw (← same) (written-shown cs ids p s c u r key valid hs hc hu hr)
        ]
      ]
    ]
  ]

  -- If the projection is applied, then each command that one of the four IDs finds shows its text
  -- and its flag, and every other command, and every other part of these, is as before. If it is
  -- refused, then no command changes.
  pub apply_projection-shown :
      (cs : List (Command H)) (ids : CommandIds) (p : Projection)
      → ((apply_projection cs ids p).1 ≡ ProjectionStatus.success
          → (key : ℕ)
          → find_command (apply_projection cs ids p).0 key
            ≡ Option.map (shown ids p key) (find_command cs key))
        × ((apply_projection cs ids p).1 ≢ ProjectionStatus.success
            → (apply_projection cs ids p).0 ≡ cs)
  unfolding apply_projection
  apply_projection-shown cs ids p = (
    λ e key. elim (Bool-cases (ids_are_valid ids)) [
      | inr bad ↦ absurd (ground (arith, bad))
      | inl valid ↦ elim (Option-cases (find_and_write cs ids p)) [
        | inl miss ↦ absurd (ground (arith, valid, miss))
        | inr (written, hit) ↦
            let same : written ≡ (apply_projection cs ids p).0 = ground (arith, valid, hit) in
            rw (← same) (found-shown cs ids p written valid hit key)
      ]
    ],
    λ n. ground arith,
  )

-- What is left of a routing, whatever it reports: the workspace as before where no document is
-- active, and otherwise the one that the handler left when it was called on the active document.
abbrev pub IsRouted :
    (ℕ → Workspace → Workspace × Bool) → Workspace → Workspace × RouteResult → Type 0
IsRouted handler w (next, r) =
    ((w.active ≡ none) × (next ≡ w) × (r ≡ route_result no_active_document none))
    ⊎ ((id : ℕ) × (w.active ≡ some id) × (next ≡ (handler id w).0) × (r.routed_document ≡ some id))

-- `RouteActiveDocument` reports success exactly where a document is active, the handler returned
-- from its call on it without an exception, and the same document is active afterwards. Whatever
-- it reports, the workspace is as before where no document is active, and otherwise the one that
-- the handler left when it was called on the active document, which the result names.
pub route_lem :
    (w : Workspace) (handler : ℕ → Workspace → Workspace × Bool)
    → (((route w (some handler)).1.status ≡ RouteStatus.success) ↔ (
        (id : ℕ) × (w.active ≡ some id)
        × ((handler id w).1 ≡ false)
        × ((handler id w).0.active ≡ some id)))
      × IsRouted handler w (route w (some handler))
unfolding route opt_eq
route_lem w handler = elim (Option-cases w.active) [
  | inl miss ↦ (
    (
      λ e. absurd (ground (arith, miss)),
      λ (id, at, quiet, still). absurd (ground (arith, miss, at)),
    ),
    inl (miss, ground (arith, miss), ground (arith, miss)),
  )
  | inr (id, at) ↦ (
    (
      λ e. (id, at, ground (arith, at), ground (arith, at)),
      λ (k, same, quiet, still). ground (arith, same, quiet, still),
    ),
    inr (id, at, ground (arith, at), ground (arith, at)),
  )
]
