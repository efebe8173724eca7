-- ===== src/DocumentSession/Restore/Gathered.antt =====
-- Which recently closed documents a restore of src/document_session.cpp collects.
use mathlib.Core.List.{append_assoc, append-nil, Perm, perm_middle}
use mathlib.Core.List.Perm
use mwfl.Prelude.{All, ℕ, ◌≡◌, refl, sym, ap, ◌∙◌, Bool, true, false, List, [], ◌∷◌, ◌++◌, map}
use mwfl.DocumentSession.{SessionDocument}
use mwfl.DocumentSession.Restore.{Callbacks, Run, assess, collect, assess_recent}
use mwfl.DocumentSession.Restore.Verdict.{Verdict, Taken, Declined, assess-Verdict}
use mwfl.DocumentSession.Restore.Divided.{Keeps, key_of, key_if, Notes, assess-Notes}

pub Notes-trans :
    {a b c : Run} {m₁ m₂ : List (ℕ × Bool)} → Notes a b m₁ → Notes b c m₂ → Notes a c (m₁ ++ m₂)
Notes-trans {m₁ = m₁} {m₂ = m₂} m n = record {
  target_stays = n.target_stays ∙ m.target_stays;
  keys_grow = n.keys_grow ∙ ap (λ l. l ++ m₂) m.keys_grow ∙ append_assoc _ m₁ m₂;
  opened_stays = n.opened_stays ∙ m.opened_stays;
  recent_stays = n.recent_stays ∙ m.recent_stays;
}

-- Of some recently closed documents, those that are collected and those that are reported.
unfoldable pub Gathers :
    Callbacks
    → List SessionDocument
    → Run
    → List SessionDocument
    → List SessionDocument × Run
    → Type 0
Gathers call recent run items (out, next) =
    (kept : List SessionDocument) × (dropped : List SessionDocument) × Perm items (kept ++ dropped)
    × (out ≡ recent ++ kept)
    × Notes run next (map (key_of true) dropped)
    × All (Taken call true) kept
    × All (Declined call true) dropped

Gathers-cons :
    (call : Callbacks) (recent : List SessionDocument) (run : Run) (item : SessionDocument)
    (items : List SessionDocument) (a : Bool × Run) (r : List SessionDocument × Run)
    → Verdict call item true run.target a.0
    → Notes run a.1 (key_if a.0 true item)
    → Gathers call (collect item recent a.0) a.1 items r
    → Gathers call recent run (item ∷ items) r
unfolding Gathers
Gathers-cons call recent run item items (true, mid) (out, next) v n
      (kept, dropped, p, e, rest, takes, leaves) =
    (
      item ∷ kept,
      dropped,
      Perm.cons item p,
      e ∙ append_assoc recent (item ∷ []) kept,
      Notes-trans n rest,
      ((run.target, v), takes),
      leaves,
    )
Gathers-cons call recent run item items (false, mid) (out, next) v n
      (kept, dropped, p, e, rest, takes, leaves) =
    (
      kept,
      item ∷ dropped,
      Perm.trans (Perm.cons item p) (Perm.symm (perm_middle kept dropped)),
      e,
      Notes-trans n rest,
      takes,
      ((run.target, v), leaves),
    )

pub assess_recent-Gathers :
    (call : Callbacks)
    → Keeps call
    → (items recent : List SessionDocument) (run : Run)
    → Gathers call recent run items (assess_recent call items recent run)
unfolding assess_recent Gathers
assess_recent-Gathers call quiet [] recent run = (
  [],
  [],
  Perm.nil,
  sym (append-nil recent),
  record {
    target_stays = refl;
    keys_grow = sym (append-nil _);
    opened_stays = refl;
    recent_stays = refl;
  },
  tt,
  tt,
)
assess_recent-Gathers call quiet (item ∷ items) recent run =
    let a = assess call item true run in
    Gathers-cons call recent run item items a
      (assess_recent call items (collect item recent a.0) a.1)
      (assess-Verdict call quiet item true run) (assess-Notes call quiet item true run)
      (assess_recent-Gathers call quiet items (collect item recent a.0) a.1)
