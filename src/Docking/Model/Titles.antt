-- ===== src/Docking/Model/Titles.antt =====
-- `AddPanel` of src/docking_workspace.cpp does not look at the length of a title, which `Validate`
-- bounds.
use mwfl.Prelude.{
  ℕ, ◌<◌, ◌≡◌, refl, ◌≢◌, Bool, true, false, not, is_some, is_nil, get_elem?, Text, Option, List,
  [], ◌∷◌, ◌++◌, arith, some, length, any,
}
use mwfl.Docking.{Panel, Snapshot, success, find_group, find_panel, role_for}
use mwfl.Docking.Validate.{validate, title_is_valid}
use mwfl.Docking.Mutation.{group_role_at}
use mwfl.Docking.Model.{LayoutModel, add_panel, insert_new_panel}

any-last :
    (q : Panel → Bool) (ps : List Panel) (p : Panel) → q p ≡ true → any q (ps ++ p ∷ []) ≡ true
unfolding any
any-last q [] p h = ground (arith, h)
any-last q (x ∷ ps) p h = ground (arith, any-last q ps p h)

long_title :
    (s : Snapshot) → any (λ p. not (title_is_valid p)) s.panels ≡ true → validate s ≢ success
unfolding validate
long_title s h = λ e. ground (arith, h)

has_text : (t : Text) → 0 < length t → is_nil t ≡ false
has_text [] h = absurd (omega arith)
has_text (c ∷ t) h = refl

-- A panel of a new ID that fits the role of the group, and whose title is longer than 4,096 code
-- units, is accepted by `AddPanel`, and leaves a layout that `Validate` refuses.
pub add_panel-long_title :
    (m : LayoutModel) (p : Panel) (group i : ℕ) (index : Option ℕ)
    → p.id ≢ 0
    → is_some (find_panel m.state p.id) ≡ false
    → find_group m.state group ≡ some i
    → group_role_at (get_elem? m.state.groups i) (role_for p.role) ≡ true
    → 4096 < length p.title
    → ((add_panel m p group index).1.status ≡ success)
      × (validate (add_panel m p group index).0.state ≢ success)
unfolding add_panel insert_new_panel title_is_valid
add_panel-long_title m p group i index named fresh at fits long =
    let titled : is_nil p.title ≡ false = has_text p.title (omega (arith, long)) in
    let panels : (add_panel m p group index).0.state.panels ≡ m.state.panels ++ p ∷ [] =
      ground (arith, named, fresh, at, fits, titled) in
    (
      ground (arith, named, fresh, at, fits, titled),
      long_title _
          (rw panels (any-last (λ q. not (title_is_valid q)) m.state.panels p (ground arith))),
    )
