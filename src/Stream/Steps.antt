-- ===== src/Stream/Steps.antt =====
-- Chains of steps that return at the first status that is not success, as the parsers of both
-- session formats do: a result is a status or a value.
pub mod Trim
use mwfl.Prelude.{
  ℕ, zero, suc, ◌+◌, ◌-◌, ◌*◌, ◌/◌, ◌%◌, ◌^◌, ◌≤◌, ◌<◌, min, max, ◌≡◌, refl, sym, ap, subst, ◌∙◌,
  ◌≢◌, ◌↔◌, ◌⊎◌, inl, inr, Bool, true, false, not, ◌&&◌, ◌||◌, Option, none, some, List, [], ◌∷◌,
  ◌++◌, map, Mem, Nodup, Perm, arith, Text, u64_mod, next_u64, ltb, leb, ◌==◌, if◌then◌else◌,
  ltb→lt, lt→ltb, leb→le, ==_iff, ==_refl, Bool-cases, Option-cases, Either-cases, text_eq,
  text_eq_iff, opt_eq, codes, is_nil, is_some, length, get_elem?, take, drop, insert_at, erase_idx,
  modify, find_index, find, any, erase_if, length-append, length-take, length-drop,
  length-insert_at, length-erase_idx, length-modify, get_elem?-insert_at_self, erase_idx-insert_at,
  get_elem?_of_lt, lt-length_of_get_elem?, mem_of_get_elem?, insert_at-perm, erase_idx-perm,
  find_index_sound, find_index-any, length-map, get_elem?-map, map-insert_at, map-erase_idx,
  map-modify, shift, All, All-append, All-insert_at, All-erase_idx, All-modify, All-take,
  All-erase_if, All-get_elem?, All-mono, get_elem?-erase_idx_lt, get_elem?-erase_idx_le, heir,
  get_elem?-min-erase_idx,
}
use mwfl.Stream.Lines.{is_extension, read_required, read_required_lem}

module _ {E A B : Type 0} where
  infixl 1 ◌>>=◌
  unfoldable pub ◌>>=◌ : E ⊎ A → (A → E ⊎ B) → E ⊎ B
  inl status >>= f = inl status
  inr a >>= f = f a

  -- A step that goes on.
  pub bind_inr :
      (m : E ⊎ A) (f : A → E ⊎ B) {a : A} {r : E ⊎ B} → m ≡ inr a → f a ≡ r → (m >>= f) ≡ r
  unfolding ◌>>=◌
  bind_inr m f e k = rw (e, ◌>>=◌) k

  -- A chain that succeeds, taken apart.
  pub bind_split :
      (m : E ⊎ A) (f : A → E ⊎ B) {b : B}
      → (m >>= f) ≡ inr b
      → (a : A) × (m ≡ inr a) × (f a ≡ inr b)
  unfolding ◌>>=◌
  bind_split (inl status) f h = cc
  bind_split (inr a) f h = (a, refl, h)

-- A step that finds nothing ends with the status.
module _ {E : Type 0} (status : E) where
  abbrev pub or_fail : {A : Type 0} → Option A → E ⊎ A
  or_fail none = inl status
  or_fail (some a) = inr a

  abbrev pub line_of : {A : Type 0} → (Text → Option A) → Text × List Text → E ⊎ (A × List Text)
  line_of p (l, rest) = or_fail (p l) >>= λ a. inr (a, rest)

  -- The next line that is no extension, parsed.
  unfoldable pub read_line : {A : Type 0} → (Text → Option A) → List Text → E ⊎ (A × List Text)
  read_line p ls = or_fail (read_required ls) >>= line_of p

  pub read_line_lem :
      {A : Type 0} (p : Text → Option A) (l : Text) (ls : List Text) {a : A}
      → p l ≡ some a
      → is_extension l ≡ false
      → read_line p (l ∷ ls) ≡ inr (a, ls)
  unfolding read_line
  read_line_lem p l ls e x =
      bind_inr _ _ (ap or_fail (read_required_lem l ls x)) (bind_inr _ _ (ap or_fail e) refl)
