-- ===== src/DocumentSession/Distinct.antt =====
-- IDs of which no two are equal, in the order in which src/document_session.cpp meets them.
use mwfl.Prelude.{
  ℕ, ◌≡◌, refl, Bool, true, false, not, ◌&&◌, ◌||◌, List, [], ◌∷◌, ◌++◌, map, arith, ◌==◌, any,
}

-- No ID stands twice.
unfoldable pub distinct : List ℕ → Bool
distinct [] = true
distinct (x ∷ xs) = not (any (λ y. y == x) xs) && distinct xs

pub any-append :
    {A : Type 0} (p : A → Bool) (xs ys : List A) → any p (xs ++ ys) ≡ (any p xs || any p ys)
unfolding any
any-append p [] ys = refl
any-append p (x ∷ xs) ys = ground (arith, any-append p xs ys)

pub any-map :
    {A B : Type 0} (p : B → Bool) (g : A → B) (xs : List A)
    → any p (map g xs) ≡ any (λ a. p (g a)) xs
unfolding any
any-map p g [] = refl
any-map p g (x ∷ xs) = ground (arith, any-map p g xs)

any_head : (x y : ℕ) (ys : List ℕ) → any (λ z. z == x) (y ∷ ys) ≡ ((y == x) || any (λ z. z == x) ys)
unfolding any
any_head x y ys = refl

-- What stands between distinct IDs is new among those before it.
pub distinct_new :
    (seen : List ℕ) (x : ℕ) (xs : List ℕ)
    → distinct (seen ++ x ∷ xs) ≡ true
    → any (λ y. y == x) seen ≡ false
unfolding distinct
distinct_new [] x xs h = unfold any in refl
distinct_new (s ∷ seen) x xs h = ground (
  arith,
  any_head x s seen,
  any-append (λ y. y == s) seen (x ∷ xs),
  any_head s x xs,
  distinct_new seen x xs (ground (arith, h)),
)
