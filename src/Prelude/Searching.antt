-- ===== src/Prelude/Searching.antt =====
-- What a search over a list finds, and what `std::erase_if` leaves, by membership.
use mathlib.Core.List.{
  List, [], ◌∷◌, ◌++◌, Mem, mem-cons, mem-cons_self, mem-cons_of_mem, not-mem-nil, mem-append,
}
use mathlib.Core.Logic.Or
use mathlib.Core.Logic.{inl, inr, ◌∨₁◌, ∨₁_prop}
use mathlib.Core.Path.{◌≡◌, refl, ap, subst, sym}
use mathlib.Core.Bool.{Bool, true, false}
use mathlib.Core.Option.{none, some}
use Prim.Native.Nat.{ℕ, zero, suc}
use native.Mathlib.Omega.{arith}
use mwfl.Prelude.Tests.{Bool-cases}
use mwfl.Prelude.Lists.{find, any, erase_if, take, drop}

-- A Boolean equation is a proposition.
pub Bool-eq-prop : (a b : Bool) → IsProp (a ≡ b)
Bool-eq-prop a b = hlevel

module _ {ℓ} {A : Type ℓ} (p : A → Bool) where
  pub find-some : (xs : List A) {a : A} → find p xs ≡ some a → Mem a xs × (p a ≡ true)
  unfolding find
  find-some [] h = cc
  find-some (x ∷ xs) {a = a} h = elim (Bool-cases (p x)) [
    | inl hit ↦
        let same : x ≡ a = ground arith in
        (subst (λ y. Mem y (x ∷ xs)) same mem-cons_self, subst (λ y. p y ≡ true) same hit)
    | inr miss ↦ let (m, e) = find-some xs {a = a} (rw miss at h) in (mem-cons_of_mem x m, e)
  ]

  pub find-none : (xs : List A) → find p xs ≡ none → (a : A) → Mem a xs → p a ≡ false
  unfolding find
  find-none [] h a m = absurd (not-mem-nil m)
  find-none (x ∷ xs) h a m = elim (Bool-cases (p x)) [
    | inl hit ↦ cc
    | inr miss ↦
        Or.elim (Bool-eq-prop (p a) false) (mem-cons.0 m) (λ e. rw e miss)
          (find-none xs (rw miss at h) a)
  ]

  pub any_none : (xs : List A) → any p xs ≡ false → (a : A) → Mem a xs → p a ≡ false
  unfolding any
  any_none [] h a m = absurd (not-mem-nil m)
  any_none (x ∷ xs) h a m =
      Or.elim (Bool-eq-prop (p a) false) (mem-cons.0 m) (λ e. rw e (ground arith))
        (any_none xs (ground arith) a)

  pub erase_if_all : (xs : List A) → ((a : A) → Mem a xs → p a ≡ true) → erase_if p xs ≡ []
  unfolding erase_if
  erase_if_all [] h = refl
  erase_if_all (x ∷ xs) h =
      rw (h x mem-cons_self) (erase_if_all xs (λ a m. h a (mem-cons_of_mem x m)))

  pub mem-erase_if : (xs : List A) {a : A} → p a ≡ false → Mem a xs → Mem a (erase_if p xs)
  unfolding erase_if
  mem-erase_if [] e m = m
  mem-erase_if (x ∷ xs) {a = a} e m = elim (Bool-cases (p x)) [
    | inl gone ↦
        rw gone (Or.elim squash₁ (mem-cons.0 m) (λ same. cc (ap p same)) (mem-erase_if xs e))
    | inr kept ↦
        rw kept
          (mem-cons.1 (Or.elim ∨₁_prop (mem-cons.0 m) Or.inl (λ h. Or.inr (mem-erase_if xs e h))))
  ]

module _ {ℓ} {A : Type ℓ} where
  pub take-append-drop : (n : ℕ) (xs : List A) → take n xs ++ drop n xs ≡ xs
  take-append-drop zero xs = refl
  take-append-drop (suc n) [] = refl
  take-append-drop (suc n) (x ∷ xs) = ap (x ∷◌) (take-append-drop n xs)

  -- An element stands before a position or not.
  pub mem-split : (n : ℕ) (xs : List A) {a : A} → Mem a xs → Mem a (take n xs) ∨₁ Mem a (drop n xs)
  mem-split n xs {a = a} m = mem-append.0 (subst (Mem a) (sym (take-append-drop n xs)) m)

  pub mem_of_mem-take : (n : ℕ) (xs : List A) {a : A} → Mem a (take n xs) → Mem a xs
  mem_of_mem-take n xs {a = a} m = subst (Mem a) (take-append-drop n xs) (mem-append.1 (Or.inl m))

  pub mem_of_mem-drop : (n : ℕ) (xs : List A) {a : A} → Mem a (drop n xs) → Mem a xs
  mem_of_mem-drop n xs {a = a} m = subst (Mem a) (take-append-drop n xs) (mem-append.1 (Or.inr m))
