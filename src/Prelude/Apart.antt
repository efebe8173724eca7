-- ===== src/Prelude/Apart.antt =====
-- Lists in which any two elements stand in a symmetric relation, under the changes of a vector.
use mathlib.Core.List.{List, [], ◌∷◌, Mem, Perm, Pairwise, Pairwise-cons, mem-cons, mem-cons_of_mem}
use mathlib.Core.List.Perm
use mathlib.Core.Logic.Or
use mathlib.Core.Logic.{inl, inr, ∨₁_prop}
use mathlib.Core.Path.{◌≡◌}
use mathlib.Core.Bool.{Bool}
use mathlib.Core.Option.{some}
use Prim.Native.Nat.{ℕ, zero, suc}
use native.Mathlib.Omega.{arith}
use mwfl.Prelude.Tests.{Bool-cases}
use mathlib.Core.List.{Nodup-cons}
use mathlib.Core.Path.{sym}
use mwfl.Prelude.Keyed.{keys, IsIds, IsIds-tail, IsIds-cons}
use mwfl.Prelude.Lists.{get_elem?, modify, erase_idx, erase_if}

module _ {ℓ} {A : Type ℓ} where
  pub mem_of_mem-erase_if : (p : A → Bool) (xs : List A) {a : A} → Mem a (erase_if p xs) → Mem a xs
  unfolding erase_if
  mem_of_mem-erase_if p [] m = m
  mem_of_mem-erase_if p (x ∷ xs) m = elim (Bool-cases (p x)) [
    | inl gone ↦ mem-cons_of_mem x (mem_of_mem-erase_if p xs (rw gone at m))
    | inr kept ↦ mem-cons.1 (
        Or.elim ∨₁_prop (mem-cons.0 (rw kept at m)) Or.inl
          (λ h. Or.inr (mem_of_mem-erase_if p xs h)))
  ]

  -- A write is an erasure and an insertion, up to order.
  pub modify-perm :
      (f : A → A) (xs : List A) (i : ℕ) {a : A}
      → get_elem? xs i ≡ some a
      → Perm (modify f xs i) (f a ∷ erase_idx xs i)
  unfolding modify erase_idx
  modify-perm f [] i at = cc
  modify-perm f (x ∷ xs) zero at = Perm.cons' (ground arith) Perm.rfl
  modify-perm f (x ∷ xs) (suc i) {a = a} at =
      Perm.trans (Perm.cons x (modify-perm f xs i at)) (Perm.swap (f a) x (erase_idx xs i))

module _ {ℓ κ} {A : Type ℓ} (R : A → A → Type κ) where
  pub Pairwise-erase_if : (p : A → Bool) (xs : List A) → Pairwise R xs → Pairwise R (erase_if p xs)
  unfolding erase_if
  Pairwise-erase_if p [] h = h
  Pairwise-erase_if p (x ∷ xs) h =
      let (head, tail) = Pairwise-cons.0 h in
      elim (Bool-cases (p x)) [
        | inl gone ↦ rw gone (Pairwise-erase_if p xs tail)
        | inr kept ↦ rw kept (
            Pairwise-cons.1
              (λ a m. head a (mem_of_mem-erase_if p xs m), Pairwise-erase_if p xs tail))
      ]

module _ {ℓ} {A : Type ℓ} (key : A → ℕ) (p : A → Bool) where
  pub mem_keys-erase_if :
      (xs : List A) {k : ℕ} → Mem k (keys key (erase_if p xs)) → Mem k (keys key xs)
  unfolding erase_if
  mem_keys-erase_if [] m = m
  mem_keys-erase_if (x ∷ xs) m = elim (Bool-cases (p x)) [
    | inl gone ↦ mem-cons_of_mem (key x) (mem_keys-erase_if xs (rw gone at m))
    | inr kept ↦
        mem-cons.1 (
          Or.elim ∨₁_prop (mem-cons.0 (rw kept at m)) Or.inl (λ h. Or.inr (mem_keys-erase_if xs h)))
  ]

  pub IsIds-erase_if : (xs : List A) → IsIds (keys key xs) → IsIds (keys key (erase_if p xs))
  unfolding erase_if
  IsIds-erase_if [] v = v
  IsIds-erase_if (x ∷ xs) v = elim (Bool-cases (p x)) [
    | inl gone ↦ rw gone (IsIds-erase_if xs (IsIds-tail v))
    | inr kept ↦ rw kept (
        IsIds-cons (λ e. v.nonzero (mem-cons.1 (Or.inl (sym e))))
          (λ m. (Nodup-cons.0 v.distinct).0 (mem_keys-erase_if xs m))
          (IsIds-erase_if xs (IsIds-tail v)))
  ]
