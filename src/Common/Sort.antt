-- ===== src/Common/Sort.antt =====
-- `sorted(l, key=…)`: a stable sort by a Boolean test `before a b`, which holds when `a` need not
-- stand behind `b`.
use native.Mathlib.Omega.{arith}
use Prim.Native.Nat.{ℕ, zero, suc}
use mathlib.Core.Path.{◌≡◌, refl}
use mathlib.Core.Logic.{inl, inr}
use mathlib.Core.Bool.{Bool, true, false}
use mathlib.Core.List.{List, [], ◌∷◌, Perm}
use mathlib.Core.List.Perm
use doc_search_ai.Common.Tests.{if◌then◌else◌, Bool-cases}
use doc_search_ai.Common.Lists.{All, All-mono, All-take, length, take}

module _ {ℓ} {A : Type ℓ} (before : A → A → Bool) where
  -- `x` stood in front of all of the list, so it stays in front of its equals.
  unfoldable pub insert_sorted : A → List A → List A
  insert_sorted x [] = x ∷ []
  insert_sorted x (y ∷ ys) =
      let rest = insert_sorted x ys in if before x y then x ∷ y ∷ ys else y ∷ rest

  unfoldable pub sorted : List A → List A
  unfolding insert_sorted
  sorted [] = []
  sorted (x ∷ xs) = insert_sorted x (sorted xs)

  abbrev pub IsSorted : List A → Type 0
  IsSorted [] = Unit
  IsSorted (x ∷ xs) = All (λ y. before x y ≡ true) xs × IsSorted xs

  insert_sorted-perm : (x : A) (l : List A) → Perm (insert_sorted x l) (x ∷ l)
  unfolding insert_sorted
  insert_sorted-perm x [] = Perm.rfl
  insert_sorted-perm x (y ∷ ys) = elim (Bool-cases (before x y)) [
    | inl e ↦ rw (e, insert_sorted) Perm.rfl
    | inr e ↦
        rw (e, insert_sorted)
          (Perm.trans (Perm.cons y (insert_sorted-perm x ys)) (Perm.swap x y ys))
  ]

  pub IsSorted-take : (n : ℕ) (l : List A) → IsSorted l → IsSorted (take n l)
  IsSorted-take zero l h = tt
  IsSorted-take (suc n) [] h = tt
  IsSorted-take (suc n) (x ∷ l) h = (All-take _ n l h.0, IsSorted-take n l h.1)

  pub sorted-perm : (l : List A) → Perm (sorted l) l
  unfolding sorted
  sorted-perm [] = Perm.rfl
  sorted-perm (x ∷ xs) =
      Perm.trans (insert_sorted-perm x (sorted xs)) (Perm.cons x (sorted-perm xs))

  length-insert_sorted : (x : A) (l : List A) → length (insert_sorted x l) ≡ suc (length l)
  unfolding insert_sorted
  length-insert_sorted x [] = refl
  length-insert_sorted x (y ∷ ys) = ground (arith, length-insert_sorted x ys)

  pub length-sorted : (l : List A) → length (sorted l) ≡ length l
  unfolding sorted
  length-sorted [] = refl
  length-sorted (x ∷ xs) = omega (arith, length-insert_sorted x (sorted xs), length-sorted xs)

  insert_sorted-All :
      (P : A → Type 0) (x : A) (l : List A) → P x → All P l → All P (insert_sorted x l)
  unfolding insert_sorted
  insert_sorted-All P x [] hx h = (hx, tt)
  insert_sorted-All P x (y ∷ ys) hx h = elim (Bool-cases (before x y)) [
    | inl e ↦ rw (e, insert_sorted) (hx, h)
    | inr e ↦ rw (e, insert_sorted) (h.0, insert_sorted-All P x ys hx h.1)
  ]

  pub sorted-All : (P : A → Type 0) (l : List A) → All P l → All P (sorted l)
  unfolding sorted
  sorted-All P [] h = tt
  sorted-All P (x ∷ xs) h = insert_sorted-All P x (sorted xs) h.0 (sorted-All P xs h.1)

  module _ (total : (a b : A) → before a b ≡ false → before b a ≡ true)
      (trans : (a b c : A) → before a b ≡ true → before b c ≡ true → before a c ≡ true) where
    insert_sorted-IsSorted : (x : A) (l : List A) → IsSorted l → IsSorted (insert_sorted x l)
    unfolding insert_sorted
    insert_sorted-IsSorted x [] h = (tt, tt)
    insert_sorted-IsSorted x (y ∷ ys) h = elim (Bool-cases (before x y)) [
      | inl e ↦ rw (e, insert_sorted) ((e, All-mono (λ z p. trans x y z e p) ys h.0), h)
      | inr e ↦
          rw (e, insert_sorted)
            (
              insert_sorted-All (λ z. before y z ≡ true) x ys (total x y e) h.0,
              insert_sorted-IsSorted x ys h.1,
            )
    ]

    pub sorted-IsSorted : (l : List A) → IsSorted (sorted l)
    unfolding sorted
    sorted-IsSorted [] = tt
    sorted-IsSorted (x ∷ xs) = insert_sorted-IsSorted x (sorted xs) (sorted-IsSorted xs)
