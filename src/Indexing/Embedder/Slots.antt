-- ===== src/Indexing/Embedder/Slots.antt =====
-- The entries of the response, while they are filled.
use doc_search_ai.Indexing.Embedder.{Filled, set_at, unfilled, filled_only, is_unfilled}
use doc_search_ai.Common.{
  ◌≡◌, refl, ℕ, zero, suc, Option, none, some, List, length, get_elem?, any, false, All, ap, ◌∷◌,
  [],
}

module _ (F : Type 0) where
  pub length-unfilled : (n : ℕ) → length (unfilled {F = F} n) ≡ n
  length-unfilled zero = refl
  length-unfilled (suc n) = ap suc (length-unfilled n)

module _ {F : Type 0} where
  pub length-set_at : (i : ℕ) (v : List F) (l : Filled F) → length (set_at i v l) ≡ length l
  unfolding set_at
  length-set_at i v [] = refl
  length-set_at zero v (x ∷ l) = refl
  length-set_at (suc i) v (x ∷ l) = ap suc (length-set_at i v l)

  pub set_at-same :
      (i : ℕ) (v : List F) (l : Filled F) {x : Option (List F)}
      → get_elem? l i ≡ some x
      → get_elem? (set_at i v l) i ≡ some (some v)
  unfolding set_at
  set_at-same i v [] h = absurd cc
  set_at-same zero v (y ∷ l) h = refl
  set_at-same (suc i) v (y ∷ l) h = set_at-same i v l h

  -- An entry that is filled is not the free one, and stays.
  pub set_at-kept :
      (i j : ℕ) (v w : List F) (l : Filled F)
      → get_elem? l i ≡ some none
      → get_elem? l j ≡ some (some w)
      → get_elem? (set_at i v l) j ≡ some (some w)
  unfolding set_at
  set_at-kept i j v w [] h k = absurd cc
  set_at-kept zero zero v w (y ∷ l) h k = absurd cc
  set_at-kept zero (suc j) v w (y ∷ l) h k = k
  set_at-kept (suc i) zero v w (y ∷ l) h k = k
  set_at-kept (suc i) (suc j) v w (y ∷ l) h k = set_at-kept i j v w l h k

  -- When all entries are filled, the result has them in their order.
  pub length-filled_only :
      (l : Filled F) → any is_unfilled l ≡ false → length (filled_only l) ≡ length l
  unfolding any
  length-filled_only [] h = refl
  length-filled_only (none ∷ l) h = absurd cc
  length-filled_only (some v ∷ l) h = ap suc (length-filled_only l h)

  pub filled_only-at :
      (l : Filled F) (i : ℕ) (v : List F)
      → any is_unfilled l ≡ false
      → get_elem? l i ≡ some (some v)
      → get_elem? (filled_only l) i ≡ some v
  unfolding any
  filled_only-at [] i v h k = absurd cc
  filled_only-at (none ∷ l) i v h k = absurd cc
  filled_only-at (some w ∷ l) zero v h k = cc
  filled_only-at (some w ∷ l) (suc i) v h k = filled_only-at l i v h k

  -- Every entry that is filled has a vector of the given size.
  abbrev pub Sized : ℕ → Option (List F) → Type 0
  Sized size none = Unit
  Sized size (some v) = length v ≡ size

  pub set_at-Sized :
      (size i : ℕ) (v : List F) (l : Filled F)
      → length v ≡ size
      → All (Sized size) l
      → All (Sized size) (set_at i v l)
  unfolding set_at
  set_at-Sized size i v [] e h = tt
  set_at-Sized size zero v (x ∷ l) e h = (e, h.1)
  set_at-Sized size (suc i) v (x ∷ l) e h = (h.0, set_at-Sized size i v l e h.1)

  pub filled_only-Sized :
      (size : ℕ) (l : Filled F) → All (Sized size) l → All (λ v. length v ≡ size) (filled_only l)
  filled_only-Sized size [] h = tt
  filled_only-Sized size (none ∷ l) h = filled_only-Sized size l h.1
  filled_only-Sized size (some v ∷ l) h = (h.0, filled_only-Sized size l h.1)

module _ (F : Type 0) where
  pub unfilled-Sized : (size n : ℕ) → All (Sized {F = F} size) (unfilled n)
  unfilled-Sized size zero = tt
  unfilled-Sized size (suc n) = (tt, unfilled-Sized size n)
