-- ===== src/Common/Lists.antt =====
-- Lists measured and cut by native numbers, filters by a Boolean test, and predicates on all
-- elements of a list.
use Prim.Native.Nat.{ℕ, zero, suc, ◌+◌, ◌-◌, ◌≤◌, ◌<◌, min}
use mathlib.Core.Path.{◌≡◌, refl, ap, subst, sym}
use mathlib.Core.Bool.{Bool, true, false}
use mathlib.Core.List.{
  List, [], ◌∷◌, ◌++◌, map, reverse, reverse-cons, reverse-append, reverse-reverse,
}
use mathlib.Core.Option.{Option, none, some}
use native.Mathlib.Omega.{arith}
use doc_search_ai.Common.Tests.{if◌then◌else◌, Bool-cases, leb}
use mathlib.Core.Logic.{inl, inr}

module _ {ℓ} {A : Type ℓ} where
  abbrev pub length : List A → ℕ
  length [] = 0
  length (x ∷ xs) = suc (length xs)

  abbrev pub null : List A → Bool
  null [] = true
  null (x ∷ xs) = false

  abbrev pub get_elem? : List A → ℕ → Option A
  get_elem? [] i = none
  get_elem? (x ∷ xs) zero = some x
  get_elem? (x ∷ xs) (suc i) = get_elem? xs i

  -- `l[:n]`
  abbrev pub take : ℕ → List A → List A
  take zero xs = []
  take (suc n) [] = []
  take (suc n) (x ∷ xs) = x ∷ take n xs

  -- `l[n:]`
  abbrev pub drop : ℕ → List A → List A
  drop zero xs = xs
  drop (suc n) [] = []
  drop (suc n) (x ∷ xs) = drop n xs

  -- `[x for x in l if p(x)]`
  unfoldable pub filter : (A → Bool) → List A → List A
  filter p [] = []
  filter p (x ∷ xs) = let rest = filter p xs in if p x then x ∷ rest else rest

  -- `next((x for x in l if p(x)), None)`
  unfoldable pub find : (A → Bool) → List A → Option A
  find p [] = none
  find p (x ∷ xs) = let rest = find p xs in if p x then some x else rest

  -- `any(p(x) for x in l)`
  unfoldable pub any : (A → Bool) → List A → Bool
  any p [] = false
  any p (x ∷ xs) = let rest = any p xs in if p x then true else rest

  -- `all(p(x) for x in l)`
  unfoldable pub all : (A → Bool) → List A → Bool
  all p [] = true
  all p (x ∷ xs) = let rest = all p xs in if p x then rest else false

  pub length-append : (xs ys : List A) → length (xs ++ ys) ≡ length xs + length ys
  length-append [] ys = omega arith
  length-append (x ∷ xs) ys = omega (arith, length-append xs ys)

  pub length-take : (n : ℕ) (xs : List A) → length (take n xs) ≡ min n (length xs)
  length-take zero xs = omega arith
  length-take (suc n) [] = omega arith
  length-take (suc n) (x ∷ xs) = omega (arith, length-take n xs)

  pub length-take-le : (n : ℕ) (xs : List A) → length (take n xs) ≤ n
  length-take-le n xs = omega (arith, length-take n xs)

  pub length-drop : (n : ℕ) (xs : List A) → length (drop n xs) ≡ length xs - n
  length-drop zero xs = omega arith
  length-drop (suc n) [] = omega arith
  length-drop (suc n) (x ∷ xs) = omega (arith, length-drop n xs)

  pub take-append-drop : (n : ℕ) (xs : List A) → take n xs ++ drop n xs ≡ xs
  take-append-drop zero xs = refl
  take-append-drop (suc n) [] = refl
  take-append-drop (suc n) (x ∷ xs) = ap (◌∷◌ x) (take-append-drop n xs)

  pub take_nil : (n : ℕ) → take n [] ≡ []
  take_nil zero = refl
  take_nil (suc n) = refl

  pub take_of_length-le : (n : ℕ) (l : List A) → length l ≤ n → take n l ≡ l
  take_of_length-le n [] short = take_nil n
  take_of_length-le zero (y ∷ l) short = absurd (omega (arith, short))
  take_of_length-le (suc n) (y ∷ l) short =
      ap (◌∷◌ y) (take_of_length-le n l (omega (arith, short)))

  pub take-append_short : (n : ℕ) (xs ys : List A) → n ≤ length xs → take n (xs ++ ys) ≡ take n xs
  take-append_short zero xs ys h = refl
  take-append_short (suc n) [] ys h = absurd (omega arith)
  take-append_short (suc n) (x ∷ xs) ys h = ap (◌∷◌ x) (take-append_short n xs ys (omega arith))

  pub length-reverse : (xs : List A) → length (reverse xs) ≡ length xs
  length-reverse [] = refl
  length-reverse (x ∷ xs) =
      rw (reverse-cons x xs) (omega (arith, length-append (reverse xs) (x ∷ []), length-reverse xs))

  pub drop_nil : (n : ℕ) → drop n [] ≡ []
  drop_nil zero = refl
  drop_nil (suc n) = refl

  -- the last elements, read from the end
  pub reverse-drop : (n : ℕ) (xs : List A) → reverse (drop (length xs - n) xs) ≡ take n (reverse xs)
  reverse-drop n [] = rw (take_of_length-le n [] (omega arith), drop_nil (0 - n)) refl
  reverse-drop n (x ∷ xs) = elim (Bool-cases (leb n (length xs))) [
    | inl e ↦
        let le : n ≤ length xs = ground arith in
        let k : suc (length xs) - n ≡ suc (length xs - n) = omega arith in
        rw (k, reverse-drop n xs, reverse-cons x xs)
          (sym (take-append_short n (reverse xs) (x ∷ []) (omega (arith, length-reverse xs))))
    | inr e ↦
        let gt : length xs < n = ground arith in
        let k : suc (length xs) - n ≡ 0 = omega arith in
        rw (k)
          (sym (take_of_length-le n (reverse (x ∷ xs)) (omega (arith, length-reverse (x ∷ xs)))))
  ]

  -- two lists with their last elements written out
  pub append_last : (xs ys : List A) (x y : A) → xs ++ x ∷ [] ≡ ys ++ y ∷ [] → (xs ≡ ys) × (x ≡ y)
  append_last xs ys x y h =
      let e : x ∷ reverse xs ≡ y ∷ reverse ys =
        rw (← reverse-append xs (x ∷ []), ← reverse-append ys (y ∷ [])) (ap reverse h) in
      let tails : reverse xs ≡ reverse ys = cc in
      let backs : reverse (reverse xs) ≡ reverse (reverse ys) = ap reverse tails in
      (simp (reverse-reverse) at backs, cc)

  pub length-filter-le : (p : A → Bool) (xs : List A) → length (filter p xs) ≤ length xs
  unfolding filter
  length-filter-le p [] = omega arith
  length-filter-le p (x ∷ xs) = ground (arith, length-filter-le p xs)

-- A predicate that holds of every element; it computes to a tuple.
abbrev pub All {ℓ κ} : {A : Type ℓ} → (A → Type κ) → List A → Type κ
All P [] = Unit
All P (x ∷ xs) = P x × All P xs

module _ {ℓ κ} {A : Type ℓ} (P : A → Type κ) where
  pub All-append : (xs ys : List A) → All P xs → All P ys → All P (xs ++ ys)
  All-append [] ys hx hy = hy
  All-append (x ∷ xs) ys hx hy = (hx.0, All-append xs ys hx.1 hy)

  pub All-take : (n : ℕ) (xs : List A) → All P xs → All P (take n xs)
  All-take zero xs h = tt
  All-take (suc n) [] h = tt
  All-take (suc n) (x ∷ xs) h = (h.0, All-take n xs h.1)

  -- what passes the filter has the property, if the test implies it
  pub All-filter_of_test :
      (p : A → Bool) → ((x : A) → p x ≡ true → P x) → (xs : List A) → All P (filter p xs)
  unfolding filter
  All-filter_of_test p h [] = tt
  All-filter_of_test p h (x ∷ xs) = elim (Bool-cases (p x)) [
    | inl e ↦ rw (e, filter) (h x e, All-filter_of_test p h xs)
    | inr e ↦ rw (e, filter) (All-filter_of_test p h xs)
  ]

  pub All-filter : (p : A → Bool) (xs : List A) → All P xs → All P (filter p xs)
  unfolding filter
  All-filter p [] h = tt
  All-filter p (x ∷ xs) h = elim (Bool-cases (p x)) [
    | inl e ↦ rw (e, filter) (h.0, All-filter p xs h.1)
    | inr e ↦ rw (e, filter) (All-filter p xs h.1)
  ]

  -- what passes the filter has the property and passed the test
  pub All-filter_both :
      (p : A → Bool) (xs : List A) → All P xs → All (λ x. P x × (p x ≡ true)) (filter p xs)
  unfolding filter
  All-filter_both p [] h = tt
  All-filter_both p (x ∷ xs) h = elim (Bool-cases (p x)) [
    | inl e ↦ rw (e, filter) ((h.0, e), All-filter_both p xs h.1)
    | inr e ↦ rw (e, filter) (All-filter_both p xs h.1)
  ]

  pub All-get_elem? : (xs : List A) (i : ℕ) {x : A} → All P xs → get_elem? xs i ≡ some x → P x
  All-get_elem? [] i h e = cc
  All-get_elem? (y ∷ xs) zero {x} h e = let i : y ≡ x = cc in subst P i h.0
  All-get_elem? (y ∷ xs) (suc i) h e = All-get_elem? xs i h.1 e

module _ {ℓ κ μ} {A : Type ℓ} {P : A → Type κ} {Q : A → Type μ} where
  pub All-mono : ((x : A) → P x → Q x) → (xs : List A) → All P xs → All Q xs
  All-mono f [] h = tt
  All-mono f (x ∷ xs) h = (f x h.0, All-mono f xs h.1)

module _ {ℓ κ μ} {A : Type ℓ} {B : Type κ} (Q : B → Type μ) (f : A → B) where
  pub All-map : (xs : List A) → All (λ x. Q (f x)) xs → All Q (map f xs)
  All-map [] h = tt
  All-map (x ∷ xs) h = (h.0, All-map xs h.1)

pub length-map {ℓ κ} :
    {A : Type ℓ} {B : Type κ} (f : A → B) (xs : List A) → length (map f xs) ≡ length xs
length-map f [] = refl
length-map f (x ∷ xs) = ap suc (length-map f xs)

pub some_inj {ℓ} : {A : Type ℓ} {a b : A} → some a ≡ some b → a ≡ b
some_inj e = cc

-- What holds of all elements holds of the one that is found.
-- Every element stands somewhere in the list.
pub All-at {ℓ} : {A : Type ℓ} (xs : List A) → All (λ x. (i : ℕ) × (get_elem? xs i ≡ some x)) xs
All-at [] = tt
All-at (x ∷ xs) = ((0, refl), All-mono (λ y (i, e). (suc i, e)) xs (All-at xs))

pub All-both {ℓ κ μ} :
    {A : Type ℓ} (P : A → Type κ) (Q : A → Type μ) (xs : List A)
    → All P xs
    → All Q xs
    → All (λ x. P x × Q x) xs
All-both P Q [] h k = tt
All-both P Q (x ∷ xs) h k = ((h.0, k.0), All-both P Q xs h.1 k.1)

pub All-find {ℓ κ} :
    {A : Type ℓ} (P : A → Type κ) (p : A → Bool) (l : List A) {found : A}
    → All P l
    → find p l ≡ some found
    → P found
unfolding find
All-find P p [] h e = absurd cc
All-find P p (x ∷ l) {found} h e = elim (Bool-cases (p x)) [
  | inl t ↦ let same : x ≡ found = some_inj (rw t at e) in subst P same h.0
  | inr f ↦ All-find P p l h.1 (rw f at e)
]
