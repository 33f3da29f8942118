-- ===== src/Text/Compare.antt =====
-- Texts as lists of code points, literals, and equality.
use Prim.Native.Char.{code}
use doc_search_ai.Common.{
  ℕ, String, ◌≡◌, refl, ◌↔◌, Bool, true, false, List, [], ◌∷◌, arith, ◌==◌, if◌then◌else◌, All,
  Bool-cases, inl, inr, ◌++◌,
}

abbrev pub Text : Type 0
Text = List ℕ

-- A literal of the source.
abbrev pub text : String → Text
text String.[] = []
text (String.◌∷◌ c s) = code c ∷ text s

unfoldable pub text_eq : Text → Text → Bool
text_eq [] [] = true
text_eq [] (d ∷ t) = false
text_eq (c ∷ s) [] = false
text_eq (c ∷ s) (d ∷ t) = if c == d then text_eq s t else false

text_eq→eq : (s t : Text) → text_eq s t ≡ true → s ≡ t
unfolding text_eq
text_eq→eq [] [] h = refl
text_eq→eq [] (d ∷ t) h = cc
text_eq→eq (c ∷ s) [] h = cc
text_eq→eq (c ∷ s) (d ∷ t) h = ground (arith, text_eq→eq s t)

pub text_eq_refl : (s : Text) → text_eq s s ≡ true
unfolding text_eq
text_eq_refl [] = refl
text_eq_refl (c ∷ s) = ground (arith, text_eq_refl s)

pub text_eq_iff : (s t : Text) → (text_eq s t ≡ true) ↔ (s ≡ t)
text_eq_iff s t =
    (text_eq→eq s t, λ e. mathlib.Core.Path.subst (λ u. text_eq s u ≡ true) e (text_eq_refl s))

-- `t in l`
unfoldable pub contains : List Text → Text → Bool
contains [] t = false
contains (s ∷ l) t = let rest = contains l t in if text_eq s t then true else rest

-- No element twice.
abbrev pub Distinct : List Text → Type 0
Distinct [] = Unit
Distinct (s ∷ l) = (contains l s ≡ false) × Distinct l

pub contains-append :
    (l m : List Text) (t : Text)
    → contains (l ++ m) t ≡ (if contains l t then true else contains m t)
unfolding contains
contains-append [] m t = refl
contains-append (s ∷ l) m t = ground (arith, contains-append l m t)

pub Distinct-append_one :
    (l : List Text) (t : Text) → Distinct l → contains l t ≡ false → Distinct (l ++ t ∷ [])
unfolding contains
Distinct-append_one [] t d h = ground arith
Distinct-append_one (s ∷ l) t d h = ground (
  arith,
  Distinct-append_one l t d.1,
  contains-append l (t ∷ []) s,
  text_eq_iff s t,
  text_eq_iff t s,
)

pub All-contains :
    (l m : List Text)
    → ((t : Text) → contains l t ≡ true → contains m t ≡ true)
    → All (λ t. contains m t ≡ true) l
unfolding contains
All-contains [] m h = tt
All-contains (s ∷ l) m h =
    (h s (rw (text_eq_refl s, contains)), All-contains l m λ t c. h t (ground arith))

-- Membership in a literal list, one element at a time.
pub contains-cons_elim {κ} :
    (P : Text → Type κ) (s : Text) (l : List Text)
    → P s
    → ((t : Text) → contains l t ≡ true → P t)
    → (t : Text) → contains (s ∷ l) t ≡ true
    → P t
unfolding contains
contains-cons_elim P s l here there t h = elim (Bool-cases (text_eq s t)) [
  | inl e ↦ mathlib.Core.Path.subst P ((text_eq_iff s t).0 e) here
  | inr e ↦ there t (rw e at h)
]

pub contains-nil_elim {κ} : (P : Text → Type κ) (t : Text) → contains [] t ≡ true → P t
unfolding contains
contains-nil_elim P t h = cc

pub All_at {κ} :
    (P : Text → Type κ) (l : List Text) (t : Text) → All P l → contains l t ≡ true → P t
unfolding contains
All_at P [] t h m = cc
All_at P (s ∷ l) t h m = elim (Bool-cases (text_eq s t)) [
  | inl e ↦ mathlib.Core.Path.subst P ((text_eq_iff s t).0 e) h.0
  | inr e ↦ All_at P l t h.1 (rw e at m)
]
