-- ===== src/Text/Split.antt =====
-- Cutting a text at the first occurrence of a character, and taking a character off its end.
use doc_search_ai.Text.Compare.{Text}
use doc_search_ai.Text.Chars.{has_char}
use doc_search_ai.Common.{
  ℕ, zero, suc, ◌≡◌, refl, false, ◌&&◌, ◌==◌, Option, none, some, [], ◌∷◌, ◌++◌, null,
  if◌then◌else◌, arith, Bool-cases, inl, inr, ==_iff, ap, some_inj, Option-cases,
}

abbrev cut_head : ℕ → Option (Text × Text) → Option (Text × Text)
cut_head c none = none
cut_head c (some (before, after)) = some (c ∷ before, after)

-- `s.split(sep, 1)` for a separator of one character, if there is one in `s`.
unfoldable pub split_once : ℕ → Text → Option (Text × Text)
split_once sep [] = none
split_once sep (c ∷ s) =
    let rest = split_once sep s in if c == sep then some ([], s) else cut_head c rest

-- `s.rstrip(c)`
unfoldable pub rstrip_char : ℕ → Text → Text
rstrip_char ch [] = []
rstrip_char ch (c ∷ s) =
    let rest = rstrip_char ch s in if null rest && c == ch then [] else c ∷ rest

-- `c * n`
unfoldable pub repeat : ℕ → ℕ → Text
repeat c zero = []
repeat c (suc n) = c ∷ repeat c n

pub split_once-append :
    (sep : ℕ) (s t : Text) → has_char sep s ≡ false → split_once sep (s ++ sep ∷ t) ≡ some (s, t)
unfolding split_once has_char
split_once-append sep [] t h = ground arith
split_once-append sep (c ∷ s) t h = elim (Bool-cases (c == sep)) [
  | inl e ↦ absurd (cc (rw (e, has_char) at h))
  | inr e ↦ rw (e, split_once-append sep s t (rw (e, has_char) at h)) refl
]

-- What is cut is put together again by the separator.
pub split_once-joined :
    (sep : ℕ) (s : Text) (before after : Text)
    → split_once sep s ≡ some (before, after)
    → s ≡ before ++ sep ∷ after
unfolding split_once
split_once-joined sep [] before after h = absurd cc
split_once-joined sep (c ∷ s) before after h = elim (Bool-cases (c == sep)) [
  | inl e ↦
      let parts = some_inj (rw (e, split_once) at h) in
      rw ((==_iff c sep).0 e, ← (ap (λ p. p.0) parts), ← (ap (λ p. p.1) parts)) refl
  | inr e ↦ elim (Option-cases (split_once sep s)) [
    | inl k ↦ absurd (cc (rw (e, split_once, k) at h))
    | inr ((head, tail), k) ↦
        let parts = some_inj (rw (e, split_once, k) at h) in
        rw (← (ap (λ p. p.0) parts), ← (ap (λ p. p.1) parts))
          (ap (λ t. c ∷ t) (split_once-joined sep s head tail k))
  ]
]

rstrip_char-repeat : (ch n : ℕ) → rstrip_char ch (repeat ch n) ≡ []
unfolding rstrip_char repeat
rstrip_char-repeat ch zero = refl
rstrip_char-repeat ch (suc n) = ground (arith, rstrip_char-repeat ch n)

-- A text without the character keeps its length when the character is put behind it and taken off.
pub rstrip_char-padded :
    (ch n : ℕ) (s : Text) → has_char ch s ≡ false → rstrip_char ch (s ++ repeat ch n) ≡ s
unfolding rstrip_char has_char
rstrip_char-padded ch n [] h = rstrip_char-repeat ch n
rstrip_char-padded ch n (c ∷ s) h = ground (arith, rstrip_char-padded ch n s)
