-- ===== src/Text/Chars.antt =====
-- Which characters a text has, and that stripping and re-joining words lose no visible one.
use doc_search_ai.Text.Compare.{Text}
use doc_search_ai.Text.Cut.{is_space, lstrip, rstrip, strip, flush, words_from, split_ws, join}
use doc_search_ai.Common.{
  ◌≡◌, refl, ℕ, Bool, ◌++◌, get_elem?, true, null, false, ◌∷◌, if◌then◌else◌, some, ◌<◌, ◌==◌, ◌∙◌,
  any, arith, length, Bool-cases, List, [], suc, inl, ap, inr, zero, ==_iff,
}

unfoldable pub has_char : ℕ → Text → Bool
has_char ch [] = false
has_char ch (c ∷ s) = let rest = has_char ch s in if c == ch then true else rest

module _ (ch : ℕ) where
  pub has_char-append :
      (s t : Text) → has_char ch (s ++ t) ≡ (if has_char ch s then true else has_char ch t)
  unfolding has_char
  has_char-append [] t = refl
  has_char-append (c ∷ s) t = ground (arith, has_char-append s t)

  pub has_char-get_elem? : (s : Text) (i : ℕ) → get_elem? s i ≡ some ch → has_char ch s ≡ true
  unfolding has_char
  has_char-get_elem? [] i h = cc
  has_char-get_elem? (c ∷ s) zero h = ground arith
  has_char-get_elem? (c ∷ s) (suc i) h = ground (arith, has_char-get_elem? s i h)

  pub get_elem?-has_char :
      (s : Text) → has_char ch s ≡ true → (i : ℕ) × (i < length s) × (get_elem? s i ≡ some ch)
  unfolding has_char
  get_elem?-has_char [] h = cc
  get_elem?-has_char (c ∷ s) h = elim (Bool-cases (c == ch)) [
    | inl e ↦ (0, omega arith, ap some ((==_iff c ch).0 e))
    | inr e ↦ let (i, p, q) = get_elem?-has_char s (rw e at h) in (suc i, omega arith, q)
  ]

  pub has_char-null : (s : Text) → null s ≡ true → has_char ch s ≡ false
  unfolding has_char
  has_char-null [] h = refl
  has_char-null (c ∷ s) h = cc

  module _ (visible : is_space ch ≡ false) where
    space_ne : (c : ℕ) → is_space c ≡ true → (c == ch) ≡ false
    space_ne c h = elim (Bool-cases (c == ch)) [
      | inl e ↦ absurd (cc (visible, h, ap is_space ((==_iff c ch).0 e)))
      | inr e ↦ e
    ]

    has_char-lstrip : (s : Text) → has_char ch (lstrip s) ≡ has_char ch s
    unfolding has_char lstrip
    has_char-lstrip [] = refl
    has_char-lstrip (c ∷ s) = ground (arith, has_char-lstrip s, space_ne c)

    has_char-rstrip : (s : Text) → has_char ch (rstrip s) ≡ has_char ch s
    unfolding has_char rstrip
    has_char-rstrip [] = refl
    has_char-rstrip (c ∷ s) =
        ground (arith, has_char-rstrip s, space_ne c, has_char-null (rstrip s))

    pub has_char-strip : (s : Text) → has_char ch (strip s) ≡ has_char ch s
    unfolding strip
    has_char-strip s = has_char-rstrip (lstrip s) ∙ has_char-lstrip s

    has_char-flush :
        (w : Text) (l : List Text)
        → any (has_char ch) (flush w l) ≡ (if has_char ch w then true else any (has_char ch) l)
    unfolding any has_char
    has_char-flush [] l = refl
    has_char-flush (c ∷ w) l = refl

    has_char-cons :
        (d : ℕ) (t : Text) → has_char ch (d ∷ t) ≡ (if d == ch then true else has_char ch t)
    unfolding has_char
    has_char-cons d t = refl

    has_char-nil : has_char ch [] ≡ false
    unfolding has_char
    has_char-nil = refl

    any-nil : any (has_char ch) [] ≡ false
    unfolding any
    any-nil = refl

    has_char-words_from :
        (w s : Text)
        → any (has_char ch) (words_from w s) ≡ (if has_char ch w then true else has_char ch s)
    unfolding words_from
    has_char-words_from w [] = has_char-flush w [] ∙ rw (any-nil, has_char-nil)
    has_char-words_from w (c ∷ s) = elim (Bool-cases (is_space c)) [
      | inl e ↦
          rw (e, words_from)
            (has_char-flush w (words_from [] s)
              ∙ ground
                  (arith, has_char-words_from [] s, has_char-nil, space_ne c e, has_char-cons c s))
      | inr e ↦
          rw (e, words_from)
            (has_char-words_from (w ++ c ∷ []) s
              ∙ ground (
                arith,
                has_char-append w (c ∷ []),
                has_char-cons c s,
                has_char-cons c [],
                has_char-nil,
              ))
    ]

    has_char-join : (l : List Text) → has_char ch (join (32 ∷ []) l) ≡ any (has_char ch) l
    unfolding join any is_space
    has_char-join [] = has_char-nil
    has_char-join (s ∷ []) = ground arith
    has_char-join (s ∷ t ∷ l) = ground (
      arith,
      has_char-append s ((32 ∷ []) ++ join (32 ∷ []) (t ∷ l)),
      has_char-cons 32 (join (32 ∷ []) (t ∷ l)),
      space_ne 32 refl,
      has_char-join (t ∷ l),
    )

    -- `" ".join(s.split())` has the visible characters of `s`.
    pub has_char-rejoin : (s : Text) → has_char ch (join (32 ∷ []) (split_ws s)) ≡ has_char ch s
    unfolding split_ws
    has_char-rejoin s =
        has_char-join (words_from [] s) ∙ has_char-words_from [] s ∙ ground (arith, has_char-nil)
