-- ===== src/Text/Cut.antt =====
-- Stripping, splitting and joining.
use doc_search_ai.Common.{
  ℕ, ◌≡◌, refl, Bool, true, false, ◌&&◌, ◌||◌, List, [], ◌∷◌, ◌++◌, arith, leb, ◌==◌, null,
  if◌then◌else◌,
}
use doc_search_ai.Text.Compare.{Text}

-- `str.isspace` of one character: bidirectional type WS, B or S, or category Zs.
unfoldable pub is_space : ℕ → Bool
is_space c =
    (leb 9 c && leb c 13)
    || (leb 28 c && leb c 32)
    || c == 0x85
    || c == 0xa0
    || c == 0x1680
    || (leb 0x2000 c && leb c 0x200a)
    || c == 0x2028
    || c == 0x2029
    || c == 0x202f
    || c == 0x205f
    || c == 0x3000

unfoldable pub lstrip : Text → Text
lstrip [] = []
lstrip (c ∷ s) = let rest = lstrip s in if is_space c then rest else c ∷ s

unfoldable pub rstrip : Text → Text
rstrip [] = []
rstrip (c ∷ s) = let rest = rstrip s in if null rest && is_space c then [] else c ∷ rest

-- `s.strip()`
unfoldable pub strip : Text → Text
unfolding lstrip rstrip
strip s = rstrip (lstrip s)

-- A finished word goes out, an empty one does not.
abbrev pub flush : Text → List Text → List Text
flush [] words = words
flush (c ∷ w) words = (c ∷ w) ∷ words

-- The words of `s`, when `w` is the word that is being read.
unfoldable pub words_from : Text → Text → List Text
words_from w [] = flush w []
words_from w (c ∷ s) = elim (is_space c) [
  | true ↦ flush w (words_from [] s)
  | false ↦ words_from (w ++ c ∷ []) s
]

-- `s.split()`
unfoldable pub split_ws : Text → List Text
unfolding words_from
split_ws s = words_from [] s

abbrev pub cons_head : ℕ → List Text → List Text
cons_head c [] = (c ∷ []) ∷ []
cons_head c (w ∷ l) = (c ∷ w) ∷ l

-- `s.split(sep)` for a separator of one character.
unfoldable pub split_on : ℕ → Text → List Text
split_on sep [] = [] ∷ []
split_on sep (c ∷ s) = let rest = split_on sep s in if c == sep then [] ∷ rest else cons_head c rest

-- `sep.join(l)`
unfoldable pub join : Text → List Text → Text
join sep [] = []
join sep (s ∷ []) = s
join sep (s ∷ t ∷ l) = s ++ (sep ++ join sep (t ∷ l))

pub rstrip_idem : (s : Text) → rstrip (rstrip s) ≡ rstrip s
unfolding rstrip
rstrip_idem [] = refl
rstrip_idem (c ∷ s) = ground (arith, rstrip_idem s)

lstrip_idem : (s : Text) → lstrip (lstrip s) ≡ lstrip s
unfolding lstrip
lstrip_idem [] = refl
lstrip_idem (c ∷ s) = ground (arith, lstrip_idem s)

-- The two ends do not matter to each other.
lstrip-rstrip : (s : Text) → lstrip (rstrip s) ≡ rstrip (lstrip s)
unfolding lstrip rstrip
lstrip-rstrip [] = refl
lstrip-rstrip (c ∷ s) = ground (arith, lstrip-rstrip s)

pub strip_idem : (s : Text) → strip (strip s) ≡ strip s
unfolding strip
strip_idem s = rw (lstrip-rstrip (lstrip s), rstrip_idem, lstrip_idem) refl
