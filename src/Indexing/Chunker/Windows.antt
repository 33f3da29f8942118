-- ===== src/Indexing/Chunker/Windows.antt =====
-- The windows of a text: there are enough rounds, each window is within bounds, and they cover it.
use doc_search_ai.Text.{Text}
use doc_search_ai.Indexing.Chunker.{
  CharacterChunker, make_chunker, rfind_space, find_chunk_end, windows, slice, next_start,
}
use doc_search_ai.Common.{
  ◌≡◌, refl, ◌<◌, ℤ, ℕ, ok, some, length, List, ◌∷◌, ◌≤◌, negsuc, Option-cases, ◌-◌, ◌+◌, pos,
  arith, min, inl, [], length-take, inr, suc, drop, Bool-cases, leb, zero, subst, lt→ltb, Bool, any,
  sym, leb→le, ◌&&◌, true, ltb,
}

-- What `__init__` checks.
pub record IsValid (c : CharacterChunker) : Type 0 where
  pub positive : 0 < c.max_characters
  pub smaller : c.overlap_characters < c.max_characters

pub make_chunker-IsValid : (m o : ℤ) (c : CharacterChunker) → make_chunker m o ≡ ok c → IsValid c
unfolding make_chunker
make_chunker-IsValid (negsuc m) o c h = cc
make_chunker-IsValid (pos m) (negsuc o) c h = ground arith
make_chunker-IsValid (pos m) (pos o) c h = ground arith

rfind_space-lt : (s : Text) {i : ℕ} → rfind_space s ≡ some i → i < length s
unfolding rfind_space
rfind_space-lt [] h = cc
rfind_space-lt (c ∷ s) {i} h = elim (Option-cases (rfind_space s)) [
  | inl e ↦ ground (arith, e)
  | inr (j, e) ↦ ground (arith, e, rfind_space-lt s e)
]

length-slice-le : (t : Text) (a b : ℕ) → length (slice t a b) ≤ b - a
length-slice-le t a b = omega (arith, length-take (b - a) (drop a t))

-- A chunk ends behind its start, at most `max_characters` further, and within the text.
pub find_chunk_end_bounds :
    (c : CharacterChunker) (t : Text) (start : ℕ)
    → 0 < c.max_characters
    → start < length t
    → (start < find_chunk_end c t start)
      × (find_chunk_end c t start ≤ start + c.max_characters)
      × (find_chunk_end c t start ≤ length t)
unfolding find_chunk_end
find_chunk_end_bounds c t start p h =
    let hard_end = min (start + c.max_characters) (length t) in
    elim (Option-cases (rfind_space (slice t start hard_end))) [
      | inl e ↦ ground (arith, e)
      | inr (i, e) ↦
          ground
            (arith, e, rfind_space-lt (slice t start hard_end) e, length-slice-le t start hard_end)
    ]

-- The windows of a text of `n` characters from `start` on: each begins behind the start of the one
-- before it, at its end or before, by at most the overlap; the last one ends at `n`.
abbrev pub Chain : CharacterChunker → ℕ → ℕ → List (ℕ × ℕ) → Type 0
Chain c n start [] = ⊥
Chain c n start ((a, b) ∷ []) = (a ≡ start) × (a < b) × (b ≤ a + c.max_characters) × (b ≡ n)
Chain c n start ((a, b) ∷ w ∷ ws) =
    (a ≡ start)
    × (a < b)
    × (b ≤ a + c.max_characters)
    × (b < n)
    × (a < w.0)
    × (w.0 ≤ b)
    × (b ≤ w.0 + c.overlap_characters)
    × Chain c n w.0 (w ∷ ws)

Chain-head :
    (c : CharacterChunker) (n start : ℕ) (w : ℕ × ℕ) (ws : List (ℕ × ℕ))
    → Chain c n start (w ∷ ws)
    → w.0 ≡ start
Chain-head c n start w [] h = h.0
Chain-head c n start w (x ∷ ws) h = h.0

Chain-cons :
    (c : CharacterChunker) (n a b a' : ℕ) (ws : List (ℕ × ℕ))
    → a < b
    → b ≤ a + c.max_characters
    → b < n
    → (a < a') × (a' ≤ b) × (b ≤ a' + c.overlap_characters)
    → Chain c n a' ws
    → Chain c n a ((a, b) ∷ ws)
Chain-cons c n a b a' [] p q r s h = absurd h
Chain-cons c n a b a' (w ∷ ws) p q r s h =
    let e : w.0 ≡ a' = Chain-head c n a' w ws h in
    (
      refl,
      p,
      q,
      r,
      omega arith,
      omega arith,
      omega arith,
      subst (λ x. Chain c n x (w ∷ ws)) (sym e) h,
    )

next_start_bounds :
    (c : CharacterChunker) (a b : ℕ)
    → a < b
    → (a < next_start c a b)
      × (next_start c a b ≤ b)
      × (b ≤ next_start c a b + c.overlap_characters)
next_start_bounds c a b h = omega arith

-- With as many rounds as there are characters left the loop ends, and its windows form a chain.
pub windows_total :
    (fuel : ℕ) (c : CharacterChunker) (t : Text) (start : ℕ)
    → 0 < c.max_characters
    → start < length t
    → length t ≤ start + fuel
    → (ws : List (ℕ × ℕ)) × (windows fuel c t start ≡ some ws) × Chain c (length t) start ws
unfolding windows
windows_total zero c t start v h k = absurd (omega arith)
windows_total (suc fuel) c t start v h k =
    let end = find_chunk_end c t start in
    let bounds = find_chunk_end_bounds c t start v h in
    elim (Bool-cases (leb (length t) end)) [
      | inl e ↦ (
        (start, end) ∷ [],
        rw (lt→ltb start (length t) h, e),
        (refl, bounds.0, bounds.1, omega (arith, leb→le (length t) end e, bounds.2)),
      )
      | inr e ↦
          let more : end < length t = ground arith in
          let next = next_start_bounds c start end bounds.0 in
          let (ws, run, chain) =
            windows_total fuel c t (next_start c start end) v (omega (arith, next, more))
              (omega (arith, next, k)) in
          (
            (start, end) ∷ ws,
            rw (lt→ltb start (length t) h, e, run),
            Chain-cons c (length t) start end _ ws bounds.0 bounds.1 more next chain,
          )
    ]

-- A position lies in a window.
abbrev pub within : ℕ → ℕ × ℕ → Bool
within i w = leb w.0 i && ltb i w.1

-- A chain from `start` to `n` leaves no position out.
pub Chain-covers :
    (c : CharacterChunker) (n start : ℕ) (ws : List (ℕ × ℕ)) (i : ℕ)
    → Chain c n start ws
    → start ≤ i
    → i < n
    → any (within i) ws ≡ true
unfolding any
Chain-covers c n start [] i h p q = absurd h
Chain-covers c n start ((a, b) ∷ []) i h p q = ground arith
Chain-covers c n start ((a, b) ∷ w ∷ ws) i h p q = elim (Bool-cases (ltb i b)) [
  | inl e ↦ ground (arith, h.0)
  | inr e ↦ ground (arith, h.0, Chain-covers c n w.0 (w ∷ ws) i h.7)
]
