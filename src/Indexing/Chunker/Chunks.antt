-- ===== src/Indexing/Chunker/Chunks.antt =====
-- The chunks of a text: there always is a result, each chunk is within the limit, and no visible
-- character of the text is lost.
use doc_search_ai.Indexing.Chunker.Windows.{IsValid, Chain, within, windows_total, Chain-covers}
use doc_search_ai.Indexing.Chunker.{
  CharacterChunker, cut_chunks, chunk, append_chunk, slice, normalize, windows,
}
use doc_search_ai.Text.{
  lstrip, rstrip, strip, Text, has_char, is_space, has_char-get_elem?, has_char-rejoin,
  has_char-strip, get_elem?-has_char, has_char-null,
}
use doc_search_ai.Common.{
  ◌≡◌, refl, ℕ, any, length, ◌<◌, List, get_elem?, ◌≤◌, arith, All, take, drop, some, null, ◌∷◌,
  ◌+◌, if◌then◌else◌, false, Bool-cases, suc, length-take, ap, true, inl, [], zero, ◌-◌, ◌∙◌, inr,
  subst,
}

length-lstrip-le : (s : Text) → length (lstrip s) ≤ length s
unfolding lstrip
length-lstrip-le [] = omega arith
length-lstrip-le (c ∷ s) = ground (arith, length-lstrip-le s)

length-rstrip-le : (s : Text) → length (rstrip s) ≤ length s
unfolding rstrip
length-rstrip-le [] = omega arith
length-rstrip-le (c ∷ s) = ground (arith, length-rstrip-le s)

length-strip-le : (s : Text) → length (strip s) ≤ length s
unfolding strip
length-strip-le s = omega (arith, length-rstrip-le (lstrip s), length-lstrip-le s)

abbrev pub IsChunk : CharacterChunker → Text → Type 0
IsChunk c s = (0 < length s) × (length s ≤ c.max_characters)

append_chunk-All :
    (c : CharacterChunker) (s : Text) (l : List Text)
    → length s ≤ c.max_characters
    → All (IsChunk c) l
    → All (IsChunk c) (append_chunk s l)
append_chunk-All c [] l h hl = hl
append_chunk-All c (x ∷ s) l h hl = ((omega arith, h), hl)

cut_chunks-All :
    (c : CharacterChunker) (t : Text) (n start : ℕ) (ws : List (ℕ × ℕ))
    → Chain c n start ws
    → All (IsChunk c) (cut_chunks t ws)
unfolding cut_chunks
cut_chunks-All c t n start [] h = absurd h
cut_chunks-All c t n start ((a, b) ∷ []) h =
    append_chunk-All c (strip (slice t a b)) []
      (omega (arith, length-strip-le (slice t a b), length-take (b - a) (drop a t), h.2)) tt
cut_chunks-All c t n start ((a, b) ∷ w ∷ ws) h =
    append_chunk-All c (strip (slice t a b)) (cut_chunks t (w ∷ ws))
      (omega (arith, length-strip-le (slice t a b), length-take (b - a) (drop a t), h.2))
      (cut_chunks-All c t n w.0 (w ∷ ws) h.7)

get_elem?-take : (n i : ℕ) (s : Text) → i < n → get_elem? (take n s) i ≡ get_elem? s i
get_elem?-take zero i s h = absurd (omega arith)
get_elem?-take (suc n) i [] h = refl
get_elem?-take (suc n) zero (c ∷ s) h = refl
get_elem?-take (suc n) (suc i) (c ∷ s) h = get_elem?-take n i s (omega arith)

get_elem?-drop : (a i : ℕ) (s : Text) → get_elem? (drop a s) i ≡ get_elem? s (a + i)
get_elem?-drop zero i s = ap (get_elem? s) (omega arith)
get_elem?-drop (suc a) i [] = refl
get_elem?-drop (suc a) i (c ∷ s) =
    let e : suc a + i ≡ suc (a + i) = omega arith in rw e (get_elem?-drop a i s)

has_char-slice :
    (ch a b i : ℕ) (t : Text)
    → a ≤ i
    → i < b
    → get_elem? t i ≡ some ch
    → has_char ch (slice t a b) ≡ true
has_char-slice ch a b i t p q h = has_char-get_elem? ch (slice t a b) (i - a) (
    get_elem?-take (b - a) (i - a) (drop a t) (omega arith)
    ∙ get_elem?-drop a (i - a) t
    ∙ ap (get_elem? t) (omega arith)
    ∙ h)

has_char-append_chunk :
    (ch : ℕ) (s : Text) (l : List Text)
    → any (has_char ch) (append_chunk s l) ≡ (if has_char ch s then true else any (has_char ch) l)
unfolding any has_char
has_char-append_chunk ch [] l = refl
has_char-append_chunk ch (c ∷ s) l = refl

has_char-cut_chunks :
    (ch i : ℕ) (t : Text) (ws : List (ℕ × ℕ))
    → is_space ch ≡ false
    → get_elem? t i ≡ some ch
    → any (within i) ws ≡ true
    → any (has_char ch) (cut_chunks t ws) ≡ true
unfolding cut_chunks any
has_char-cut_chunks ch i t [] v h k = cc
has_char-cut_chunks ch i t ((a, b) ∷ ws) v h k =
    has_char-append_chunk ch (strip (slice t a b)) (cut_chunks t ws)
    ∙ ground (
      arith,
      has_char-strip ch v (slice t a b),
      has_char-slice ch a b i t,
      has_char-cut_chunks ch i t ws v h,
    )

-- The windows that a text which is not blank is cut by.
normalized_windows :
    (c : CharacterChunker) (t : Text)
    → 0 < c.max_characters
    → null (normalize t) ≡ false
    → (ws : List (ℕ × ℕ)) × (windows (length (normalize t)) c (normalize t) 0 ≡ some ws)
      × Chain c (length (normalize t)) 0 ws
normalized_windows c t v h =
    windows_total (length (normalize t)) c (normalize t) 0 v (positive (normalize t) h)
      (omega arith)
  where
    positive : (s : Text) → null s ≡ false → 0 < length s
    positive [] e = cc
    positive (x ∷ s) e = omega arith

-- Every text is cut: the loop ends, and each chunk is not empty and within the limit.
pub chunk_total :
    (c : CharacterChunker) (t : Text)
    → IsValid c
    → (chunks : List Text) × (chunk c t ≡ some chunks) × All (IsChunk c) chunks
unfolding chunk
chunk_total c t v = elim (Bool-cases (null (normalize t))) [
  | inl e ↦ ([], rw e, tt)
  | inr e ↦
      let (ws, run, chain) = normalized_windows c t v.positive e in
      (
        cut_chunks (normalize t) ws,
        rw (e, run),
        cut_chunks-All c (normalize t) (length (normalize t)) 0 ws chain,
      )
]

-- Every character of the text that is not white space is in a chunk.
pub chunk_keeps_visible :
    (c : CharacterChunker) (t : Text) (chunks : List Text) (ch : ℕ)
    → IsValid c
    → chunk c t ≡ some chunks
    → is_space ch ≡ false
    → has_char ch t ≡ true
    → any (has_char ch) chunks ≡ true
unfolding chunk
chunk_keeps_visible c t chunks ch v run visible h =
    let kept : has_char ch (normalize t) ≡ true =
      unfold normalize in (has_char-rejoin ch visible t ∙ h) in
    let (i, bound, at) = get_elem?-has_char ch (normalize t) kept in
    elim (Bool-cases (null (normalize t))) [
      | inl e ↦ absurd (cc (kept, has_char-null ch (normalize t) e))
      | inr e ↦
          let (ws, windows_run, chain) = normalized_windows c t v.positive e in
          let same : cut_chunks (normalize t) ws ≡ chunks = ground (arith, run, e, windows_run) in
          subst (λ l. any (has_char ch) l ≡ true) same
            (has_char-cut_chunks ch i (normalize t) ws visible at
              (Chain-covers c (length (normalize t)) 0 ws i chain (omega arith) bound))
    ]
