-- ===== src/Indexing/Chunker.antt =====
-- backend/app/indexing/chunker.py. The `while` loop recurs on fuel; `Windows` shows that the length
-- of the text is enough.
pub mod Windows
pub mod Chunks
use mathlib.Core.Option
use doc_search_ai.Errors.{Raises, value_error}
use doc_search_ai.Text.{Text, join, strip, split_ws}
use doc_search_ai.Common.{
  ℕ, ℤ, Option, none, take, min, max, List, some, ◌∷◌, ◌-◌, if◌then◌else◌, ◌+◌, negsuc, suc, raise,
  ◌==◌, drop, length, ltb, [], null, leb, pos, ok, zero,
}

pub record CharacterChunker : Type 0 where
  pub max_characters : ℕ
  pub overlap_characters : ℕ

-- `__init__`: its arguments are integers, of which the negative ones raise.
unfoldable pub make_chunker : ℤ → ℤ → Raises CharacterChunker
make_chunker (negsuc m) overlap = raise value_error
make_chunker (pos m) overlap = if m == 0 then raise value_error else elim overlap [
  | negsuc _ ↦ raise value_error
  | pos o ↦
      if leb m o
      then raise value_error
      else ok (record { max_characters = m; overlap_characters = o })
]

-- `window.rfind(" ")`: the last position of a space, if there is one.
unfoldable pub rfind_space : Text → Option ℕ
rfind_space [] = none
rfind_space (c ∷ s) = elim (rfind_space s) [
  | some i ↦ some (suc i)
  | none ↦ (if c == 32 then some 0 else none)
]

-- `text[start:end]`
abbrev pub slice : Text → ℕ → ℕ → Text
slice t start end = take (end - start) (drop start t)

-- `split_at <= 0` covers -1, no space, and a space at the front.
abbrev pub cut_at : Option ℕ → ℕ → ℕ → ℕ
cut_at none start hard_end = hard_end
cut_at (some i) start hard_end = if i == 0 then hard_end else start + i

unfoldable pub find_chunk_end : CharacterChunker → Text → ℕ → ℕ
unfolding rfind_space
find_chunk_end c t start =
    let hard_end = min (start + c.max_characters) (length t) in
    if hard_end == length t
    then hard_end
    else cut_at (rfind_space (slice t start hard_end)) start hard_end

-- The next value of `start`.
abbrev pub next_start : CharacterChunker → ℕ → ℕ → ℕ
next_start c start end = max (end - c.overlap_characters) (start + 1)

-- The pairs `(start, end)` that the loop goes through; `none` means that the fuel ran out.
unfoldable pub windows : ℕ → CharacterChunker → Text → ℕ → Option (List (ℕ × ℕ))
windows zero c t start = none
windows (suc fuel) c t start =
    let end = find_chunk_end c t start in
    let rest = windows fuel c t (next_start c start end) in
    if ltb start (length t)
    then (if leb (length t) end
        then some ((start, end) ∷ [])
        else Option.map (◌∷◌ (start, end)) rest)
    else some []

-- The chunk of a window is appended if it is not empty.
abbrev pub append_chunk : Text → List Text → List Text
append_chunk [] chunks = chunks
append_chunk (c ∷ s) chunks = (c ∷ s) ∷ chunks

unfoldable pub cut_chunks : Text → List (ℕ × ℕ) → List Text
cut_chunks t [] = []
cut_chunks t ((start, end) ∷ ws) = append_chunk (strip (slice t start end)) (cut_chunks t ws)

-- `" ".join(text.split())`
unfoldable pub normalize : Text → Text
normalize t = join (32 ∷ []) (split_ws t)

unfoldable pub chunk : CharacterChunker → Text → Option (List Text)
unfolding windows cut_chunks normalize
chunk c t =
    let normalized = normalize t in
    if null normalized
    then some []
    else Option.map (cut_chunks normalized) (windows (length normalized) c normalized 0)
