-- ===== src/Examples/Chunks.antt =====
-- A text of three words in chunks of at most six characters that overlap by one.
use doc_search_ai.Indexing.Chunker.Chunks.{IsChunk, chunk_keeps_visible, chunk_total}
use doc_search_ai.Common.{List, arith, ◌≡◌, some, ◌∷◌, any, All, [], true, refl}
use doc_search_ai.Text.{Text, is_space, text, has_char, join, split_ws, strip}
use doc_search_ai.Indexing.Chunker.Windows.{IsValid}
use doc_search_ai.Indexing.Chunker.{CharacterChunker, chunk, find_chunk_end}

abbrev chunker : CharacterChunker
chunker = record { max_characters = 6; overlap_characters = 1 }

chunker-IsValid : IsValid chunker
chunker-IsValid = record { positive = omega arith; smaller = omega arith }

abbrev words : Text
words = text "ab  cd efgh"

chunk_total_example :
    (chunks : List Text) × (chunk chunker words ≡ some chunks) × All (IsChunk chunker) chunks
chunk_total_example = chunk_total chunker words chunker-IsValid

abbrev pieces : List Text
pieces = text "ab cd" ∷ text "d efgh" ∷ []

words_cut : chunk chunker words ≡ some pieces
unfolding chunk join split_ws is_space find_chunk_end strip
words_cut = refl

chunk_keeps_visible_example : any (has_char 101) pieces ≡ true
unfolding is_space has_char
chunk_keeps_visible_example =
    chunk_keeps_visible chunker words pieces 101 chunker-IsValid words_cut refl refl
