-- ===== src/Chat/Citations.antt =====
-- backend/app/chat/service.py: the citation numbers of an answer. `digit` is the decimal value of a
-- character that `\d` matches; the scan below is `re.finditer(r"\[(\d+)\]", answer)`.
pub mod Bounds
use doc_search_ai.Text.{Text}
use doc_search_ai.Errors.{Raises, value_error}
use doc_search_ai.Common.{
  ℕ, List, Option, ◌∷◌, Bool, ◌*◌, if◌then◌else◌, any, ok, ◌==◌, ◌+◌, ltb, [], ◌>>=◌, length, ◌||◌,
  none, true, some, raise, ◌++◌, ◌&&◌, not, null, false,
}

abbrev pub left_bracket : ℕ
left_bracket = 0x5b

abbrev pub right_bracket : ℕ
right_bracket = 0x5d

-- The digits of each match; `run` holds the digits after the last "[", if nothing else came since.
unfoldable pub find_matches : (ℕ → Option ℕ) → Option (List ℕ) → Text → List (List ℕ)
find_matches digit run [] = []
find_matches digit run (c ∷ s) = elim (c == left_bracket) [
  | true ↦ find_matches digit (some []) s
  | false ↦ elim run [
    | none ↦ find_matches digit none s
    | some digits ↦ elim (digit c) [
      | some d ↦ find_matches digit (some (digits ++ d ∷ [])) s
      | none ↦ elim (c == right_bracket && not (null digits)) [
        | true ↦ digits ∷ find_matches digit none s
        | false ↦ find_matches digit none s
      ]
    ]
  ]
]

abbrev pub int_digits_limit : ℕ
int_digits_limit = 4300

unfoldable pub value_of : ℕ → List ℕ → ℕ
value_of n [] = n
value_of n (d ∷ ds) = value_of (n * 10 + d) ds

-- `int(group)`: Python refuses to convert more than 4300 digits.
unfoldable pub to_int : List ℕ → Raises ℕ
to_int digits =
    if ltb int_digits_limit (length digits) then raise value_error else ok (value_of 0 digits)

abbrev pub is_cited : List ℕ → ℕ → Bool
is_cited ids n = any (λ m. n == m) ids

-- The loop of `_extract_citation_ids`; `seen` always has the elements of `citation_ids`.
unfoldable pub collect_ids : ℕ → List ℕ → List (List ℕ) → Raises (List ℕ)
collect_ids max_id citation_ids [] = ok citation_ids
collect_ids max_id citation_ids (m ∷ ms) = do
  citation_id ← to_int m
  collect_ids max_id
      (if ltb citation_id 1 || (ltb max_id citation_id || is_cited citation_ids citation_id)
        then citation_ids
        else citation_ids ++ citation_id ∷ [])
      ms

unfoldable pub extract_citation_ids : (ℕ → Option ℕ) → Text → ℕ → Raises (List ℕ)
extract_citation_ids digit answer max_id = collect_ids max_id [] (find_matches digit none answer)
