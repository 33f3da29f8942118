-- ===== src/Parsers/Texts.antt =====
-- What every parsed document is.
use doc_search_ai.Text.{Text, strip, strip_idem}
use doc_search_ai.Common.{
  ◌<◌, ok, ◌≡◌, Option, raise, length, some, take, none, null, List, false, Bool-cases, find, ◌∷◌,
  inl, arith, All, inr, [], refl, reverse, Option-cases, All-find, Result, ◌⊎◌,
}
use doc_search_ai.Errors.{Exception, Raises, processing, other}
use doc_search_ai.Parsers.{
  ParsedDocument, build_parsed_document, parse_extracted, DocumentParser, Bytes, normalize_text,
  parse_document, find_parser, default_parsers, replace_crlf, supports, ReadFailure, key_error,
  bad_zip_file, parse_error, uncaught, parse_runs,
}

pub record IsParsed (d : ParsedDocument) : Type 0 where
  pub visible : 0 < d.character_count
  pub counted : d.character_count ≡ length d.text
  pub previewed : d.preview ≡ take 200 d.text
  pub stripped : strip d.text ≡ d.text

abbrev pub IsProcessing : Exception → Type 0
IsProcessing (processing p m) = Unit
IsProcessing _ = ⊥

-- What a parser gives for a file whose texts, as a DOCX file, are `read`: a document as above, or a
-- `DocumentProcessingError`, or an exception of the reader that the parser does not catch.
abbrev pub IsGood : Result ReadFailure (List Text) → Raises ParsedDocument → Type 0
IsGood read (ok d) = IsParsed d
IsGood read (raise e) =
    IsProcessing e ⊎ ((name : Text) × (e ≡ other name) × (read ≡ raise (uncaught name)))

null-length : (s : Text) → null s ≡ false → 0 < length s
null-length [] e = cc
null-length (c ∷ s) e = omega arith

build-IsGood :
    (read : Result ReadFailure (List Text)) (name raw : Text)
    → IsGood read (build_parsed_document name raw)
unfolding build_parsed_document normalize_text
build-IsGood read name raw = elim (Bool-cases (null (normalize_text raw))) [
  | inl e ↦ rw e (inl tt)
  | inr e ↦ rw e (record {
    visible = null-length (normalize_text raw) e;
    counted = refl;
    previewed = refl;
    stripped = strip_idem (replace_crlf raw);
  })
]

parse_extracted-IsGood :
    (read : Result ReadFailure (List Text)) (name message : Text) (extracted : Option Text)
    → IsGood read (parse_extracted name message extracted)
unfolding parse_extracted
parse_extracted-IsGood read name message none = inl tt
parse_extracted-IsGood read name message (some raw) = build-IsGood read name raw

parse_runs-IsGood : (read : Result ReadFailure (List Text)) → IsGood read (parse_runs read)
unfolding parse_runs
parse_runs-IsGood (ok l) = build-IsGood (ok l) _ _
parse_runs-IsGood (raise (uncaught name)) = inr (name, refl, refl)
parse_runs-IsGood (raise key_error) = inl tt
parse_runs-IsGood (raise bad_zip_file) = inl tt
parse_runs-IsGood (raise parse_error) = inl tt

module _ (runs : Bytes → Result ReadFailure (List Text)) where
  abbrev Good : DocumentParser → Type 0
  Good p = (bytes : Bytes) → IsGood (runs bytes) (p.parse bytes)

  registry-Good :
      (suffix lower : Text → Text) (parsers : List DocumentParser) (filename : Text) (bytes : Bytes)
      → All Good (reverse parsers)
      → IsGood (runs bytes) (parse_document suffix lower parsers filename bytes)
  unfolding parse_document find_parser
  registry-Good suffix lower parsers filename bytes good =
      let at = supports lower (lower (suffix filename)) in
      elim (Option-cases (find at (reverse parsers))) [
        | inl e ↦ rw (e, IsGood) (inl tt)
        | inr (p, e) ↦ rw (e, IsGood) (All-find Good at (reverse parsers) good e bytes)
      ]

module _ (suffix lower : Text → Text) (decode : Bytes → Option Text)
    (sub : Text → Text → Text → Text) (pages : Bytes → Option (List Text))
    (runs : Bytes → Result ReadFailure (List Text)) where
  -- Whatever the name and the bytes of a file, parsing it by the default parsers gives a text that
  -- is not empty, has no white space at its ends, is counted by `character_count` and begins with
  -- the preview, or it raises a document processing error, or, for a file that the readers of DOCX
  -- refuse with an exception other than KeyError, BadZipFile and ParseError, that exception.
  pub parse_document-IsGood :
      (filename : Text) (bytes : Bytes)
      → IsGood
          (runs bytes)
          (parse_document suffix lower (default_parsers decode sub pages runs) filename bytes)
  parse_document-IsGood filename bytes =
      registry-Good runs suffix lower (default_parsers decode sub pages runs) filename bytes (
        λ b. parse_runs-IsGood _,
        (
          λ b. parse_extracted-IsGood _ _ _ _,
          (λ b. parse_extracted-IsGood _ _ _ _, (λ b. parse_extracted-IsGood _ _ _ _, tt)),
        ),
      )
