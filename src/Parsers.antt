-- ===== src/Parsers.antt =====
-- backend/app/parsers: from the bytes of a file to its text. Parameters: `decode` is
-- `bytes.decode("utf-8")`, `sub pattern replacement` is `re.sub` (with `re.MULTILINE` where the
-- pattern starts with "^"), `pages` the texts of a PDF's pages by PyMuPDF, `runs` the texts of the
-- "w:t" elements of a DOCX file by zipfile and ElementTree. `none` stands for an exception of
-- `decode` or `pages`, all of which are caught; of those of `runs` only three are.
pub mod Texts
use doc_search_ai.Errors.{
  Raises, processing, other, empty_document, corrupt_document, unsupported_document_type,
}
use doc_search_ai.Common.{
  List, ℕ, Option, Result, ◌∷◌, Bool, find, if◌then◌else◌, raise, [], reverse, none, some, ◌==◌,
  null, map, ◌&&◌, ok, map_option, take, length, filter, not,
}
use doc_search_ai.Text.{Text, strip, contains, text, join}

pub record ParsedDocument : Type 0 where
  pub parser_name : Text
  pub text : Text
  pub preview : Text
  pub character_count : ℕ

abbrev pub Bytes : Type 0
Bytes = List ℕ

pub record DocumentParser : Type 0 where
  pub name : Text
  pub supported_extensions : List Text
  pub parse : Bytes → Raises ParsedDocument

abbrev pub preview_limit : ℕ
preview_limit = 200

-- `text.replace("\r\n", "\n")`
unfoldable pub replace_crlf : Text → Text
replace_crlf [] = []
replace_crlf (c ∷ []) = c ∷ []
replace_crlf (c ∷ d ∷ s) =
    let both = replace_crlf s in
    let one = replace_crlf (d ∷ s) in if c == 13 && d == 10 then 10 ∷ both else c ∷ one

unfoldable pub normalize_text : Text → Text
normalize_text raw = strip (replace_crlf raw)

unfoldable pub build_parsed_document : Text → Text → Raises ParsedDocument
build_parsed_document parser_name raw =
    let normalized = normalize_text raw in
    if null normalized
    then raise (processing empty_document (text "Document is empty after parsing."))
    else ok (record {
      parser_name = parser_name;
      text = normalized;
      preview = take preview_limit normalized;
      character_count = length normalized;
    })

abbrev pub corrupt : Text → Raises ParsedDocument
corrupt message = raise (processing corrupt_document message)

-- The text that a parser extracts, if it does.
unfoldable pub parse_extracted : Text → Text → Option Text → Raises ParsedDocument
parse_extracted name message none = corrupt message
parse_extracted name message (some extracted) = build_parsed_document name extracted

-- The five substitutions of `MarkdownParser.parse`.
unfoldable pub clean_markdown : (Text → Text → Text → Text) → Text → Text
clean_markdown sub raw =
    let no_ticks = sub (text "`+") [] raw in
    let no_headings = sub (text "^\\s{0,3}#{1,6}\\s*") [] no_ticks in
    let no_bullets = sub (text "^\\s*[-*+]\\s+") [] no_headings in
    let no_numbers = sub (text "^\\s*\\d+\\.\\s+") [] no_bullets in
    sub (text "\\[(.*?)\\]\\((.*?)\\)") (text "\\1") no_numbers

-- What zipfile and ElementTree raise, with the name of an exception that is not caught.
pub data ReadFailure : Type 0 where
  key_error bad_zip_file parse_error : ReadFailure
  uncaught : Text → ReadFailure

-- `DocxParser.parse` after the file has been read. An element without text is left out.
unfoldable pub parse_runs : Result ReadFailure (List Text) → Raises ParsedDocument
parse_runs (ok l) =
    build_parsed_document (text "docx") (join (text " ") (filter (λ t. not (null t)) l))
parse_runs (raise (uncaught name)) = raise (other name)
parse_runs (raise key_error) = corrupt (text "DOCX document is corrupt or unreadable.")
parse_runs (raise bad_zip_file) = corrupt (text "DOCX document is corrupt or unreadable.")
parse_runs (raise parse_error) = corrupt (text "DOCX document is corrupt or unreadable.")

module _ (decode : Bytes → Option Text) (sub : Text → Text → Text → Text)
    (pages : Bytes → Option (List Text)) (runs : Bytes → Result ReadFailure (List Text)) where
  abbrev pub text_parser : DocumentParser
  text_parser = record {
    name = text "text";
    supported_extensions = text ".txt" ∷ [];
    parse =
        λ bytes. parse_extracted (text "text") (text "Document is not valid UTF-8.") (decode bytes);
  }

  abbrev pub markdown_parser : DocumentParser
  markdown_parser = record {
    name = text "markdown";
    supported_extensions = text ".md" ∷ text ".markdown" ∷ [];
    parse = λ bytes.
        parse_extracted (text "markdown") (text "Document is not valid UTF-8.")
          (map_option (clean_markdown sub) (decode bytes));
  }

  abbrev pub pdf_parser : DocumentParser
  pdf_parser = record {
    name = text "pdf";
    supported_extensions = text ".pdf" ∷ [];
    parse = λ bytes.
        parse_extracted (text "pdf") (text "PDF document is corrupt or unreadable.")
          (map_option (join (text "\n")) (pages bytes));
  }

  abbrev pub docx_parser : DocumentParser
  docx_parser = record {
    name = text "docx";
    supported_extensions = text ".docx" ∷ [];
    parse = λ bytes. parse_runs (runs bytes);
  }

  abbrev pub default_parsers : List DocumentParser
  default_parsers = text_parser ∷ markdown_parser ∷ pdf_parser ∷ docx_parser ∷ []

-- The parser that the registry holds for an extension: the last one that was entered for it.
unfoldable pub supports : (Text → Text) → Text → DocumentParser → Bool
supports lower extension parser = contains (map lower parser.supported_extensions) extension

unfoldable pub find_parser : (Text → Text) → List DocumentParser → Text → Option DocumentParser
find_parser lower parsers extension = find (supports lower extension) (reverse parsers)

-- `ParserRegistry(parsers).parse`; `suffix` is `Path(filename).suffix`, `lower` is `str.lower`.
unfoldable pub parse_document :
    (Text → Text) → (Text → Text) → List DocumentParser → Text → Bytes → Raises ParsedDocument
parse_document suffix lower parsers filename bytes =
    elim (find_parser lower parsers (lower (suffix filename))) [
      | none ↦ raise (processing unsupported_document_type (text "Unsupported document type"))
      | some parser ↦ parser.parse bytes
    ]
