-- ===== src/Documents/Security/Levels.antt =====
-- Validation of requested levels: what it accepts, and what it returns.
use doc_search_ai.Common.{
  ◌≡◌, true, arith, ok, List, if◌then◌else◌, refl, map, ◌∷◌, ◌++◌, [], All, All-append, some,
  Option, ◌⊎◌, null, raise, false, none, inl, Bool-cases, ◌∙◌, inr, subst,
}
use doc_search_ai.Text.{
  Text, contains, text_eq_iff, contains-cons_elim, strip, contains-nil_elim, is_space,
  contains-append, Distinct, Distinct-append_one, text_eq_refl,
}
use doc_search_ai.Documents.Models.{
  supported_document_security_levels, general_security_level, internal_security_level,
  confidential_security_level, restricted_security_level,
}
use doc_search_ai.Documents.Security.{
  normalize_level, validate_document_security_level, validate_each,
  validate_document_security_levels, invalid_security_level,
}

abbrev pub IsSupported : Text → Type 0
IsSupported level = contains supported_document_security_levels level ≡ true

-- To prove something of every supported level, prove it of the four.
IsSupported_elim {κ} :
    (P : Text → Type κ)
    → P general_security_level
    → P internal_security_level
    → P confidential_security_level
    → P restricted_security_level
    → (level : Text) → IsSupported level
    → P level
IsSupported_elim P g i c r = contains-cons_elim P _ _ g (
    contains-cons_elim P _ _ i
      (contains-cons_elim P _ _ c (contains-cons_elim P _ _ r (contains-nil_elim P))))

-- A supported level is already in normal form.
pub normalize_of_IsSupported : (level : Text) → IsSupported level → normalize_level level ≡ level
unfolding normalize_level strip is_space
normalize_of_IsSupported = IsSupported_elim (λ l. normalize_level l ≡ l) refl refl refl refl

pub validate_of_IsSupported :
    (level : Text) → IsSupported level → validate_document_security_level level ≡ ok level
unfolding validate_document_security_level
validate_of_IsSupported level h = rw (normalize_of_IsSupported level h, h)

pub validate-IsSupported :
    (level : Text) {m : Text}
    → validate_document_security_level level ≡ ok m
    → IsSupported m × (m ≡ normalize_level level)
unfolding validate_document_security_level
validate-IsSupported level {m} e = ground arith

-- Duplicates are dropped, and nothing else: the result has the levels so far and the normal forms
-- of the requested ones.
validate_each-contains :
    (levels acc out : List Text) (x : Text)
    → validate_each levels acc ≡ ok out
    → contains out x ≡ (if contains acc x then true else contains (map normalize_level levels) x)
unfolding validate_each validate_document_security_level contains
validate_each-contains [] acc out x e = let i : acc ≡ out = cc in rw (← i) (ground arith)
validate_each-contains (l ∷ ls) acc out x e = ground (
  arith,
  validate_each-contains ls acc out x,
  validate_each-contains ls (acc ++ normalize_level l ∷ []) out x,
  contains-append acc (normalize_level l ∷ []) x,
  text_eq_iff (normalize_level l) x,
)

-- The result lists supported levels, each once.
abbrev pub IsValidated : List Text → Type 0
IsValidated levels = Distinct levels × All IsSupported levels

validate_each-IsValidated :
    (levels acc out : List Text)
    → validate_each levels acc ≡ ok out
    → IsValidated acc
    → IsValidated out
unfolding validate_each validate_document_security_level
validate_each-IsValidated [] acc out e h = let i : acc ≡ out = cc in rw (← i) h
validate_each-IsValidated (l ∷ ls) acc out e h = ground (
  arith,
  validate_each-IsValidated ls acc out,
  validate_each-IsValidated ls (acc ++ normalize_level l ∷ []) out,
  Distinct-append_one acc (normalize_level l),
  All-append IsSupported acc (normalize_level l ∷ []),
)

-- Validation succeeds exactly when the normal form of each requested level is supported.
validate_each_total :
    (levels acc : List Text)
    → All (λ l. IsSupported (normalize_level l)) levels
    → (out : List Text) × (validate_each levels acc ≡ ok out)
unfolding validate_each validate_document_security_level
validate_each_total [] acc h = (acc, refl)
validate_each_total (l ∷ ls) acc h = rw (h.0) (validate_each_total ls _ h.1)

validate_each_needs :
    (levels acc out : List Text)
    → validate_each levels acc ≡ ok out
    → All (λ l. IsSupported (normalize_level l)) levels
unfolding validate_each validate_document_security_level
validate_each_needs [] acc out e = tt
validate_each_needs (l ∷ ls) acc out e = ground (
  arith,
  validate_each_needs ls acc out,
  validate_each_needs ls (acc ++ normalize_level l ∷ []) out,
)

validate_each_cases :
    (levels acc : List Text)
    → ((out : List Text) × (validate_each levels acc ≡ ok out))
      ⊎ (validate_each levels acc ≡ raise invalid_security_level)
unfolding validate_each validate_document_security_level
validate_each_cases [] acc = inl (acc, refl)
validate_each_cases (l ∷ ls) acc =
    elim (Bool-cases (contains supported_document_security_levels (normalize_level l))) [
      | inl good ↦ rw good (validate_each_cases ls _)
      | inr bad ↦ inr (rw bad)
    ]

-- What a successful validation of `requested` returns.
pub record Validates (requested levels : List Text) : Type 0 where
  pub supported : All (λ x. IsSupported (normalize_level x)) requested
  pub distinct : Distinct levels
  pub members : (x : Text) → contains levels x ≡ contains (map normalize_level requested) x

-- A request that names levels is either accepted, and then each level, stripped and with an empty
-- one read as `internal`, is supported, and the result has exactly these normal forms, each once;
-- or it is refused with status 400, and then some level is not supported.
pub validate_levels_outcome :
    (l : Text) (ls : List Text)
    → ((levels : List Text) × (validate_document_security_levels (some (l ∷ ls)) ≡ ok (some levels))
        × Validates (l ∷ ls) levels)
      ⊎ ((validate_document_security_levels (some (l ∷ ls)) ≡ raise invalid_security_level)
          × (¬ All (λ x. IsSupported (normalize_level x)) (l ∷ ls)))
unfolding validate_document_security_levels
validate_levels_outcome l ls = elim (validate_each_cases (l ∷ ls) []) [
  | inl (out, e) ↦ inl (
    out,
    rw e,
    record {
      supported = validate_each_needs (l ∷ ls) [] out e;
      distinct = (validate_each-IsValidated (l ∷ ls) [] out e (tt, tt)).0;
      members = λ x. validate_each-contains (l ∷ ls) [] out x e ∙ unfold contains in refl;
    },
  )
  | inr e ↦ inr (rw e, λ h. absurd (cc (e, (validate_each_total (l ∷ ls) [] h).1)))
]

null_of_contains : (ls : List Text) (t : Text) → contains ls t ≡ true → null ls ≡ false
unfolding contains
null_of_contains [] t h = cc
null_of_contains (s ∷ ls) t h = refl

validate_each-first :
    (l : Text) (ls levels : List Text) → validate_each (l ∷ ls) [] ≡ ok levels → null levels ≡ false
unfolding contains
validate_each-first l ls levels e = null_of_contains levels (normalize_level l) (
    validate_each-contains (l ∷ ls) [] levels (normalize_level l) e
    ∙ simp (text_eq_refl (normalize_level l)))

-- What was validated is not empty and lists supported levels.
pub validated-IsSupported :
    (requested : Option (List Text)) (levels : List Text)
    → validate_document_security_levels requested ≡ ok (some levels)
    → All IsSupported levels × (null levels ≡ false)
unfolding validate_document_security_levels
validated-IsSupported none levels e = cc
validated-IsSupported (some []) levels e = cc
validated-IsSupported (some (l ∷ ls)) levels e = elim (validate_each_cases (l ∷ ls) []) [
  | inl (out, e') ↦
      let same : out ≡ levels = ground (arith, e, e') in
      subst (λ o. All IsSupported o × (null o ≡ false)) same
        ((validate_each-IsValidated (l ∷ ls) [] out e' (tt, tt)).1, validate_each-first l ls out e')
  | inr e' ↦ absurd (ground (arith, e, e'))
]
