-- ===== src/Documents/Security/Access.antt =====
-- Which levels a role gets: a member never more than `general` and `internal`, an admin whatever
-- is valid; and how the check of one level agrees with the check of a list.
use doc_search_ai.Errors.{security_permission}
use doc_search_ai.Documents.Security.Levels.{IsSupported, validated-IsSupported}
use doc_search_ai.Auth.Models.{admin_role}
use doc_search_ai.Documents.Security.{
  restrict_to_role, allowed_document_security_levels, filter_document_security_levels_for_role,
  validate_document_security_levels, ensure_document_security_level_allowed, admin_security_levels,
  validate_each, validate_document_security_level, normalize_level,
}
use doc_search_ai.Text.{Text, contains, text_eq_iff, text_eq}
use doc_search_ai.Common.{
  ◌≡◌, refl, Option, List, some, null, false, All, ok, none, true, filter, arith, Bool, not, ◌∷◌,
  Bool-cases, inl, [], inr, Result-cases, raise, ◌∙◌, ap, ◌↔◌, some_inj,
}

-- What the outcome of the filter may be for a role: no restriction for an admin only, and
-- otherwise a non-empty list of levels that are allowed.
abbrev pub Permits : Text → Option (List Text) → Type 0
Permits role none = role ≡ admin_role
Permits role (some levels) =
    (null levels ≡ false)
    × All (λ l. contains (allowed_document_security_levels role) l ≡ true) levels

-- If no element is left by the filter of those that fail a test, all pass it.
none_fail :
    (p : Text → Bool) (l : List Text)
    → null (filter (λ x. not (p x)) l) ≡ true
    → All (λ x. p x ≡ true) l
unfolding filter
none_fail p [] h = tt
none_fail p (x ∷ l) h = ground (arith, none_fail p l)

nothing_fails :
    (p : Text → Bool) (l : List Text)
    → All (λ x. p x ≡ true) l
    → null (filter (λ x. not (p x)) l) ≡ true
unfolding filter
nothing_fails p [] h = refl
nothing_fails p (x ∷ l) h = rw h.0 (nothing_fails p l h.1)

allowed-Permits : (role : Text) → Permits role (some (allowed_document_security_levels role))
unfolding allowed_document_security_levels contains text_eq
allowed-Permits role = elim (Bool-cases (text_eq role admin_role)) [
  | inl e ↦ rw (e, allowed_document_security_levels) (refl, (refl, (refl, (refl, (refl, tt)))))
  | inr e ↦ rw (e, allowed_document_security_levels) (refl, (refl, (refl, tt)))
]

something_fails :
    (p : Text → Bool) (l : List Text) (x : Text)
    → contains l x ≡ true
    → p x ≡ false
    → null (filter (λ y. not (p y)) l) ≡ false
unfolding filter contains
something_fails p [] x m h = cc
something_fails p (y ∷ l) x m h = elim (Bool-cases (text_eq y x)) [
  | inl e ↦ rw ((text_eq_iff y x).0 e, h) refl
  | inr e ↦ ground (arith, something_fails p l x)
]

restrict-Permits :
    (role : Text) (validated out : Option (List Text))
    → ((ls : List Text) → validated ≡ some ls → null ls ≡ false)
    → restrict_to_role role validated ≡ ok out
    → Permits role out
unfolding restrict_to_role
restrict-Permits role none none h e = ground (arith, text_eq_iff role admin_role)
restrict-Permits role none (some levels) h e =
    let same : allowed_document_security_levels role ≡ levels = ground arith in
    rw (← same) (allowed-Permits role)
restrict-Permits role (some ls) none h e = ground arith
restrict-Permits role (some ls) (some levels) h e =
    let same : ls ≡ levels = ground arith in
    let clear : null (filter (λ l. not (contains (allowed_document_security_levels role) l)) ls)
        ≡ true =
      ground arith in
    rw (← same) (h ls refl, none_fail (contains (allowed_document_security_levels role)) ls clear)

-- Whatever a request asks for, a filter that is returned stays within the role: no restriction is
-- returned to an admin only, and otherwise a non-empty list of levels allowed to the role.
pub filter_for_role-Permits :
    (role : Text) (requested out : Option (List Text))
    → filter_document_security_levels_for_role role requested ≡ ok out
    → Permits role out
unfolding filter_document_security_levels_for_role
filter_for_role-Permits role requested out e =
    elim (Result-cases (validate_document_security_levels requested)) [
      | inl (v, ev) ↦
          restrict-Permits role v out
            (λ ls el. (validated-IsSupported requested ls (ev ∙ ap ok el)).1) (rw ev at e)
      | inr (x, ev) ↦ absurd (cc (rw ev at e))
    ]

restrict_admin :
    (validated : Option (List Text))
    → ((ls : List Text) → validated ≡ some ls → All IsSupported ls)
    → restrict_to_role admin_role validated ≡ ok validated
unfolding restrict_to_role allowed_document_security_levels text_eq
restrict_admin none h = refl
restrict_admin (some ls) h =
    ground (arith, nothing_fails (contains admin_security_levels) ls (h ls refl))

-- An admin gets exactly what was validated.
pub filter_for_role_admin :
    (requested : Option (List Text))
    → filter_document_security_levels_for_role admin_role requested
      ≡ validate_document_security_levels requested
unfolding filter_document_security_levels_for_role
filter_for_role_admin requested =
    elim (Result-cases (validate_document_security_levels requested)) [
      | inl (none, ev) ↦ rw ev (restrict_admin none (λ ls h. cc))
      | inl (some ls, ev) ↦ rw ev (
          restrict_admin (some ls)
            λ l e. rw (← (some_inj e)) (validated-IsSupported requested ls ev).0)
      | inr (x, ev) ↦ rw ev refl
    ]

-- A member that names a level which is valid but not `general` or `internal` is refused, and
-- gets no filter.
pub filter_for_role_refuses :
    (role : Text) (requested : Option (List Text)) (levels : List Text) (level : Text)
    → validate_document_security_levels requested ≡ ok (some levels)
    → contains levels level ≡ true
    → contains (allowed_document_security_levels role) level ≡ false
    → filter_document_security_levels_for_role role requested ≡ raise security_permission
unfolding filter_document_security_levels_for_role restrict_to_role
filter_for_role_refuses role requested levels level ev m no_access = rw ev (
    ground (
      arith,
      something_fails (contains (allowed_document_security_levels role)) levels level m no_access,
    ))

-- The check of one stored level and the filter of a request agree: a level may be named in a
-- request by exactly the roles that `ensure_document_security_level_allowed` accepts for it.
pub ensure_iff_filter :
    (role level : Text)
    → (ensure_document_security_level_allowed role level ≡ ok tt) ↔ (
        filter_document_security_levels_for_role role (some (level ∷ []))
        ≡ ok (some (normalize_level level ∷ [])))
unfolding ensure_document_security_level_allowed filter_document_security_levels_for_role
    restrict_to_role validate_document_security_levels validate_each
    validate_document_security_level contains filter
ensure_iff_filter role level = (λ h. ground arith, λ h. ground arith)
