-- ===== src/Auth/Router/Contexts.antt =====
-- Whom a request's context belongs to.
use doc_search_ai.Auth.Tokens.RoundTrip.{not-false}
use doc_search_ai.Auth.Router.{
  Request, unauthorized, context_from_api_key, context_from_user, partition_space, context_of_found,
  context_by_key, context_by_token, require_workspace_context, require_admin_workspace_context,
  given,
}
use doc_search_ai.Auth.Service.{AuthSettings}
use doc_search_ai.Auth.Tokens.{Crypto, validate_access_token, compare_digest, ascii}
use doc_search_ai.Auth.Keys.{validate_api_key, parse_api_keys, find_api_key}
use doc_search_ai.Auth.Keys.Roles.{HasRole, validate_api_key-exact}
use doc_search_ai.Auth.Models.{ApiKeyRecord, UserRecord, WorkspaceContext, admin_role}
use doc_search_ai.Errors.{other, translate, translate-ok}
use doc_search_ai.Text.{Text, text, text_eq, text_eq_iff, split_once, split_once-joined}
use doc_search_ai.Common.{
  ◌≡◌, refl, ℕ, Option, none, some, [], ◌∷◌, List, ◌⊎◌, inl, inr, ok, raise, bind-eq-ok,
  ok-injective, false, null, not, ◌||◌, Bool-cases, sym, Option-cases, raise_if, ap, ◌∙◌,
  raise_if-false, get_elem?, ◌++◌, Bool, true,
}

given-eq : (o : Option Text) {t : Text} → given o ≡ some t → o ≡ some t
given-eq none h = absurd cc
given-eq (some []) h = absurd cc
given-eq (some (c ∷ s)) h = h

both_false : (a b : Bool) → (a || b) ≡ false → (a ≡ false) × (b ≡ false)
both_false true b h = absurd cc
both_false false b h = (refl, h)

module _ (crypto : Crypto) (settings : AuthSettings) (lower : Text → Text) (now : ℕ) where
  -- The context belongs to a record of the configured keys with exactly the key that was sent; its
  -- role is supported.
  pub record ByKey (request : Request) (context : WorkspaceContext) : Type 0 where
    pub key : Text
    pub sent : request.api_key ≡ some key
    pub owner : ApiKeyRecord
    pub configured : List ApiKeyRecord
    pub parsed : parse_api_keys settings.api_keys ≡ ok configured
    pub index : ℕ
    pub is_configured : get_elem? configured index ≡ some owner
    pub exact : owner.api_key ≡ key
    pub role_known : HasRole owner.role
    pub made : context ≡ record {
      request_id = request.request_id;
      workspace_id = owner.workspace_id;
      workspace_name = owner.workspace_name;
      role = owner.role;
      employee_id = none;
      display_name = none;
    }

  -- The context belongs to the user that a valid token carries, which was sent after the word
  -- "bearer" in either case.
  pub record ByToken (request : Request) (context : WorkspaceContext) : Type 0 where
    pub scheme : Text
    pub token : Text
    pub sent : request.authorization ≡ some (scheme ++ 32 ∷ token)
    pub is_bearer : lower scheme ≡ text "bearer"
    pub owner : UserRecord
    pub valid : validate_access_token crypto settings.auth_token_secret now token ≡ ok owner
    pub made : context ≡ record {
      request_id = request.request_id;
      workspace_id = owner.workspace_id;
      workspace_name = owner.workspace_name;
      role = owner.role;
      employee_id = some owner.employee_id;
      display_name = owner.display_name;
    }

  by_key :
      (request : Request) (key : Text) (context : WorkspaceContext)
      → request.api_key ≡ some key
      → context_by_key crypto settings lower now request.request_id key ≡ ok context
      → ByKey request context
  unfolding context_by_key context_of_found context_from_api_key
  by_key request key context sent h =
      let (found, run, k) = bind-eq-ok (validate_api_key settings.api_keys key) _ h in
      of_found found run k
    where
      of_found :
          (found : Option ApiKeyRecord)
          → validate_api_key settings.api_keys key ≡ ok found
          → context_of_found request.request_id found ≡ ok context
          → ByKey request context
      of_found none run k = absurd cc
      of_found (some r) run k =
          let (records, parsed, ((i, at), known), exact) =
            validate_api_key-exact settings.api_keys key r run in
          record {
            key = key;
            sent = sent;
            owner = r;
            configured = records;
            parsed = parsed;
            index = i;
            is_configured = at;
            exact = exact;
            role_known = known;
            made = sym (ok-injective k);
          }

  -- A text whose second part is not empty has a space between the two.
  partition_space-joined :
      (s : Text)
      → null (partition_space s).1 ≡ false
      → s ≡ (partition_space s).0 ++ 32 ∷ (partition_space s).1
  unfolding partition_space
  partition_space-joined s h = elim (Option-cases (split_once 32 s)) [
    | inl e ↦ absurd (cc (rw (partition_space, e) at h))
    | inr ((before, after), e) ↦ rw (partition_space, e) (split_once-joined 32 s before after e)
  ]

  by_token :
      (request : Request) (authorization : Text) (context : WorkspaceContext)
      → request.authorization ≡ some authorization
      → context_by_token crypto settings lower now request.request_id authorization ≡ ok context
      → ByToken request context
  unfolding context_by_token context_from_user
  by_token request authorization context sent h =
      let parts = partition_space authorization in
      elim (Bool-cases (not (text_eq (lower parts.0) (text "bearer")) || null parts.1)) [
        | inl e ↦ absurd (cc (rw (e, context_by_token) at h))
        | inr e ↦
            let (r, run, k) =
              bind-eq-ok
                (translate (λ e. unauthorized (text "AUTH_INVALID_TOKEN"))
                  (validate_access_token crypto settings.auth_token_secret now parts.1))
                _ (rw (e, context_by_token) at h) in
            let (bearer, visible) = both_false _ _ e in
            record {
              scheme = parts.0;
              token = parts.1;
              sent = sent ∙ ap some (partition_space-joined authorization visible);
              is_bearer = (text_eq_iff (lower parts.0) (text "bearer")).0 (not-false _ bearer);
              owner = r;
              valid = translate-ok _ _ run;
              made = sym (ok-injective k);
            }
      ]

  -- A context that a request gets is, in all its fields, that of a record of the configured API
  -- keys, with exactly the key it sent and a supported role, or that of the user of a valid token
  -- it sent as a bearer.
  pub context-authentic :
      (request : Request) (context : WorkspaceContext)
      → require_workspace_context crypto settings lower now request ≡ ok context
      → ByKey request context ⊎ ByToken request context
  unfolding require_workspace_context
  context-authentic request context h = elim (Option-cases (given request.api_key)) [
    | inr (key, e) ↦ inl (
        by_key request key context (given-eq request.api_key e)
          (rw (e, require_workspace_context) at h))
    | inl e ↦ elim (Option-cases (given request.authorization)) [
      | inr (authorization, k) ↦ inr (
          by_token request authorization context (given-eq request.authorization k)
            (rw (e, k, require_workspace_context) at h))
      | inl k ↦ absurd (cc (rw (e, k, require_workspace_context) at h))
    ]
  ]

  -- An admin route is reached only by a request whose context has the admin role.
  pub admin-role :
      (request : Request) (context : WorkspaceContext)
      → require_admin_workspace_context crypto settings lower now request ≡ ok context
      → (context.role ≡ admin_role)
        × (require_workspace_context crypto settings lower now request ≡ ok context)
  unfolding require_admin_workspace_context
  admin-role request context h =
      let (c, run, k) =
        bind-eq-ok (require_workspace_context crypto settings lower now request) _ h in
      let (_, passed, e) = bind-eq-ok (raise_if (not (text_eq c.role admin_role)) _) _ k in
      let same = ok-injective e in
      (
        ap (λ (x : WorkspaceContext). x.role) (sym same)
            ∙ (text_eq_iff c.role admin_role).0 (not-false _ (raise_if-false _ _ passed)),
        run ∙ ap ok same,
      )

  -- If any API key is configured, a key with a character beyond ASCII is not answered with status
  -- 401: the comparison raises a TypeError, which no handler catches.
  pub key_not_ascii :
      (request : Request) (c : ℕ) (s : Text) (r : ApiKeyRecord) (records : List ApiKeyRecord)
      → request.api_key ≡ some (c ∷ s)
      → parse_api_keys settings.api_keys ≡ ok (r ∷ records)
      → ascii (c ∷ s) ≡ false
      → require_workspace_context crypto settings lower now request
        ≡ raise (other (text "TypeError"))
  unfolding require_workspace_context context_by_key validate_api_key find_api_key compare_digest
  key_not_ascii request c s r records sent parsed beyond = elim (Bool-cases (ascii r.api_key)) [
    | inl e ↦ rw (require_workspace_context, sent, parsed, e, beyond) refl
    | inr e ↦ rw (require_workspace_context, sent, parsed, e) refl
  ]
