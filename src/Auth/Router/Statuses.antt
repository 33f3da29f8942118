-- ===== src/Auth/Router/Statuses.antt =====
-- Signing up, logging in and using the token.
use doc_search_ai.Auth.Router.{
  unauthorized, context_from_user, require_workspace_context, context_by_token, partition_space,
  signup, login, on_login_error, build_auth_response,
}
use doc_search_ai.Auth.Service.{
  AuthSettings, Users, register_user, authenticate_user, normalize_employee_id, get_user,
}
use doc_search_ai.Auth.Service.Accounts.{register-authenticate}
use doc_search_ai.Auth.Tokens.{Crypto, create_access_token}
use doc_search_ai.Auth.Tokens.Base64.{CryptoLaws}
use doc_search_ai.Auth.Tokens.RoundTrip.{validate-create}
use doc_search_ai.Auth.Models.{AuthResponse, LoginRequest, SignupRequest, UserRecord}
use doc_search_ai.Errors.{auth_error}
use doc_search_ai.Text.{Text, text, strip, has_char, text_eq, split_once-append}
use doc_search_ai.Common.{
  ◌≡◌, refl, ℕ, ◌+◌, none, some, [], ◌∷◌, ◌++◌, ok, raise, null, true, false, ltb, if◌then◌else◌,
  run-cases, inl, inr, ◌∙◌, ap, ok-injective, arith, sym,
}

null-append : (s : Text) (c : ℕ) (t : Text) → null (s ++ c ∷ t) ≡ false
null-append [] c t = refl
null-append (d ∷ s) c t = refl

token-null :
    (crypto : Crypto) (secret : Text) (ttl now : ℕ) (user : UserRecord)
    → null (create_access_token crypto secret ttl now user) ≡ false
unfolding create_access_token
token-null crypto secret ttl now user = null-append _ 46 _

module _ (crypto : Crypto) (settings : AuthSettings) (lower : Text → Text) where
  -- A signup that succeeds is followed by a login with the same id and password that succeeds, at
  -- any time and with the same workspace. The account that it adds has the employee id of the
  -- answer; other accounts stay as they are.
  pub signup-login :
      (laws : CryptoLaws crypto) (now later : ℕ) (request_id salt : Text) (body : SignupRequest)
      (users users' : Users) (answer : AuthResponse) (other : Text)
      → has_char 36 salt ≡ false
      → signup crypto settings lower now request_id salt body users ≡ (ok answer, users')
      → (again : AuthResponse) × (login crypto settings lower later request_id
            (record { employee_id = body.employee_id; password = body.password })
            users'
          ≡ ok again)
        × (again.workspace ≡ answer.workspace)
        × ((r : UserRecord) × (answer.workspace.employee_id ≡ some r.employee_id)
            × (get_user other users'
                ≡ (if text_eq r.employee_id other then some r else get_user other users)))
  unfolding signup login
  signup-login laws now later request_id salt body users users' answer other plain h =
      elim (run-cases (
        register_user crypto settings salt body.employee_id body.password body.display_name
          users)) [
            | inr (x, t, e) ↦ absurd (cc (rw (e, signup) at h))
            | inl (r, t, e) ↦
                let h' = rw (e, signup) at h in
                let e' : register_user crypto settings salt body.employee_id body.password
                      body.display_name users
                    ≡ (ok r, users') =
                  e ∙ ap (λ l. (ok r, l)) (ap (λ p. p.1) h') in
                let (_, _, authentic, others) =
                  register-authenticate crypto settings laws salt body.employee_id body.password
                    body.display_name users users' r other plain e' in
                (
                  build_auth_response crypto settings lower later request_id r,
                  rw (login, authentic) refl,
                  unfold build_auth_response in
                      ap (λ (a : AuthResponse). a.workspace) (ok-injective (ap (λ p. p.0) h')),
                  (
                    r,
                    unfold build_auth_response context_from_user in
                        ap (λ (a : AuthResponse). a.workspace.employee_id)
                          (sym (ok-injective (ap (λ p. p.0) h'))),
                    others,
                  ),
                )
          ]

  -- A login with a blank employee id is not answered with status 401: `AuthError` passes the
  -- handler, which catches `InvalidCredentialsError` only.
  pub login_blank :
      (now : ℕ) (request_id : Text) (body : LoginRequest) (users : Users)
      → null (strip body.employee_id) ≡ true
      → login crypto settings lower now request_id body users ≡ raise auth_error
  unfolding login authenticate_user normalize_employee_id on_login_error
  login_blank now request_id body users blank =
      rw (login, authenticate_user, normalize_employee_id, blank) refl

  -- The token of a user is accepted in the header "Authorization" until its lifetime is over, and
  -- gives the user's own context; later it is answered with status 401.
  pub token-context :
      (laws : CryptoLaws crypto) (now later : ℕ) (request_id : Text) (user : UserRecord)
      → lower (text "Bearer") ≡ text "bearer"
      → require_workspace_context crypto settings lower later (record {
        request_id = request_id;
        api_key = none;
        authorization = some (
            text "Bearer "
            ++ create_access_token crypto settings.auth_token_secret settings.auth_token_ttl_seconds
                now user);
      })
        ≡ (if ltb (now + settings.auth_token_ttl_seconds) later
            then raise (unauthorized (text "AUTH_INVALID_TOKEN"))
            else ok (context_from_user request_id user))
  unfolding require_workspace_context has_char context_by_token context_from_user partition_space
      text_eq
  token-context laws now later request_id user lowered =
      let token =
        create_access_token crypto settings.auth_token_secret settings.auth_token_ttl_seconds now
          user in
      rw
        (
          require_workspace_context,
          context_by_token,
          partition_space,
          split_once-append 32 (text "Bearer") token refl,
          lowered,
          token-null crypto settings.auth_token_secret settings.auth_token_ttl_seconds now user,
          validate-create crypto laws settings.auth_token_secret settings.auth_token_ttl_seconds now
              later user,
        )
        (ground arith)
