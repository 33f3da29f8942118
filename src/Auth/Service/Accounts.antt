-- ===== src/Auth/Service/Accounts.antt =====
-- Signing up and logging in.
use doc_search_ai.Errors.{duplicate_user}
use doc_search_ai.Auth.Service.{
  Users, has_id, get_user, create_user, AuthSettings, normalize_employee_id, validate_password,
  signup_record, build_member_user_record, refuse_known, add_user, register_user, check_record,
  authenticate_user,
}
use doc_search_ai.Auth.Models.{UserRecord, member_role}
use doc_search_ai.Auth.Tokens.{Crypto, hash_password, verify_password}
use doc_search_ai.Auth.Tokens.Base64.{CryptoLaws}
use doc_search_ai.Auth.Tokens.RoundTrip.{verify-hash}
use doc_search_ai.Steps.{OnRaise, continue-eq-ok, lift, continue, continue-keeps, pure, ◌>>◌}
use doc_search_ai.Text.{Text, text_eq, text_eq_refl, text_eq_iff, has_char}
use doc_search_ai.Common.{
  ◌≡◌, refl, Option, none, some, [], ◌∷◌, ◌++◌, find, any, true, false, ok, length, ◌≤◌, arith,
  Bool-cases, inl, inr, if◌then◌else◌, Option-cases, sym, ap, ◌∙◌, ok-injective, raise, le→ltb,
}

-- Nothing is found exactly when no record has the id.
find-any : (id : Text) (users : Users) → get_user id users ≡ none → any (has_id id) users ≡ false
unfolding get_user find any
find-any id [] h = refl
find-any id (r ∷ users) h = ground (arith, find-any id users)

get-append :
    (id : Text) (r : UserRecord) (users : Users)
    → get_user id (users ++ r ∷ []) ≡ elim (get_user id users) [
      | some x ↦ some x
      | none ↦ (if text_eq r.employee_id id then some r else none)
    ]
unfolding get_user find
get-append id r [] = ground arith
get-append id r (x ∷ users) = ground (arith, get-append id r users)

-- After a record is added under a free id, it is found under that id, and elsewhere nothing changes.
get-added :
    (other : Text) (r : UserRecord) (users : Users)
    → get_user r.employee_id users ≡ none
    → get_user other (users ++ r ∷ [])
      ≡ (if text_eq r.employee_id other then some r else get_user other users)
get-added other r users free = elim (Bool-cases (text_eq r.employee_id other)) [
  | inl e ↦
      let same : r.employee_id ≡ other = (text_eq_iff r.employee_id other).0 e in
      let free' : get_user other users ≡ none = ap (λ id. get_user id users) (sym same) ∙ free in
      rw (get-append other r users, free', e) refl
  | inr e ↦ elim (Option-cases (get_user other users)) [
    | inl k ↦ rw (get-append other r users, k, e) refl
    | inr (x, k) ↦ rw (get-append other r users, k, e) refl
  ]
]

refuse_known-ok :
    (id : Text) (users : Users) {u : Unit {0}} {t : Users}
    → refuse_known id users ≡ (ok u, t)
    → (get_user id users ≡ none) × (t ≡ users)
refuse_known-ok id users h = elim (Option-cases (get_user id users)) [
  | inl e ↦ (e, sym (ap (λ p. p.1) (rw (e, refuse_known) at h)))
  | inr (x, e) ↦ absurd (cc (rw (e, refuse_known) at h))
]

add_user-ok :
    (r : UserRecord) (users : Users) {u : Unit {0}} {t : Users}
    → add_user r users ≡ (ok u, t)
    → t ≡ users ++ r ∷ []
unfolding create_user
add_user-ok r users h = elim (Bool-cases (any (has_id r.employee_id) users)) [
  | inl e ↦ absurd (cc (rw (e, create_user) at h))
  | inr e ↦ sym (ap (λ p. p.1) (rw (e, create_user) at h))
]

refuse_known-keeps : (id : Text) (users : Users) → (refuse_known id users).1 ≡ users
refuse_known-keeps id users = elim (Option-cases (get_user id users)) [
  | inl e ↦ rw (e, refuse_known) refl
  | inr (x, e) ↦ rw (e, refuse_known) refl
]

add_user-keeps :
    (r : UserRecord) (s users : Users)
    → s ≡ users
    → OnRaise
        (continue (λ _. pure r) (add_user r s))
        ((continue (λ _. pure r) (add_user r s)).1 ≡ users)
unfolding create_user
add_user-keeps r s users h = elim (Bool-cases (any (has_id r.employee_id) s)) [
  | inl e ↦ rw (e, create_user) h
  | inr e ↦ rw (e, create_user) tt
]

long_enough :
    (password : Text) {u : Unit {0}} → validate_password password ≡ ok u → 4 ≤ length password
unfolding validate_password
long_enough password h = ground arith

module _ (crypto : Crypto) (settings : AuthSettings) where
  -- A new account: the id was free, the password long enough, and the record is added at the end.
  pub record Registered (salt employee_id password : Text) (display_name : Option Text)
      (users : Users) (r : UserRecord) (users' : Users) : Type 0 where
    pub id : Text
    pub normalized : normalize_employee_id employee_id ≡ ok id
    pub long_enough : 4 ≤ length password
    pub was_free : get_user id users ≡ none
    pub made : r ≡ signup_record crypto settings salt id password display_name
    pub added : users' ≡ users ++ r ∷ []

  pub register-Registered :
      (salt employee_id password : Text) (display_name : Option Text) (users users' : Users)
      (r : UserRecord)
      → register_user crypto settings salt employee_id password display_name users ≡ (ok r, users')
      → Registered salt employee_id password display_name users r users'
  unfolding register_user
  register-Registered salt employee_id password display_name users users' r h =
      let (id, s1, e1, h1) = continue-eq-ok _ (lift (normalize_employee_id employee_id) users) h in
      let (_, s2, e2, h2) = continue-eq-ok _ (lift (validate_password password) s1) h1 in
      let (_, s3, e3, h3) = continue-eq-ok _ (refuse_known id s2) h2 in
      let (_, s4, e4, h4) =
        continue-eq-ok _ (add_user (signup_record crypto settings salt id password display_name) s3)
          h3 in
      let (free, kept) = refuse_known-ok id s2 e3 in
      let start : s2 ≡ users = sym (ap (λ p. p.1) e2) ∙ sym (ap (λ p. p.1) e1) in
      let made = ok-injective (ap (λ p. p.0) h4) in
      record {
        id = id;
        normalized = ap (λ p. p.0) e1;
        long_enough = long_enough password (ap (λ p. p.0) e2);
        was_free = ap (get_user id) (sym start) ∙ free;
        made = sym made;
        added =
            sym (ap (λ p. p.1) h4)
            ∙ add_user-ok (signup_record crypto settings salt id password display_name) s3 e4
            ∙ ap (λ l. l ++ signup_record crypto settings salt id password display_name ∷ [])
                (kept ∙ start)
            ∙ ap (λ x. users ++ x ∷ []) made;
      }

  login-found :
      (employee_id password id : Text) (users : Users) (r : UserRecord)
      → normalize_employee_id employee_id ≡ ok id
      → get_user id users ≡ some r
      → verify_password crypto password r.password_hash ≡ ok true
      → authenticate_user crypto employee_id password users ≡ ok r
  unfolding authenticate_user check_record
  login-found employee_id password id users r normal found verified =
      rw (authenticate_user, normal, found, check_record, verified) refl

  -- A signup that succeeds makes a member of the default workspace, who can log in with the password
  -- and the employee id of the signup, and changes no other account.
  pub register-authenticate :
      (laws : CryptoLaws crypto) (salt employee_id password : Text) (display_name : Option Text)
      (users users' : Users) (r : UserRecord) (other : Text)
      → has_char 36 salt ≡ false
      → register_user crypto settings salt employee_id password display_name users ≡ (ok r, users')
      → (r.role ≡ member_role)
        × (r.workspace_id ≡ settings.signup_default_workspace_id)
        × (authenticate_user crypto employee_id password users' ≡ ok r)
        × (get_user other users'
            ≡ (if text_eq r.employee_id other then some r else get_user other users))
  unfolding signup_record build_member_user_record
  register-authenticate laws salt employee_id password display_name users users' r other plain h =
      let done = register-Registered salt employee_id password display_name users users' r h in
      let id_is : r.employee_id ≡ done.id = ap (λ (x : UserRecord). x.employee_id) done.made in
      let hash_is : r.password_hash ≡ hash_password crypto salt password =
        ap (λ (x : UserRecord). x.password_hash) done.made in
      let free = ap (λ id. get_user id users) id_is ∙ done.was_free in
      (
        ap (λ (x : UserRecord). x.role) done.made,
        ap (λ (x : UserRecord). x.workspace_id) done.made,
        login-found employee_id password done.id users' r done.normalized
            (ap (get_user done.id) done.added
              ∙ get-added done.id r users free
              ∙ ap (λ b. if b then some r else get_user done.id users)
                  ((text_eq_iff r.employee_id done.id).1 id_is))
            (ap (verify_password crypto password) hash_is
              ∙ verify-hash crypto laws salt password plain password
                  (laws.hexadecimal password salt)
              ∙ ap ok (text_eq_refl (crypto.pbkdf2 password salt))),
        ap (get_user other) done.added ∙ get-added other r users free,
      )

  -- A signup that raises leaves the accounts as they were.
  pub register-keeps :
      (salt employee_id password : Text) (display_name : Option Text) (users : Users)
      → OnRaise
          (register_user crypto settings salt employee_id password display_name users)
          ((register_user crypto settings salt employee_id password display_name users).1 ≡ users)
  unfolding register_user
  register-keeps salt employee_id password display_name users =
      continue-keeps (λ (x : Users). x) users _ (lift (normalize_employee_id employee_id) users)
        refl
        λ id s1 h1.
          continue-keeps (λ (x : Users). x) users _ (lift (validate_password password) s1) h1
            λ _ s2 h2.
              continue-keeps (λ (x : Users). x) users _ (refuse_known id s2)
                (refuse_known-keeps id s2 ∙ h2)
                λ _ s3 h3.
                  add_user-keeps (signup_record crypto settings salt id password display_name) s3
                    users h3

  -- Signing up with an id that is taken, spaces around it or not, is refused.
  pub register-duplicate :
      (salt employee_id password id : Text) (display_name : Option Text) (users : Users)
      (r : UserRecord)
      → normalize_employee_id employee_id ≡ ok id
      → 4 ≤ length password
      → get_user id users ≡ some r
      → register_user crypto settings salt employee_id password display_name users
        ≡ (raise duplicate_user, users)
  unfolding register_user validate_password
  register-duplicate salt employee_id password id display_name users r normal enough taken =
      let known : refuse_known id users ≡ (raise duplicate_user, users) =
        rw (refuse_known, taken) refl in
      rw (register_user, normal, validate_password, le→ltb _ _ enough)
        (ap
          (continue (λ _.
            add_user (signup_record crypto settings salt id password display_name)
            >> pure (signup_record crypto settings salt id password display_name)))
          known)
