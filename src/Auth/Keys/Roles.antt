-- ===== src/Auth/Keys/Roles.antt =====
-- What the settings give: supported roles only, and keys that are found by their exact text.
use doc_search_ai.Auth.Keys.{
  parse_entries, api_key_record, read_api_key, parse_api_keys, seed_user, read_user,
  parse_auth_users, find_api_key, validate_api_key,
}
use doc_search_ai.Auth.Models.{ApiKeyRecord, UserRecord, supported_roles, member_role}
use doc_search_ai.Auth.Tokens.{Crypto, compare_digest}
use doc_search_ai.Auth.Tokens.RoundTrip.{compare_digest-eq, not-false}
use doc_search_ai.Errors.{Raises, value_error}
use doc_search_ai.Text.{Text, text_eq_iff, contains, strip, split_on}
use doc_search_ai.Common.{
  ◌≡◌, ℕ, suc, List, [], ◌∷◌, Option, none, some, All, null, false, true, not, ok, bind-eq-ok,
  ok-injective, raise_if, raise_if-false, Bool-cases, inl, inr, map, ok-some_injective, subst, ◌∙◌,
  get_elem?, All-at, All-both,
}

parse_entries-All :
    {A : Type 0} (P : A → Type 0) (read : ℕ → List Text → Raises A)
    → ((n : ℕ) (fields : List Text) (a : A) → read n fields ≡ ok a → P a)
    → (n : ℕ) (entries : List Text) (records : List A) → parse_entries read n entries ≡ ok records
    → All P records
unfolding parse_entries
parse_entries-All P read each n [] records h = rw (← (ok-injective h)) tt
parse_entries-All P read each n (entry ∷ entries) records h =
    elim (Bool-cases (null (strip entry))) [
      | inl e ↦ parse_entries-All P read each (suc n) entries records (rw (e, parse_entries) at h)
      | inr e ↦
          let (a, run, h1) =
            bind-eq-ok (read n (map strip (split_on 124 (strip entry)))) _
              (rw (e, parse_entries) at h) in
          let (rest, run2, h2) = bind-eq-ok (parse_entries read (suc n) entries) _ h1 in
          rw (← (ok-injective h2)) (
            each n (map strip (split_on 124 (strip entry))) a run,
            parse_entries-All P read each (suc n) entries rest run2,
          )
    ]

abbrev pub HasRole : Text → Type 0
HasRole role = contains supported_roles role ≡ true

api_key_record-HasRole :
    (key workspace name role : Text) (r : ApiKeyRecord)
    → api_key_record key workspace name role ≡ ok r
    → HasRole r.role
unfolding api_key_record
api_key_record-HasRole key workspace name role r h =
    let (_, run, e) = bind-eq-ok (raise_if (not (contains supported_roles role)) value_error) _ h in
    rw (← (ok-injective e)) (not-false _ (raise_if-false _ _ run))

read_api_key-HasRole :
    (n : ℕ) (fields : List Text) (r : ApiKeyRecord) → read_api_key n fields ≡ ok r → HasRole r.role
unfolding read_api_key
read_api_key-HasRole n [] r h = absurd cc
read_api_key-HasRole n (k ∷ []) r h = absurd cc
read_api_key-HasRole n (k ∷ w ∷ []) r h = absurd cc
read_api_key-HasRole n (k ∷ w ∷ m ∷ []) r h = api_key_record-HasRole k w m member_role r h
read_api_key-HasRole n (k ∷ w ∷ m ∷ o ∷ []) r h = api_key_record-HasRole k w m o r h
read_api_key-HasRole n (k ∷ w ∷ m ∷ o ∷ x ∷ l) r h = absurd cc

-- A seed user has a supported role and an employee id that is not blank.
pub record IsSeed (r : UserRecord) : Type 0 where
  pub role_known : HasRole r.role
  pub id_visible : null r.employee_id ≡ false

module _ (crypto : Crypto) (salts : ℕ → Text) where
  seed_user-IsSeed :
      (n : ℕ) (id password workspace name role : Text) (display : Option Text) (r : UserRecord)
      → seed_user crypto salts n id password workspace name role display ≡ ok r
      → IsSeed r
  unfolding seed_user
  seed_user-IsSeed n id password workspace name role display r h =
      let (_, run, h1) =
        bind-eq-ok (raise_if (not (contains supported_roles role)) value_error) _ h in
      let (_, run2, e) = bind-eq-ok (raise_if (null (strip id)) value_error) _ h1 in
      rw (← (ok-injective e)) (record {
        role_known = not-false _ (raise_if-false _ _ run);
        id_visible = raise_if-false _ _ run2;
      })

  read_user-IsSeed :
      (n : ℕ) (fields : List Text) (r : UserRecord)
      → read_user crypto salts n fields ≡ ok r
      → IsSeed r
  unfolding read_user
  read_user-IsSeed n [] r h = absurd cc
  read_user-IsSeed n (a ∷ []) r h = absurd cc
  read_user-IsSeed n (a ∷ b ∷ []) r h = absurd cc
  read_user-IsSeed n (a ∷ b ∷ c ∷ []) r h = absurd cc
  read_user-IsSeed n (a ∷ b ∷ c ∷ d ∷ []) r h = absurd cc
  read_user-IsSeed n (a ∷ b ∷ c ∷ d ∷ e ∷ []) r h = seed_user-IsSeed n a b c d e none r h
  read_user-IsSeed n (a ∷ b ∷ c ∷ d ∷ e ∷ f ∷ []) r h = seed_user-IsSeed n a b c d e (some f) r h
  read_user-IsSeed n (a ∷ b ∷ c ∷ d ∷ e ∷ f ∷ x ∷ l) r h = absurd cc

  -- The settings give users and keys of supported roles only, and no user with a blank id.
  pub parse_settings-HasRole :
      (raw_keys raw_users : Text) (keys : List ApiKeyRecord) (users : List UserRecord)
      → parse_api_keys raw_keys ≡ ok keys
      → parse_auth_users crypto salts raw_users ≡ ok users
      → All (λ r. HasRole r.role) keys × All IsSeed users
  unfolding parse_api_keys parse_auth_users
  parse_settings-HasRole raw_keys raw_users keys users h k = (
    parse_entries-All (λ r. HasRole r.role) read_api_key read_api_key-HasRole 0
        (split_on 59 raw_keys) keys h,
    parse_entries-All IsSeed (read_user crypto salts) read_user-IsSeed 0 (split_on 59 raw_users)
        users k,
  )

find_api_key-All :
    (P : ApiKeyRecord → Type 0) (key : Text) (records : List ApiKeyRecord) (r : ApiKeyRecord)
    → All P records
    → find_api_key key records ≡ ok (some r)
    → P r × (r.api_key ≡ key)
unfolding find_api_key
find_api_key-All P key [] r all h = absurd cc
find_api_key-All P key (x ∷ records) r all h =
    let (same, run, k) = bind-eq-ok (compare_digest x.api_key key) _ h in
    elim (Bool-cases same) [
      | inl e ↦
          let is_r : x ≡ r = ok-some_injective (rw e at k) in
          subst (λ y. P y × (y.api_key ≡ key)) is_r
            (all.0, (text_eq_iff x.api_key key).0 (compare_digest-eq x.api_key key same run ∙ e))
      | inr e ↦ find_api_key-All P key records r all.1 (rw e at k)
    ]

-- The record that is returned for a key is one of those that the setting gives; it has that key,
-- character for character, and a supported role.
pub validate_api_key-exact :
    (raw_keys key : Text) (r : ApiKeyRecord)
    → validate_api_key raw_keys key ≡ ok (some r)
    → (records : List ApiKeyRecord) × (parse_api_keys raw_keys ≡ ok records)
      × (((i : ℕ) × (get_elem? records i ≡ some r)) × HasRole r.role)
      × (r.api_key ≡ key)
unfolding validate_api_key parse_api_keys
validate_api_key-exact raw_keys key r h =
    let (records, run, k) = bind-eq-ok (parse_api_keys raw_keys) _ h in
    let (configured, exact) =
      find_api_key-All (λ x. ((i : ℕ) × (get_elem? records i ≡ some x)) × HasRole x.role) key
        records r
        (All-both _ (λ x. HasRole x.role) records (All-at records)
          (parse_entries-All (λ x. HasRole x.role) read_api_key read_api_key-HasRole 0
            (split_on 59 raw_keys) records run))
        k in
    (records, run, configured, exact)
