-- ===== src/Audit/Store/Asked.antt =====
-- What an event that passes the filters has.
use doc_search_ai.Audit.Store.{
  StoredEvent, ChatAuditEventFilters, asks, asks_time, starts_with, is_substring, matches_filters,
  has_document_id,
}
use doc_search_ai.Chat.Service.{AuditCitation}
use doc_search_ai.Text.{Text, text, text_eq, text_eq_iff, contains}
use doc_search_ai.Common.{
  ◌≡◌, refl, Bool, true, false, ◌&&◌, ◌||◌, ℕ, ◌≤◌, Option, none, some, [], ◌∷◌, ◌++◌, ◌==◌, leb→le,
  any, ◌⊎◌, inl, inr, Bool-cases, ap, sym, ◌∙◌, arith,
}

both_true : (a b : Bool) → (a && b) ≡ true → (a ≡ true) × (b ≡ true)
both_true true b h = (refl, h)
both_true false b h = absurd cc

either_true : (a b : Bool) → (a || b) ≡ true → (a ≡ true) ⊎ (b ≡ true)
either_true true b h = inl refl
either_true false b h = inr h

same_char : (c d : ℕ) → (c == d) ≡ true → c ≡ d
same_char c d h = ground arith

starts_with-append : (t s : Text) → starts_with t s ≡ true → (after : Text) × (s ≡ t ++ after)
unfolding starts_with
starts_with-append [] s h = (s, refl)
starts_with-append (c ∷ t) [] h = absurd cc
starts_with-append (c ∷ t) (d ∷ s) h = elim (Bool-cases (c == d)) [
  | inl e ↦
      let (after, same) = starts_with-append t s (rw (e, starts_with) at h) in
      let same_head : d ≡ c = sym (same_char c d e) in
      (after, ap (λ x. x ∷ s) same_head ∙ ap (λ l. c ∷ l) same)
  | inr e ↦ absurd (cc (rw (e, starts_with) at h))
]

is_substring-append :
    (t s : Text)
    → is_substring t s ≡ true
    → (before : Text) × (after : Text) × (s ≡ before ++ (t ++ after))
unfolding is_substring
is_substring-append t [] h = let (after, same) = starts_with-append t [] h in ([], after, same)
is_substring-append t (d ∷ s) h = elim (Bool-cases (starts_with t (d ∷ s))) [
  | inl e ↦ let (after, same) = starts_with-append t (d ∷ s) e in ([], after, same)
  | inr e ↦
      let (before, after, same) = is_substring-append t s (rw (e, is_substring) at h) in
      (d ∷ before, after, ap (λ l. d ∷ l) same)
]

-- What holds of a text that is asked for: nothing, where none or the empty one is.
abbrev pub WhenAsked : Option Text → (Text → Type 0) → Type 0
WhenAsked none P = Unit
WhenAsked (some []) P = Unit
WhenAsked (some (c ∷ s)) P = P (c ∷ s)

abbrev pub WhenGiven : Option ℕ → (ℕ → Type 0) → Type 0
WhenGiven none P = Unit
WhenGiven (some t) P = P t

asks-WhenAsked :
    (o : Option Text) (test : Text → Bool) (P : Text → Type 0)
    → asks o test ≡ true
    → ((t : Text) → test t ≡ true → P t)
    → WhenAsked o P
asks-WhenAsked none test P h k = tt
asks-WhenAsked (some []) test P h k = tt
asks-WhenAsked (some (c ∷ s)) test P h k = k (c ∷ s) h

asks_time-WhenGiven :
    (o : Option ℕ) (test : ℕ → Bool) (P : ℕ → Type 0)
    → asks_time o test ≡ true
    → ((t : ℕ) → test t ≡ true → P t)
    → WhenGiven o P
asks_time-WhenGiven none test P h k = tt
asks_time-WhenGiven (some t) test P h k = k t h

module _ {F : Type 0} (lower : Text → Text) (filters : ChatAuditEventFilters) where
  -- The event is of the type, of the request and of the document that are asked for, lies between
  -- the times, and has the words asked for in its question and preview, both put in lower case.
  pub record Asked (e : StoredEvent F) : Type 0 where
    pub of_type : WhenAsked filters.event_type (λ t. e.event_type ≡ t)
    pub of_request : WhenAsked filters.request_id (λ t. e.event.request_id ≡ t)
    pub of_document : WhenAsked filters.document_id (λ t.
        (contains (elim e.event.document_ids [ none ↦ [] | some ids ↦ ids ]) t ≡ true)
        ⊎ (any (λ (c : AuditCitation F). text_eq c.document_id t) e.event.citations ≡ true))
    pub not_before : WhenGiven filters.occurred_from (λ t. t ≤ e.occurred_at)
    pub not_after : WhenGiven filters.occurred_to (λ t. e.occurred_at ≤ t)
    pub has_words : WhenAsked filters.query (λ t.
        (before : Text) × (after : Text) × (lower
            (e.event.question ++ text "\n" ++ e.event.answer_preview)
          ≡ before ++ (lower t ++ after)))

  pub matches_filters-Asked : (e : StoredEvent F) → matches_filters lower filters e ≡ true → Asked e
  unfolding matches_filters has_document_id
  matches_filters-Asked e h =
      let (h1, words) = both_true _ _ h in
      let (h2, end) = both_true _ _ h1 in
      let (h3, start) = both_true _ _ h2 in
      let (h4, document) = both_true _ _ h3 in
      let (kind, request) = both_true _ _ h4 in
      record {
        of_type = asks-WhenAsked filters.event_type _ _ kind λ t k. (text_eq_iff _ _).0 k;
        of_request = asks-WhenAsked filters.request_id _ _ request λ t k. (text_eq_iff _ _).0 k;
        of_document = asks-WhenAsked filters.document_id _ _ document λ t k. either_true _ _ k;
        not_before = asks_time-WhenGiven filters.occurred_from _ _ start λ t k. leb→le _ _ k;
        not_after = asks_time-WhenGiven filters.occurred_to _ _ end λ t k. leb→le _ _ k;
        has_words = asks-WhenAsked filters.query _ _ words λ t k. is_substring-append (lower t) _ k;
      }
