-- ===== src/Core/Events.antt =====
-- backend/app/core/operation_events.py: the events of an operator's view, the latest `max_events`.
-- An event's id and time are generated by its constructor, and nothing here reads them.
use mathlib.Core.List.{reverse-append}
use doc_search_ai.Common.{
  ℕ, ◌++◌, ◌<◌, List, ◌∷◌, length, if◌then◌else◌, [], reverse, ◌≡◌, ◌==◌, ltb, arith, drop, ◌-◌,
  take, Bool-cases, inl, inr, reverse-drop, sym, take_of_length-le, length-append, length-reverse,
}
use doc_search_ai.Text.{Text}

pub data Severity : Type 0 where
  info warning error : Severity

pub record OperationEvent : Type 0 where
  pub event_type : Text
  pub severity : Severity
  pub source : Text
  pub message : Text
  pub details : List (Text × Text)

-- `l[-n:]`; for `n` = 0 that is `l[0:]`, the whole list.
unfoldable pub last_n : {A : Type 0} → ℕ → List A → List A
last_n n l = if n == 0 then l else drop (length l - n) l

pub record EventStore : Type 0 where
  pub max_events : ℕ
  pub events : List OperationEvent

unfoldable pub record_event : OperationEvent → EventStore → EventStore
unfolding last_n
record_event event s =
    let appended = s.events ++ event ∷ [] in
    record s {
      events =
          (if ltb s.max_events (length appended) then last_n s.max_events appended else appended);
    }

unfoldable pub list_events : ℕ → EventStore → List OperationEvent
unfolding last_n
list_events limit s = reverse (last_n limit s.events)

-- What is listed, newest event first, if it were not cut off.
unfoldable pub newest : EventStore → List OperationEvent
newest s = reverse s.events

pub reverse-last_n :
    {A : Type 0} (n : ℕ) (l : List A) → 0 < n → reverse (last_n n l) ≡ take n (reverse l)
unfolding last_n
reverse-last_n n l h = elim (Bool-cases (n == 0)) [
  | inl e ↦ absurd (ground arith)
  | inr e ↦ rw (e, reverse-drop n l)
]

-- The store keeps the latest `max_events` events: recording one puts it first and drops the oldest.
pub newest-record_event :
    (e : OperationEvent) (s : EventStore)
    → 0 < s.max_events
    → newest (record_event e s) ≡ take s.max_events (e ∷ newest s)
unfolding newest record_event
newest-record_event e s p = elim (Bool-cases (ltb s.max_events (length (s.events ++ e ∷ [])))) [
  | inl h ↦
      rw (h, reverse-last_n s.max_events (s.events ++ e ∷ []) p, reverse-append s.events (e ∷ []))
  | inr h ↦
      rw (h, reverse-append s.events (e ∷ []))
        (sym (
          take_of_length-le s.max_events (e ∷ reverse s.events)
            (ground (arith, length-append s.events (e ∷ []), length-reverse s.events))))
]

-- A listing shows the latest `limit` events, newest first.
pub list_events_lem :
    (s : EventStore) (limit : ℕ) → 0 < limit → list_events limit s ≡ take limit (newest s)
unfolding list_events newest
list_events_lem s limit p = reverse-last_n limit s.events p
