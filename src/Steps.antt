-- ===== src/Steps.antt =====
-- Methods that change an object and may raise: what was written before an exception stays written,
-- so the state comes back beside the result either way.
use doc_search_ai.Common.{ok, ◌≡◌, raise, refl}
use doc_search_ai.Errors.{Raises}

abbrev pub Steps : Type 0 → Type 0 → Type 0
Steps S A = S → Raises A × S

module _ {S A : Type 0} where
  abbrev pub pure : A → Steps S A
  pure a s = (ok a, s)

  -- A part that reads or writes no state.
  abbrev pub lift : Raises A → Steps S A
  lift r s = (r, s)

  -- A part that does not raise.
  abbrev pub perform : (S → A × S) → Steps S A
  perform f s = let (a, s') = f s in (ok a, s')

-- What holds of the state that an exception leaves.
abbrev pub OnRaise : {S A : Type 0} → Raises A × S → Type 0 → Type 0
OnRaise (ok a, s) P = Unit
OnRaise (raise e, s) P = P

-- A run that does not raise.
abbrev pub Returns : {S A : Type 0} → Raises A × S → Type 0
Returns (ok a, s) = Unit
Returns (raise e, s) = ⊥

module _ {S A B : Type 0} where
  abbrev pub continue : (A → Steps S B) → Raises A × S → Raises B × S
  continue f (ok a, s) = f a s
  continue f (raise e, s) = (raise e, s)

  infixl 5 ◌>>=◌ ◌>>◌
  abbrev pub ◌>>=◌ : Steps S A → (A → Steps S B) → Steps S B
  ◌>>=◌ m f s = continue f (m s)

  abbrev pub ◌>>◌ : Steps S A → Steps S B → Steps S B
  m >> k = m >>= λ _. k

  -- A run that returns has returned from its first part.
  pub continue-eq-ok :
      (f : A → Steps S B) (ran : Raises A × S) {b : B} {t : S}
      → continue f ran ≡ (ok b, t)
      → (a : A) × (s : S) × (ran ≡ (ok a, s)) × (f a s ≡ (ok b, t))
  continue-eq-ok f (ok a, s) h = (a, s, refl, h)
  continue-eq-ok f (raise e, s) h = absurd cc

  -- What each part keeps when it raises, the whole keeps.
  pub continue-keeps :
      {X : Type 0} (view : S → X) (x : X) (f : A → Steps S B) (ran : Raises A × S)
      → view ran.1 ≡ x
      → ((a : A) (s : S) → view s ≡ x → OnRaise (f a s) (view (f a s).1 ≡ x))
      → OnRaise (continue f ran) (view (continue f ran).1 ≡ x)
  continue-keeps view x f (ok a, s) h k = k a s h
  continue-keeps view x f (raise e, s) h k = h
