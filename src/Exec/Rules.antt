-- ===== src/Exec/Rules.antt =====
-- What a run that returned a value did, one lemma for each way to build an action; and the rules
-- by which a property of the state is kept, whether the action returns or fails.
use kde_auth.Prelude.{
  ◌≡◌, refl, ap, Bool, true, false, Option, none, some, arith, Bool-cases, inl, inr,
}
use kde_auth.Domain.Errors.{Error, Result, ok, err, is_not_found}
use kde_auth.State.{State}
use kde_auth.Port.{Op, Moment}
use kde_auth.Exec.{
  Exec, pure, lift, or_error, if_not_found, transaction, or_internal, select_row, guard, ◌>>=◌,
  ◌>>◌, continue, replace, replace_not_found,
}

module _ {A B : Type 0} where
  continue_ok :
      (r : Result A) (f : A → Exec B) (t : State) {b : B} {s' : State}
      → continue r f t ≡ (ok b, s')
      → (a : A) × (r ≡ ok a) × (f a t ≡ (ok b, s'))
  continue_ok (ok a) f t h = (a, refl, h)
  continue_ok (err e) f t h = absurd (ground arith)

  pub bind_ok :
      (m : Exec A) (f : A → Exec B) (s : State) {b : B} {s' : State}
      → (m >>= f) s ≡ (ok b, s')
      → (a : A) × (t : State) × (m s ≡ (ok a, t)) × (f a t ≡ (ok b, s'))
  unfolding ◌>>=◌
  bind_ok m f s h =
      let (a, e, h') = continue_ok (m s).0 f (m s).1 h in (a, (m s).1, (λ i. (e i, (m s).1)), h')

  -- The run of a bind, from the run of its first action.
  pub bind-run :
      (m : Exec A) (f : A → Exec B) (s : State) (a : A) (t : State)
      → m s ≡ (ok a, t)
      → (m >>= f) s ≡ f a t
  unfolding ◌>>=◌
  bind-run m f s a t h = λ i. continue (h i).0 f (h i).1

  pub bind-fail :
      (m : Exec A) (f : A → Exec B) (s : State) (e : Error) (t : State)
      → m s ≡ (err e, t)
      → (m >>= f) s ≡ (err e, t)
  unfolding ◌>>=◌
  bind-fail m f s e t h = λ i. continue (h i).0 f (h i).1

module _ {A : Type 0} where
  pub guard_ok :
      (b : Bool) (e : Error) (n : Exec A) (s : State) {a : A} {s' : State}
      → (guard b e >> n) s ≡ (ok a, s')
      → (b ≡ true) × (n s ≡ (ok a, s'))
  unfolding ◌>>=◌
  guard_ok true e n s h = (refl, h)
  guard_ok false e n s h = absurd (ground arith)

  pub guard-run :
      (b : Bool) (e : Error) (n : Exec A) (s : State) → b ≡ true → (guard b e >> n) s ≡ n s
  unfolding ◌>>=◌
  guard-run true e n s h = refl
  guard-run false e n s h = absurd (ground arith)

  pub guard-fail :
      (b : Bool) (e : Error) (n : Exec A) (s : State) → b ≡ false → (guard b e >> n) s ≡ (err e, s)
  unfolding ◌>>=◌
  guard-fail true e n s h = absurd (ground arith)
  guard-fail false e n s h = refl

  pub lift_ok :
      (r : Result A) (s : State) {a : A} {t : State} → lift r s ≡ (ok a, t) → (r ≡ ok a) × (s ≡ t)
  unfolding lift
  lift_ok r s h = (ap (λ p. p.0) h, ap (λ p. p.1) h)

  pub lift-run : (r : Result A) (s : State) (a : A) → r ≡ ok a → lift r s ≡ (ok a, s)
  unfolding lift
  lift-run r s a h = λ i. (h i, s)

  replace_ok : (e : Error) (r : Result A) {a : A} → replace e r ≡ ok a → r ≡ ok a
  replace_ok e (ok a) h = h
  replace_ok e (err e') h = absurd (ground arith)

  pub or_error_ok :
      (e : Error) (m : Exec A) (s : State) {a : A} {t : State}
      → or_error e m s ≡ (ok a, t)
      → m s ≡ (ok a, t)
  unfolding or_error
  or_error_ok e m s h = λ i. (replace_ok e (m s).0 (ap (λ p. p.0) h) i, (h i).1)

  pub or_error-run :
      (e : Error) (m : Exec A) (s : State) (a : A) (t : State)
      → m s ≡ (ok a, t)
      → or_error e m s ≡ (ok a, t)
  unfolding or_error
  or_error-run e m s a t h = λ i. (replace e (h i).0, (h i).1)

  replace_not_found_ok :
      (e : Error) (r : Result A) {a : A} → replace_not_found e r ≡ ok a → r ≡ ok a
  replace_not_found_ok e (ok a) h = h
  replace_not_found_ok e (err e') h = elim (Bool-cases (is_not_found e')) [
    | inl p ↦ absurd (ground arith)
    | inr p ↦ absurd (ground arith)
  ]

  pub if_not_found_ok :
      (e : Error) (m : Exec A) (s : State) {a : A} {t : State}
      → if_not_found e m s ≡ (ok a, t)
      → m s ≡ (ok a, t)
  unfolding if_not_found
  if_not_found_ok e m s h = λ i. (replace_not_found_ok e (m s).0 (ap (λ p. p.0) h) i, (h i).1)

  pub if_not_found-run :
      (e : Error) (m : Exec A) (s : State) (a : A) (t : State)
      → m s ≡ (ok a, t)
      → if_not_found e m s ≡ (ok a, t)
  unfolding if_not_found
  if_not_found-run e m s a t h = λ i. (replace_not_found e (h i).0, (h i).1)

  pub transaction_ok :
      (at : Moment) (op : Op) (m : Exec A) (s : State) {a : A} {t : State}
      → transaction at op m s ≡ (ok a, t)
      → (at.fails op ≡ false) × (m s ≡ (ok a, t))
  unfolding transaction
  transaction_ok at op m s h = ground arith

  pub transaction-run :
      (at : Moment) (op : Op) (m : Exec A) (s : State) (a : A) (t : State)
      → at.fails op ≡ false
      → m s ≡ (ok a, t)
      → transaction at op m s ≡ (ok a, t)
  unfolding transaction
  transaction-run at op m s a t f h = ground arith

  pub or_internal_ok :
      (o : Option A) (s : State) {a : A} {t : State}
      → or_internal o s ≡ (ok a, t)
      → (o ≡ some a) × (s ≡ t)
  unfolding or_internal
  or_internal_ok (some b) s h = ground arith
  or_internal_ok none s h = ground arith

  pub or_internal-run :
      (o : Option A) (s : State) (a : A) → o ≡ some a → or_internal o s ≡ (ok a, s)
  unfolding or_internal
  or_internal-run o s a h = rw h

  pub select_row_ok :
      (f : State → Option A) (s : State) {a : A} {t : State}
      → select_row f s ≡ (ok a, t)
      → (f s ≡ some a) × (s ≡ t)
  unfolding select_row
  select_row_ok f s h = (ground arith, ap (λ p. p.1) h)

  pub pure_ok : (a : A) (s : State) {b : A} {t : State} → pure a s ≡ (ok b, t) → (a ≡ b) × (s ≡ t)
  unfolding pure
  pure_ok a s h = (ground arith, ap (λ p. p.1) h)

  -- A query that found its row: it ran, and changed nothing.
  pub query_ok :
      (at : Moment) (op : Op) (f : State → Option A) (s : State) {a : A} {t : State}
      → transaction at op (select_row f) s ≡ (ok a, t)
      → (f s ≡ some a) × (s ≡ t)
  query_ok at op f s h = select_row_ok f s (transaction_ok at op (select_row f) s h).1

  pub query-run :
      (at : Moment) (op : Op) (f : State → Option A) (s : State) (a : A)
      → at.fails op ≡ false
      → f s ≡ some a
      → transaction at op (select_row f) s ≡ (ok a, s)
  unfolding transaction select_row
  query-run at op f s a e h = rw (e, h)
