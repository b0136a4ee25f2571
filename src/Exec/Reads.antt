-- ===== src/Exec/Reads.antt =====
-- Actions that only read, and the steps of a run that returned a value, in continuation form.
use kde_auth.Prelude.{
  ◌≡◌, refl, sym, ◌∙◌, ap, subst, Bool, true, false, Option, none, some, arith, if◌then◌else◌,
}
use kde_auth.Domain.Errors.{Error, Result, ok, err, internal}
use kde_auth.State.{State}
use kde_auth.Port.{Op, Moment}
use kde_auth.Exec.{
  Exec, pure, lift, gets, or_error, if_not_found, transaction, or_internal, select_row, guard,
  ◌>>=◌, ◌>>◌, continue, commit_if_ok,
}
use kde_auth.Exec.Rules.{bind_ok, guard_ok}

-- The action leaves the state alone, whether it returns or fails.
pub record Reads {A : Type 0} (m : Exec A) : Type 0 where
  pub same : (s : State) → (m s).1 ≡ s

module _ {A : Type 0} where
  pub Reads-pure : (a : A) → Reads (pure a)
  unfolding pure
  Reads-pure a = record { same = λ s. refl }

  pub Reads-lift : (r : Result A) → Reads (lift r)
  unfolding lift
  Reads-lift r = record { same = λ s. refl }

  pub Reads-gets : (f : State → Result A) → Reads (gets f)
  unfolding gets
  Reads-gets f = record { same = λ s. refl }

  pub Reads-select_row : (f : State → Option A) → Reads (select_row f)
  unfolding select_row
  Reads-select_row f = record { same = λ s. refl }

  pub Reads-or_internal : (o : Option A) → Reads (or_internal o)
  unfolding or_internal
  Reads-or_internal none = record { same = λ s. refl }
  Reads-or_internal (some a) = record { same = λ s. refl }

  pub Reads-or_error : (e : Error) (m : Exec A) → Reads m → Reads (or_error e m)
  unfolding or_error
  Reads-or_error e m r = record { same = r.same }

  pub Reads-if_not_found : (e : Error) (m : Exec A) → Reads m → Reads (if_not_found e m)
  unfolding if_not_found
  Reads-if_not_found e m r = record { same = r.same }

  commit_same : (r : Result A) (s t : State) → t ≡ s → (commit_if_ok s (r, t)).1 ≡ s
  commit_same (ok a) s t h = h
  commit_same (err e) s t h = refl

  transaction_same :
      (b : Bool) (s : State) (p : Result A × State)
      → p.1 ≡ s
      → (if b then (err internal, s) else commit_if_ok s p).1 ≡ s
  transaction_same true s p h = refl
  transaction_same false s (r, t) h = commit_same r s t h

  pub Reads-transaction :
      (at : Moment) (op : Op) (m : Exec A) → Reads m → Reads (transaction at op m)
  unfolding transaction
  Reads-transaction at op m r = record {
    same = λ s. transaction_same (at.fails op) s (m s) (r.same s);
  }

pub Reads-guard : (b : Bool) (e : Error) → Reads (guard b e)
unfolding guard
Reads-guard true e = record { same = λ s. refl }
Reads-guard false e = record { same = λ s. refl }

module _ {A B : Type 0} where
  continue_same :
      (r : Result A) (f : A → Exec B) (s : State) → ((a : A) → Reads (f a)) → (continue r f s).1 ≡ s
  continue_same (ok a) f s h = (h a).same s
  continue_same (err e) f s h = refl

  pub Reads-bind :
      (m : Exec A) (f : A → Exec B) → Reads m → ((a : A) → Reads (f a)) → Reads (m >>= f)
  unfolding ◌>>=◌
  Reads-bind m f rm rf = record { same = λ s. continue_same (m s).0 f (m s).1 rf ∙ rm.same s }

pub Reads-if :
    {A : Type 0} (b : Bool) (m n : Exec A) → Reads m → Reads n → Reads (if b then m else n)
Reads-if true m n rm rn = rm
Reads-if false m n rm rn = rn

pub ruleset reads_rules = (
  Reads-pure, Reads-lift, Reads-gets, Reads-select_row, Reads-or_internal, Reads-or_error,
  Reads-if_not_found, Reads-transaction, Reads-guard, Reads-bind, Reads-if,
)

-- What the value of a reading action says.
module _ {A : Type 0} where
  pub or_error_value :
      (e : Error) (m : Exec A) (s : State) (a : A) → (or_error e m s).0 ≡ ok a → (m s).0 ≡ ok a
  unfolding or_error
  or_error_value e m s a h = ground arith

  pub if_not_found_value :
      (e : Error) (m : Exec A) (s : State) (a : A) → (if_not_found e m s).0 ≡ ok a → (m s).0 ≡ ok a
  unfolding if_not_found
  if_not_found_value e m s a h = ground arith

  pub query_value :
      (at : Moment) (op : Op) (f : State → Option A) (s : State) (a : A)
      → (transaction at op (select_row f) s).0 ≡ ok a
      → f s ≡ some a
  unfolding transaction select_row
  query_value at op f s a h = ground arith

  pub gets_value :
      (at : Moment) (op : Op) (f : State → A) (s : State) (a : A)
      → (transaction at op (gets (λ t. ok (f t))) s).0 ≡ ok a
      → f s ≡ a
  unfolding transaction gets
  gets_value at op f s a h = ground arith

  pub lift_value : (r : Result A) (s : State) (a : A) → (lift r s).0 ≡ ok a → r ≡ ok a
  unfolding lift
  lift_value r s a h = h

  pub or_internal_value :
      (o : Option A) (s : State) (a : A) → (or_internal o s).0 ≡ ok a → o ≡ some a
  unfolding or_internal
  or_internal_value none s a h = ground arith
  or_internal_value (some b) s a h = ground arith

-- One step of a run that returned a value.
module _ {A B C : Type 0} (m : Exec A) (f : A → Exec B) (s : State) {b : B} {t : State} where
  pub after :
      (m >>= f) s ≡ (ok b, t)
      → ((a : A) (s' : State) → m s ≡ (ok a, s') → f a s' ≡ (ok b, t) → C)
      → C
  after h k = let (a, s', e, h') = bind_ok m f s h in k a s' e h'

  pub after_read :
      Reads m → (m >>= f) s ≡ (ok b, t) → ((a : A) → (m s).0 ≡ ok a → f a s ≡ (ok b, t) → C) → C
  after_read r h k =
      let (a, s', e, h') = bind_ok m f s h in
      k a (ap (λ p. p.0) e)
        (subst (λ (u : State). f a u ≡ (ok b, t)) (sym (ap (λ p. p.1) e) ∙ r.same s) h')

module _ {A C : Type 0} where
  pub after_guard :
      (b : Bool) (e : Error) (n : Exec A) (s : State) {a : A} {t : State}
      → (guard b e >> n) s ≡ (ok a, t)
      → (b ≡ true → n s ≡ (ok a, t) → C)
      → C
  after_guard b e n s h k = let (p, h') = guard_ok b e n s h in k p h'
