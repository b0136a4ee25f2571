-- ===== src/Exec/Keeps.antt =====
-- Properties of the state that an action keeps, whether it returns or fails.
use kde_auth.Prelude.{◌≡◌, refl, subst, sym, Bool, true, false, Option, none, some, if◌then◌else◌}
use kde_auth.Domain.Errors.{Error, Result, ok, err}
use kde_auth.State.{State}
use kde_auth.Port.{Op, Moment}
use kde_auth.Exec.{
  Exec, pure, raise, lift, gets, or_error, if_not_found, transaction, or_internal, select_row,
  write, guard, ignore, attempt, ◌>>=◌, continue, commit_if_ok,
}
use kde_auth.Exec.Reads.{Reads}

pub record Keeps {A : Type 0} (P : State → Type 0) (m : Exec A) : Type 0 where
  pub at : (s : State) → P s → P (m s).1

module _ {A : Type 0} (P : State → Type 0) where
  commit_keeps : (r : Result A) (s t : State) → P s → P t → P (commit_if_ok s (r, t)).1
  commit_keeps (ok a) s t hs ht = ht
  commit_keeps (err e) s t hs ht = hs

  transaction_keeps :
      (b : Bool) (s : State) (p : Result A × State)
      → P s
      → P p.1
      → P (if b then (err Error.internal, s) else commit_if_ok s p).1
  transaction_keeps true s p hs hp = hs
  transaction_keeps false s (r, t) hs hp = commit_keeps r s t hs hp

module _ {A : Type 0} {P : State → Type 0} where
  pub Keeps-Reads : (m : Exec A) → Reads m → Keeps P m
  Keeps-Reads m r = record { at = λ s h. subst P (sym (r.same s)) h }

  pub Keeps-lift : (r : Result A) → Keeps P (lift r)
  unfolding lift
  Keeps-lift r = record { at = λ _ kept. kept }

  pub Keeps-pure : (a : A) → Keeps P (pure a)
  unfolding pure
  Keeps-pure a = record { at = λ s p. p }

  pub Keeps-raise : (e : Error) → Keeps P (raise {A = A} e)
  unfolding raise
  Keeps-raise e = record { at = λ _ kept. kept }

  pub Keeps-select_row : (f : State → Option A) → Keeps P (select_row f)
  unfolding select_row
  Keeps-select_row f = record { at = λ _ kept. kept }

  pub Keeps-gets : (f : State → Result A) → Keeps P (gets f)
  unfolding gets
  Keeps-gets f = record { at = λ _ kept. kept }

  pub Keeps-or_internal : (o : Option A) → Keeps P (or_internal o)
  unfolding or_internal
  Keeps-or_internal none = record { at = λ _ kept. kept }
  Keeps-or_internal (some a) = record { at = λ _ kept. kept }

  pub Keeps-or_error : (e : Error) (m : Exec A) → Keeps P m → Keeps P (or_error e m)
  unfolding or_error
  Keeps-or_error e m k = record { at = k.at }

  pub Keeps-if_not_found : (e : Error) (m : Exec A) → Keeps P m → Keeps P (if_not_found e m)
  unfolding if_not_found
  Keeps-if_not_found e m k = record { at = k.at }

  pub Keeps-transaction :
      (at : Moment) (op : Op) (m : Exec A) → Keeps P m → Keeps P (transaction at op m)
  unfolding transaction
  Keeps-transaction at op m k = record {
    at = λ s h. transaction_keeps P (at.fails op) s (m s) h (k.at s h);
  }

  pub Keeps-ignore : (m : Exec A) → Keeps P m → Keeps P (ignore m)
  unfolding ignore
  Keeps-ignore m k = record { at = k.at }

  pub Keeps-attempt : (m : Exec A) → Keeps P m → Keeps P (attempt m)
  unfolding attempt
  Keeps-attempt m k = record { at = k.at }

  pub Keeps-if : (b : Bool) (m n : Exec A) → Keeps P m → Keeps P n → Keeps P (if b then m else n)
  Keeps-if true m n km kn = km
  Keeps-if false m n km kn = kn

module _ {P : State → Type 0} where
  pub Keeps-guard : (b : Bool) (e : Error) → Keeps P (guard b e)
  unfolding guard
  Keeps-guard true e = record { at = λ _ kept. kept }
  Keeps-guard false e = record { at = λ _ kept. kept }

  pub Keeps-write : (f : State → State) → ((s : State) → P s → P (f s)) → Keeps P (write f)
  unfolding write
  Keeps-write f k = record { at = k }

module _ {A B : Type 0} {P : State → Type 0} where
  continue_keeps :
      (r : Result A) (f : A → Exec B) (s : State)
      → ((a : A) → Keeps P (f a))
      → P s
      → P (continue r f s).1
  continue_keeps (ok a) f s k h = (k a).at s h
  continue_keeps (err e) f s k h = h

  pub Keeps-bind :
      (m : Exec A) (f : A → Exec B) → Keeps P m → ((a : A) → Keeps P (f a)) → Keeps P (m >>= f)
  unfolding ◌>>=◌
  Keeps-bind m f km kf = record { at = λ s h. continue_keeps (m s).0 f (m s).1 kf (km.at s h) }

  -- The rest of the block may use which value was drawn.
  pub Keeps-draw :
      (o : Option A) (f : A → Exec B)
      → ((a : A) → o ≡ some a → Keeps P (f a))
      → Keeps P (or_internal o >>= f)
  unfolding ◌>>=◌
  Keeps-draw none f k = record { at = λ _ kept. kept }
  Keeps-draw (some a) f k = record { at = (k a refl).at }

pub ruleset keeps_rules = (
  Keeps-pure, Keeps-raise, Keeps-lift, Keeps-gets, Keeps-select_row, Keeps-or_internal,
  Keeps-or_error, Keeps-if_not_found, Keeps-transaction, Keeps-ignore, Keeps-attempt, Keeps-if,
  Keeps-guard, Keeps-bind,
)
