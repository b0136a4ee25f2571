-- ===== src/Store/UserAdmin/Filter/Laws.antt =====
-- The statement that is built tests what the filter asks for.
use kde_auth.Prelude.{
  suc, ◌≡◌, refl, ap, ◌∙◌, ◌||◌, ◌&&◌, not, ◌==◌, String, Bool, true, false, Option, some, none,
  concat, List, [], ◌∷◌, ◌++◌, length, arith, Bool-cases, inl, inr, if◌then◌else◌, exists,
}
use mathlib.Core.List.{append_assoc}
use kde_auth.Domain.User.{User, UserAppAccess, status_text, role_text}
use kde_auth.Domain.UserStats.{UserListFilter}
use kde_auth.Port.{Deployment}
use kde_auth.State.{State}
use kde_auth.Store.UserAdmin.Filter.{
  selected, Arg, words, Part, Filter, Column, app_client, user_email, user_status, user_role,
  no_filter, add_part, arg_at, meets, meets_all, compares, user_filter_sql,
}

pub arg_at-append :
    (args : List Arg) (x : Arg) (more : List Arg)
    → arg_at (suc (length args)) (args ++ x ∷ more) ≡ some x
arg_at-append [] x more = refl
arg_at-append (y ∷ args) x more = arg_at-append args x more

-- The next placeholder is the one behind the arguments so far.
abbrev pub IsNumbered : Filter → Type 0
IsNumbered f = f.n ≡ suc (length f.args)

length-append_one : (args : List Arg) (x : Arg) → length (args ++ x ∷ []) ≡ suc (length args)
length-append_one [] x = refl
length-append_one (y ∷ args) x = ground (arith, length-append_one args x)

pub add_part-IsNumbered :
    (wanted : Bool) (column : Column) (v : String) (f : Filter)
    → IsNumbered f
    → IsNumbered (add_part wanted column v f)
add_part-IsNumbered true column v f h = ground (arith, length-append_one f.args (words v))
add_part-IsNumbered false column v f h = h

abbrev pub with_arg : Bool → String → List Arg → List Arg
with_arg wanted v more = if wanted then words v ∷ more else more

module _ (dep : Deployment) (u : User) (a : Option UserAppAccess) where
  meets_all-append :
      (ps qs : List Part) (args : List Arg)
      → meets_all dep (ps ++ qs) args u a ≡ (meets_all dep ps args u a && meets_all dep qs args u a)
  meets_all-append [] qs args = refl
  meets_all-append (p ∷ ps) qs args =
      elim (Bool-cases (meets dep p.column (arg_at p.placeholder args) u a)) [
        | inl holds ↦ rw (holds, meets_all-append ps qs args)
        | inr fails ↦ rw fails
      ]

  and_true : (x y : Bool) → (x && (y && true)) ≡ (x && y)
  and_true x y = ground arith

  add_part-meets_all :
      (wanted : Bool) (column : Column) (v : String) (f : Filter) (more : List Arg)
      → IsNumbered f
      → let g = add_part wanted column v f in
        meets_all dep g.parts (g.args ++ more) u a ≡ (
          meets_all dep f.parts (f.args ++ with_arg wanted v more) u a
          && (not wanted || compares dep column v u a))
  add_part-meets_all true column v f more h = rw (append_assoc f.args (words v ∷ []) more) (
      rw
        (meets_all-append f.parts ((record { column = column; placeholder = f.n }) ∷ [])
          (f.args ++ words v ∷ more))
        (rw (h, arg_at-append f.args (words v) more) (and_true _ _)))
  add_part-meets_all false column v f more h = ground arith

  -- One part more asks for one condition more.
  add_part_met :
      (wanted : Bool) (column : Column) (v : String) (f : Filter) (more : List Arg) (b : Bool)
      → IsNumbered f
      → meets_all dep f.parts (f.args ++ with_arg wanted v more) u a ≡ b
      → meets_all dep
          (add_part wanted column v f).parts
          ((add_part wanted column v f).args ++ more)
          u
          a
        ≡ (b && (not wanted || compares dep column v u a))
  add_part_met wanted column v f more b n h =
      add_part-meets_all wanted column v f more n
      ∙ ap (λ (x : Bool). x && (not wanted || compares dep column v u a)) h

pub reorder :
    (c q s r c' q' s' r' : Bool)
    → ((((true && (not (not c) || c')) && (not (not q) || q')) && (not (not s) || s'))
        && (not (not r) || r'))
      ≡ ((c || c') && ((q || q') && ((s || s') && (r || r'))))
reorder c q s r c' q' s' r' = ground arith

pub exists-ext {ℓ} :
    {A : Type ℓ} (p q : A → Bool)
    → ((a : A) → p a ≡ q a)
    → (xs : List A) → exists p xs ≡ exists q xs
exists-ext p q h [] = refl
exists-ext p q h (x ∷ xs) = rw (h x, exists-ext p q h xs)

module _ (dep : Deployment) where
  -- What the fields of the filter ask of a user and the row that is joined, if there is a join.
  abbrev pub asked : UserListFilter → User → Option UserAppAccess → Bool
  asked filter u a =
      (filter.client_id == "" || compares dep app_client filter.client_id u a)
      && ((dep.trim_space filter.query == ""
            || dep.ilike (concat "%" (concat (dep.trim_space filter.query) "%")) u.email)
          && ((filter.status == "" || status_text u.status == filter.status)
              && (filter.role == "" || role_text u.role == filter.role)))

  user_filter_sql-asked :
      (filter : UserListFilter) (more : List Arg) (u : User) (a : Option UserAppAccess)
      → meets_all dep
          (user_filter_sql dep filter).parts
          ((user_filter_sql dep filter).args ++ more)
          u
          a
        ≡ asked filter u a
  unfolding user_filter_sql
  user_filter_sql-asked filter more u a =
      let client = filter.client_id == "" in
      let status = filter.status == "" in
      let role = filter.role == "" in
      let q = dep.trim_space filter.query in
      let pattern = concat "%" (concat q "%") in
      let f₁ = add_part (not client) app_client filter.client_id no_filter in
      let n₁ = add_part-IsNumbered (not client) app_client filter.client_id no_filter refl in
      let f₂ = add_part (not (q == "")) user_email pattern f₁ in
      let n₂ = add_part-IsNumbered (not (q == "")) user_email pattern f₁ n₁ in
      let f₃ = add_part (not status) user_status filter.status f₂ in
      let n₃ = add_part-IsNumbered (not status) user_status filter.status f₂ n₂ in
      let m₃ = with_arg (not role) filter.role more in
      let m₂ = with_arg (not status) filter.status m₃ in
      let m₁ = with_arg (not (q == "")) pattern m₂ in
      let add = add_part_met dep u a in
      add (not role) user_role filter.role f₃ more _ n₃ (
        add (not status) user_status filter.status f₂ m₃ _ n₂ (
          add (not (q == "")) user_email pattern f₁ m₂ _ n₁
            (add (not client) app_client filter.client_id no_filter m₁ true refl refl)))
      ∙ reorder client (q == "") status role (compares dep app_client filter.client_id u a)
          (dep.ilike pattern u.email) (status_text u.status == filter.status)
          (role_text u.role == filter.role)

  -- An account is selected exactly where it has a row of the application that the filter names, if
  -- it names one, and meets each of the other fields that is not empty: the numbered placeholders
  -- of the statement fetch the arguments that belong to them, whatever arguments stand behind those
  -- of the filter.
  pub selected-asked :
      (filter : UserListFilter) (more : List Arg) (s : State) (u : User)
      → selected dep filter ((user_filter_sql dep filter).args ++ more) s u ≡ (
          if filter.client_id == ""
          then asked filter u none
          else exists (λ a. a.user_id == u.id && asked filter u (some a)) s.accesses)
  unfolding selected
  selected-asked filter more s u = λ i.
      if filter.client_id == ""
      then user_filter_sql-asked filter more u none i
      else exists-ext _ _
          (λ a.
            ap (λ (b : Bool). a.user_id == u.id && b)
              (user_filter_sql-asked filter more u (some a)))
          s.accesses i
