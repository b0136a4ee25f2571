-- ===== src/Store/UserAdmin/Paging.antt =====
-- List and Count of the administration agree.
use kde_auth.Prelude.{
  ℕ, zero, suc, ◌-◌, ◌≡◌, refl, sym, ap, ◌∙◌, Bool, some, List, [], ◌∷◌, ◌++◌, length, arith,
  if◌then◌else◌, insert_by, order_by, take, drop, count_where, select_where, leb,
}
use mathlib.Core.List.{append-nil}
use kde_auth.Domain.User.{User}
use kde_auth.Domain.UserStats.{UserListFilter}
use kde_auth.Port.{Deployment}
use kde_auth.State.{State}
use kde_auth.Store.UserAdmin.{newer, clamped_limit, list_args, page_of, count_of}
use kde_auth.Store.UserAdmin.Filter.{Arg, amount, arg_at, user_filter_sql, selected}
use kde_auth.Store.UserAdmin.Filter.Laws.{arg_at-append, selected-asked}

abbrev pub least : ℕ → ℕ → ℕ
least a b = if leb a b then a else b

module _ {ℓ} {A : Type ℓ} where
  length-take : (n : ℕ) (xs : List A) → length (take n xs) ≡ least n (length xs)
  length-take n [] = ground arith
  length-take zero (x ∷ xs) = ground arith
  length-take (suc n) (x ∷ xs) = ground (arith, length-take n xs)

  length-drop : (n : ℕ) (xs : List A) → length (drop n xs) ≡ length xs - n
  length-drop n [] = omega arith
  length-drop zero (x ∷ xs) = omega arith
  length-drop (suc n) (x ∷ xs) = ground (arith, length-drop n xs)

  length-insert_by :
      (before : A → A → Bool) (x : A) (xs : List A)
      → length (insert_by before x xs) ≡ suc (length xs)
  length-insert_by before x [] = refl
  length-insert_by before x (y ∷ ys) = ground (arith, length-insert_by before x ys)

  length-order_by : (before : A → A → Bool) (xs : List A) → length (order_by before xs) ≡ length xs
  length-order_by before [] = refl
  length-order_by before (x ∷ xs) =
      length-insert_by before x (order_by before xs) ∙ ap (λ n. suc n) (length-order_by before xs)

  length-select_where : (p : A → Bool) (xs : List A) → length (select_where p xs) ≡ count_where p xs
  length-select_where p [] = refl
  length-select_where p (x ∷ xs) = ground (arith, length-select_where p xs)

  length-append_two : (xs : List A) (x y : A) → length (xs ++ x ∷ y ∷ []) ≡ suc (suc (length xs))
  length-append_two [] x y = refl
  length-append_two (z ∷ xs) x y = ap (λ n. suc n) (length-append_two xs x y)

  count_where-ext :
      (p q : A → Bool) → ((a : A) → p a ≡ q a) → (xs : List A) → count_where p xs ≡ count_where q xs
  count_where-ext p q h [] = refl
  count_where-ext p q h (x ∷ xs) = rw (h x, count_where-ext p q h xs)

second_last : (n : ℕ) → suc (suc n) - 1 ≡ suc n
second_last n = omega arith

arg_at_last :
    (args : List Arg) (x y : Arg) → arg_at (suc (suc (length args))) (args ++ x ∷ y ∷ []) ≡ some y
arg_at_last [] x y = refl
arg_at_last (z ∷ args) x y = arg_at_last args x y

module _ (dep : Deployment) where
  -- The arguments of the list stand behind those of the filter, and fetch nothing of it.
  selected-count :
      (filter : UserListFilter) (s : State) (u : User)
      → selected dep filter (list_args dep filter) s u
        ≡ selected dep filter (user_filter_sql dep filter).args s u
  selected-count filter s u =
      selected-asked dep filter _ s u
      ∙ sym (selected-asked dep filter [] s u)
      ∙ ap (λ (args : List Arg). selected dep filter args s u) (append-nil _)

  -- A page of the list has as many accounts as the limit allows of those that the count counts and
  -- the offset leaves; a limit that is 0 or above 200 is read as 50.
  pub page_of-count_of :
      (filter : UserListFilter) (s : State)
      → length (page_of dep filter s)
        ≡ least (clamped_limit filter.limit) (count_of dep filter s - filter.offset)
  unfolding page_of count_of
  page_of-count_of filter s =
      let args = (user_filter_sql dep filter).args in
      let limit = amount (clamped_limit filter.limit) in
      let offset = amount filter.offset in
      rw
        (
          length-append_two args limit offset,
          second_last (length args),
          arg_at-append args limit (offset ∷ []),
          arg_at_last args limit offset,
        )
        (length-take (clamped_limit filter.limit) _
          ∙ ap (least (clamped_limit filter.limit)) (
              length-drop filter.offset _
              ∙ ap (λ n. n - filter.offset)
                  (length-order_by newer _
                    ∙ length-select_where _ s.users
                    ∙ count_where-ext _ _ (selected-count filter s) s.users)))
