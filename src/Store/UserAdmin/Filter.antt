-- ===== src/Store/UserAdmin/Filter.antt =====
-- internal/adapter/postgres/user_admin_repo.go: userFilterJoin and userFilterSQL. The text of a
-- condition is its column and the number of its placeholder; the numbers count from 1.
pub mod Laws
use kde_auth.Prelude.{
  ℕ, zero, suc, ◌+◌, String, Bool, true, false, Option, none, some, List, [], ◌∷◌, ◌++◌, ◌&&◌, not,
  ◌==◌, concat, exists, if◌then◌else◌,
}
use kde_auth.Domain.User.{User, UserAppAccess, status_text, role_text}
use kde_auth.Domain.UserStats.{UserListFilter}
use kde_auth.Port.{Deployment}
use kde_auth.State.{State}

-- a.client_id = $n, u.email ILIKE $n, u.status = $n, u.role = $n
pub data Column : Type 0 where
  app_client user_email user_status user_role : Column

pub record Part : Type 0 where
  pub column : Column
  pub placeholder : ℕ

pub data Arg : Type 0 where
  words : String → Arg
  amount : ℕ → Arg

-- The variables parts, args and n.
pub record Filter : Type 0 where
  pub parts : List Part
  pub args : List Arg
  pub n : ℕ

abbrev pub no_filter : Filter
no_filter = record { parts = []; args = []; n = 1 }

abbrev pub add_part : Bool → Column → String → Filter → Filter
add_part wanted column value f =
    if wanted
    then record {
      parts = f.parts ++ (record { column = column; placeholder = f.n }) ∷ [];
      args = f.args ++ words value ∷ [];
      n = f.n + 1;
    }
    else f

-- $n in a statement with the given arguments.
abbrev pub arg_at : ℕ → List Arg → Option Arg
arg_at n [] = none
arg_at zero (x ∷ xs) = none
arg_at (suc zero) (x ∷ xs) = some x
arg_at (suc (suc n)) (x ∷ xs) = arg_at (suc n) xs

abbrev pub amount_of : Option Arg → ℕ
amount_of (some (amount n)) = n
amount_of _ = 0

module _ (dep : Deployment) where
  unfoldable pub user_filter_sql : UserListFilter → Filter
  user_filter_sql filter =
      let q = dep.trim_space filter.query in
      add_part (not (filter.role == "")) user_role filter.role (
        add_part (not (filter.status == "")) user_status filter.status (
          add_part (not (q == "")) user_email (concat "%" (concat q "%"))
            (add_part (not (filter.client_id == "")) app_client filter.client_id no_filter)))

  -- Whether the condition holds of a user and of the joined row, where there is a join.
  abbrev pub compares : Column → String → User → Option UserAppAccess → Bool
  compares app_client v u none = false
  compares app_client v u (some a) = a.client_id == v
  compares user_email v u a = dep.ilike v u.email
  compares user_status v u a = status_text u.status == v
  compares user_role v u a = role_text u.role == v

  abbrev pub meets : Column → Option Arg → User → Option UserAppAccess → Bool
  meets column (some (words v)) u a = compares column v u a
  meets column _ u a = false

  abbrev pub meets_all : List Part → List Arg → User → Option UserAppAccess → Bool
  meets_all [] args u a = true
  meets_all (p ∷ parts) args u a =
      meets p.column (arg_at p.placeholder args) u a && meets_all parts args u a

  -- FROM users u (INNER JOIN user_app_accesses a ON a.user_id = u.id) WHERE ...; an account of
  -- several joined rows is one row of SELECT DISTINCT.
  unfoldable pub selected : UserListFilter → List Arg → State → User → Bool
  selected filter args s u =
      let parts = (user_filter_sql filter).parts in
      if filter.client_id == ""
      then meets_all parts args u none
      else exists (λ a. a.user_id == u.id && meets_all parts args u (some a)) s.accesses
