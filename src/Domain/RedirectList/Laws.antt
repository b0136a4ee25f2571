-- ===== src/Domain/RedirectList/Laws.antt =====
-- What a parsed list of redirect URIs is.
use kde_auth.Prelude.{
  String, false, List, [], ◌∷◌, ◌++◌, ◌≡◌, ◌≢◌, refl, ◌==◌, Bool-cases, inl, inr, All, arith,
  eq_iff, subst,
}
use kde_auth.Prelude.Rows.{All-append}
use kde_auth.Domain.Errors.{Result, ok, err, ◌>>=◌}
use kde_auth.Domain.Library.{Library}
use kde_auth.Domain.Client.{contains}
use kde_auth.Domain.RedirectList.{
  validate_redirect_uri, collect_uris, split_lines, require_uris, parse_redirect_uri_list,
}

-- No text twice.
abbrev pub IsUnique : List String → Type 0
IsUnique [] = Unit
IsUnique (u ∷ us) = All (λ v. u ≢ v) us × IsUnique us

contains-All : (us : List String) (uri : String) → contains us uri ≡ false → All (λ v. v ≢ uri) us
unfolding contains
contains-All [] uri h = tt
contains-All (u ∷ us) uri h =
    ((λ e. ground (arith, (eq_iff u uri).1 e)), contains-All us uri (ground arith))

IsUnique-append :
    (us : List String) (uri : String)
    → All (λ v. v ≢ uri) us
    → IsUnique us
    → IsUnique (us ++ uri ∷ [])
IsUnique-append [] uri a u = (tt, tt)
IsUnique-append (v ∷ vs) uri a u =
    (All-append (λ w. v ≢ w) vs (uri ∷ []) u.0 (a.0, tt), IsUnique-append vs uri a.1 u.1)

abbrev pub IsRegistrable : Library → String → Type 0
IsRegistrable lib uri = validate_redirect_uri lib uri ≡ ok tt

result-ok :
    (lib : Library) (out uris : List String)
    → ok out ≡ ok uris
    → All (IsRegistrable lib) out
    → IsUnique out
    → All (IsRegistrable lib) uris × IsUnique uris
result-ok lib out uris h v u =
    subst (λ (us : List String). All (IsRegistrable lib) us × IsUnique us) (ground arith) (v, u)

collect_uris-lem :
    (lib : Library) (out lines uris : List String)
    → All (IsRegistrable lib) out
    → IsUnique out
    → collect_uris lib out lines ≡ ok uris
    → All (IsRegistrable lib) uris × IsUnique uris
unfolding collect_uris
collect_uris-lem lib out [] uris v u h = result-ok lib out uris h v u
collect_uris-lem lib out (line ∷ lines) uris v u h =
    let uri = lib.trim_space line in
    elim (Bool-cases (uri == "")) [
      | inl blank ↦ collect_uris-lem lib out lines uris v u (ground arith)
      | inr full ↦ elim (Bool-cases (contains out uri)) [
        | inl twice ↦ collect_uris-lem lib out lines uris v u (ground arith)
        | inr once ↦
            collect_uris-lem lib (out ++ uri ∷ []) lines uris
              (All-append (IsRegistrable lib) out (uri ∷ []) v (ground arith, tt))
              (IsUnique-append out uri (contains-All out uri once) u) (ground arith)
      ]
    ]

bind_ok :
    (r : Result (List String)) (f : List String → Result (List String)) (uris : List String)
    → (r >>= f) ≡ ok uris
    → (out : List String) × (r ≡ ok out) × (f out ≡ ok uris)
bind_ok (ok out) f uris h = (out, refl, h)
bind_ok (err e) f uris h = absurd (ground arith)

require_uris_ok : (out uris : List String) → require_uris out ≡ ok uris → (out ≡ uris) × (uris ≢ [])
require_uris_ok [] uris h = absurd (ground arith)
require_uris_ok (u ∷ us) uris h = (ground arith, λ e. ground arith)

-- A list of redirect URIs that is accepted is not empty, holds no URI twice, and holds only URIs
-- that may be registered.
pub parse_redirect_uri_list-ok :
    (lib : Library) (raw : String) (uris : List String)
    → parse_redirect_uri_list lib raw ≡ ok uris
    → (uris ≢ []) × All (IsRegistrable lib) uris × IsUnique uris
unfolding parse_redirect_uri_list
parse_redirect_uri_list-ok lib raw uris h =
    let (out, collected, required) =
      bind_ok (collect_uris lib [] (split_lines "" raw)) require_uris uris h in
    let (same, full) = require_uris_ok out uris required in
    let lawful = collect_uris-lem lib [] (split_lines "" raw) out tt tt collected in
    (full, subst (All (IsRegistrable lib)) same lawful.0, subst IsUnique same lawful.1)
