-- ===== src/Domain/RedirectList.antt =====
-- internal/domain/client.go: the list of redirect URIs and the Android package
pub mod Laws
use Prim.Native.Char.{code}
use kde_auth.Prelude.{
  String, Bool, true, false, Option, none, some, List, [], ◌∷◌, ◌++◌, ◌||◌, ◌&&◌, not, ◌==◌, concat,
  if◌then◌else◌,
}
use kde_auth.Domain.Errors.{Result, ok, err, validation_error, ◌>>=◌, ◌>>◌}
use kde_auth.Domain.Library.{Library, Url}
use kde_auth.Domain.Client.{OauthClient, contains}
use kde_auth.Domain.Scope.{eqb}

-- strings.Split(raw, "\n")
abbrev cons_line : List String → String → List String
cons_line [] line = line ∷ []
cons_line (l ∷ ls) line = line ∷ l ∷ ls

pub split_lines : String → String → List String
split_lines line String.[] = line ∷ []
split_lines line (String.◌∷◌ c s) = elim (eqb (code c) 10) [
  | true ↦ line ∷ split_lines "" s
  | false ↦ split_lines (concat line (String.◌∷◌ c String.[])) s
]

-- strings.ContainsAny(uri, " \t")
contains_blank : String → Bool
contains_blank String.[] = false
contains_blank (String.◌∷◌ c s) = (eqb (code c) 32 || eqb (code c) 9) || contains_blank s

-- The messages of the source also quote the URI.
abbrev not_absolute : Result (Unit {0})
not_absolute = err (validation_error "redirect_uris" "redirect URI must be absolute")

unfoldable check_scheme : String → Url → Result (Unit {0})
check_scheme scheme u =
    if scheme == "intent"
    then err (validation_error "redirect_uris" "register the app scheme, not an intent:// link")
    else if scheme == "javascript"
        || (scheme == "data" || (scheme == "file" || (scheme == "blob" || scheme == "vbscript")))
    then err (validation_error "redirect_uris" "redirect URI scheme is not allowed")
    else if (scheme == "http" || scheme == "https") && u.host == ""
    then not_absolute
    else ok tt

check_url : Library → Option Url → Result (Unit {0})
unfolding check_scheme
check_url lib none = not_absolute
check_url lib (some u) =
    if u.scheme == "" || (u.host == "" && (u.opaque == "" && u.path == ""))
    then not_absolute
    else if not (u.fragment == "")
    then err (validation_error "redirect_uris" "redirect URI must not include a fragment")
    else check_scheme (lib.to_lower u.scheme) u

unfoldable pub validate_redirect_uri : Library → String → Result (Unit {0})
unfolding check_url contains_blank
validate_redirect_uri lib uri =
    if contains_blank uri then not_absolute else check_url lib (lib.parse_url uri)

-- The loop of `ParseRedirectURIList`; the keys of the map `seen` are the URIs of `out`.
pub collect_uris : Library → List String → List String → Result (List String)
unfolding contains
collect_uris lib out [] = ok out
collect_uris lib out (line ∷ lines) =
    let uri = lib.trim_space line in
    let skip = collect_uris lib out lines in
    let keep = collect_uris lib (out ++ uri ∷ []) lines in
    if uri == ""
    then skip
    else do validate_redirect_uri lib uri; if contains out uri then skip else keep

abbrev pub require_uris : List String → Result (List String)
require_uris [] = err (validation_error "redirect_uris" "at least one redirect URI is required")
require_uris (u ∷ us) = ok (u ∷ us)

unfoldable pub parse_redirect_uri_list : Library → String → Result (List String)
unfolding collect_uris split_lines
parse_redirect_uri_list lib raw = do
  out ← collect_uris lib [] (split_lines "" raw)
  require_uris out

unfoldable pub parse_android_package : Library → String → Result String
parse_android_package lib raw =
    let pkg = lib.trim_space raw in
    if pkg == ""
    then ok ""
    else if not (lib.is_package pkg)
    then err (validation_error "android_package" "Android package must look like com.example.app")
    else ok pkg

-- strings.Join(c.RedirectURIs, "\n")
abbrev join_lines : List String → String
join_lines [] = ""
join_lines (l ∷ []) = l
join_lines (l ∷ m ∷ ls) = concat l (concat "\n" (join_lines (m ∷ ls)))

unfoldable pub redirect_uris_text : OauthClient → String
redirect_uris_text c = join_lines c.redirect_uris
