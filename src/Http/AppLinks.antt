-- ===== src/Http/AppLinks.antt =====
-- internal/adapter/http/handler/authorize_redirect.go
use Prim.Native.String.{len, find}
use kde_auth.Prelude.{
  String, Bool, false, Option, none, some, ◌==◌, ◌&&◌, ◌||◌, not, leb, concat, if◌then◌else◌,
}
use kde_auth.Domain.Library.{Library, Url}

-- strings.Contains
abbrev pub contains_text : String → String → Bool
contains_text s part = leb (find s part) (len s)

abbrev pub is_web_scheme : String → Bool
is_web_scheme scheme = scheme == "" || (scheme == "http" || scheme == "https")

module _ (lib : Library) where
  abbrev pub has_custom_scheme : Option Url → Bool
  has_custom_scheme none = false
  has_custom_scheme (some u) = not (is_web_scheme (lib.to_lower u.scheme))

  unfoldable pub uses_custom_redirect_scheme : String → Bool
  uses_custom_redirect_scheme redirect_url = has_custom_scheme (lib.parse_url redirect_url)

  unfoldable pub is_android_user_agent : String → Bool
  is_android_user_agent user_agent = contains_text (lib.to_lower user_agent) "android"

  -- The link that is built for a URL with a custom scheme.
  abbrev pub intent_link : Url → String → String
  intent_link u android_package = concat "intent://" (
      concat u.host (
        concat u.path (
          concat (if u.raw_query == "" then "" else concat "?" u.raw_query) (
            concat "#Intent;scheme="
              (concat u.scheme (concat ";package=" (concat android_package ";end")))))))

  abbrev link_of : String → String → Option Url → Option String
  link_of custom_redirect android_package none = none
  link_of custom_redirect android_package (some u) =
      if is_web_scheme (lib.to_lower u.scheme)
      then some custom_redirect
      else some (intent_link u android_package)

  -- `none` is the error of the source.
  unfoldable pub android_intent_url : String → String → Option String
  android_intent_url custom_redirect android_package =
      if android_package == ""
      then some custom_redirect
      else link_of custom_redirect android_package (lib.parse_url custom_redirect)

  abbrev or_same : String → Option String → String
  or_same url none = url
  or_same url (some intent) = intent

  unfoldable pub app_open_redirect_url :
      (user_agent custom_redirect android_package : String) → String
  app_open_redirect_url user_agent custom_redirect android_package =
      if not (uses_custom_redirect_scheme custom_redirect)
      then custom_redirect
      else if is_android_user_agent user_agent && not (android_package == "")
      then or_same custom_redirect (android_intent_url custom_redirect android_package)
      else custom_redirect
