-- ===== src/Tests/Texts.antt =====
-- The limiter, the scopes and the redirect lists.
use kde_auth.RateLimit.Refinement.{Call, ask, hits, clearing, run, run_log, run-run_log, new-Tracks}
use kde_auth.Prelude.{
  ◌≡◌, ◌≢◌, ne_of_test, refl, String, List, [], ◌∷◌, arith, All, length, leb, ◌++◌, ◌&&◌,
}
use kde_auth.Domain.Errors.{ok, is_ok}
use kde_auth.Domain.Scope.{codes, parse_scope}
use kde_auth.Domain.Scope.Laws.{fields, all_known, has_openid, parse_scope-fields}
use kde_auth.Domain.RedirectList.{validate_redirect_uri, parse_redirect_uri_list}
use kde_auth.Domain.RedirectList.Laws.{IsRegistrable, IsUnique, parse_redirect_uri_list-ok}
use kde_auth.RateLimit.{Limiter, hits_of, too_many, hit, clear}
use kde_auth.RateLimit.Laws.{IsOrdered, recent, too_many-recent, hit-hits_of, clear-hits_of}
use kde_auth.Tests.Data.{library}

abbrev limiter : Limiter
limiter = record { max = 2; window = 60; hits = ("ip", 10 ∷ 50 ∷ 90 ∷ []) ∷ ("mail", 80 ∷ []) ∷ [] }

ordered : IsOrdered (hits_of "ip" limiter.hits)
unfolding hits_of
ordered = ((omega arith, (omega arith, tt)), ((omega arith, tt), (tt, tt)))

too_many-recent_example :
    (too_many limiter 100 ("ip" ∷ [])).0
    ≡ leb 2 (length (recent 60 100 (hits_of "ip" limiter.hits)))
too_many-recent_example =
    too_many-recent limiter 100 "ip" ordered (ne_of_test "ip" "" refl) (omega arith)

hit-hits_of_example :
    hits_of "ip" (hit limiter 100 ("ip" ∷ [])).hits
    ≡ recent 60 100 (hits_of "ip" limiter.hits) ++ 100 ∷ []
hit-hits_of_example =
    hit-hits_of limiter 100 "ip" "ip" ordered (ne_of_test "ip" "" refl) (omega arith)

parse_scope-fields_example :
    is_ok (parse_scope (codes " email  openid"))
    ≡ (all_known (fields (codes " email  openid")) && has_openid (fields (codes " email  openid")))
parse_scope-fields_example = parse_scope-fields (codes " email  openid")

abbrev accepted_uris : List String
accepted_uris = "https://a.example/" ∷ "https://b.example/" ∷ []

uris_run :
    parse_redirect_uri_list library "https://a.example/\n\nhttps://b.example/\nhttps://a.example/"
    ≡ ok accepted_uris
unfolding parse_redirect_uri_list validate_redirect_uri
uris_run = refl

parse_redirect_uri_list-ok_example :
    (accepted_uris ≢ []) × All (IsRegistrable library) accepted_uris × IsUnique accepted_uris
parse_redirect_uri_list-ok_example =
    parse_redirect_uri_list-ok library
      "https://a.example/\n\nhttps://b.example/\nhttps://a.example/" accepted_uris uris_run

clear-hits_of_example : hits_of "mail" (clear limiter ("ip" ∷ "login" ∷ [])).hits ≡ 80 ∷ []
unfolding hits_of
clear-hits_of_example = clear-hits_of limiter ("ip" ∷ "login" ∷ []) "mail"

abbrev calls : List Call
calls =
    hits 100 ("ip:a" ∷ [])
    ∷ ask 110 ("ip:a" ∷ [])
    ∷ clearing ("ip:a" ∷ [])
    ∷ ask 120 ("ip:a" ∷ [])
    ∷ []

run-run_log_example :
    run calls (record { max = 1; window = 900; hits = [] }) ≡ run_log 1 900 calls (λ k. [])
run-run_log_example =
    run-run_log calls 0 (record { max = 1; window = 900; hits = [] }) (λ k. []) (omega arith)
      (omega arith, (omega arith, (omega arith, tt))) (new-Tracks 1 900)
