-- ===== src/Scenarios/Serving.antt =====
-- A request on its way through the middleware.
use mifos_test.Prelude.{ℕ, zero, suc, ◌≡◌, refl, true, none, some, [], ◌∷◌, text, same_text, lower}
use mifos_test.Exec.{Exec, ok, pure}
use mifos_test.World.{World}
use mifos_test.Http.{Request, Response, view_response}
use mifos_test.Authentication.{too_many_requests}
use mifos_test.Middleware.{serve, secured, has_header}
use mifos_test.Middleware.Order.{Served, serve-Served}
use mifos_test.Scenarios.Toy.{toy}
use mifos_test.Scenarios.Resolve.{online, members, online-CacheHolds}

-- A view that answers 200 to a request with a tenant, and 500 to one without.
abbrev listing : Request → Exec (World (toy true)) Response
listing req = elim req.tenant [
  | none ↦ pure (view_response 500)
  | some t ↦ pure (view_response 200)
]

served_once : (serve listing (text "GET") none members online).0 ≡ ok (view_response 200)
unfolding serve
served_once = refl

-- The toy's limit is three requests a minute.
after : ℕ → World (toy true)
after zero = online
after (suc n) = (serve listing (text "GET") none members (after n)).1

fourth_refused : (serve listing (text "GET") none members (after 3)).0 ≡ ok too_many_requests
unfolding after serve
fourth_refused = refl

-- A header that the view has set stays as it is.
own_header :
    has_header (text "x-frame-options") (secured ((text "X-FRAME-OPTIONS", text "SAMEORIGIN") ∷ []))
    ≡ true
unfolding secured lower same_text
own_header = refl

serve-Served_example :
    Served listing (text "GET") none members online (serve listing (text "GET") none members online)
serve-Served_example = serve-Served listing (text "GET") none members online online-CacheHolds
