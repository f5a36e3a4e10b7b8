-- ===== src/Scenarios/Reinstating.antt =====
-- A suspended tenant is activated through the interface, and its members come back.
use mifos_test.Prelude.{◌≡◌, refl, some, none, [], text, true}
use mifos_test.Exec.{ok}
use mifos_test.Exec.Post.{Post}
use mifos_test.World.{World}
use mifos_test.Http.{view_response}
use mifos_test.Tenants.{resolve, suspend, pass, normalize, is_platform}
use mifos_test.Tenants.Suspension.{suspended, activated}
use mifos_test.Tenants.Isolation.{CacheHolds}
use mifos_test.Tenants.Direct.{CacheRaised}
use mifos_test.Authentication.{super_admin_only}
use mifos_test.Api.{activate_view}
use mifos_test.Api.Reinstating.{activate_view-Serves}
use mifos_test.Scenarios.Toy.{toy}
use mifos_test.Scenarios.Resolve.{online, members, ready_imara}
use mifos_test.Scenarios.Api.{drf, root}

abbrev closed : World (toy true)
closed = (suspend ready_imara (text "fraud") none online).1

abbrev reopened : World (toy true)
reopened = record (activate_view drf root 1 closed).1 { now = 1100; cache = [] }

reopened-CacheHolds : CacheHolds reopened
reopened-CacheHolds = record { holds = λ host id e. absurd (cc e) }

activate_view-Serves_example :
    ((activate_view drf root 1 closed).0 ≡ ok (view_response 200))
    × Post
        (resolve members reopened)
        (λ verdict _. verdict ≡ pass (some (activated (suspended ready_imara (text "fraud") 1000))))
        (λ e _. CacheRaised (normalize members.host) reopened e)
unfolding super_admin_only suspend is_platform
activate_view-Serves_example =
    activate_view-Serves drf root 1 (suspended ready_imara (text "fraud") 1000) closed members 1100
      [] refl refl refl (_, refl, refl) reopened-CacheHolds
