-- ===== src/Http.antt =====
-- Requests and responses, as far as the middleware reads and builds them.
use mifos_test.Prelude.{ℕ, Bool, true, false, Option, none, some, [], ◌∷◌, Text, split_first, strip}
use mifos_test.Exec.{Exec, pure}
use mifos_test.Json.{Json}
use mifos_test.Models.{Tenant}

-- `request.path`, `request.get_host()`, `request.META` and the tenant that is attached.
pub record Request : Type 0 where
  pub path : Text
  pub host : Text
  pub forwarded_for : Option Text
  pub remote_addr : Option Text
  pub tenant : Option Tenant

-- A JSON error with its code and message, the page that shows a message, a page or an answer whose
-- content is left out, a JSON answer, or a redirection.
pub data Response : Type 0 where
  json_error : ℕ → Text → Text → Response
  error_page : ℕ → Text → Response
  view_response : ℕ → Response
  json_reply : ℕ → Json → Response
  redirect : Text → Response

-- The client's address: the first of `X-Forwarded-For`, else the peer's.
unfoldable pub get_client_ip : Request → Option Text
get_client_ip req = elim req.forwarded_for [
  | none ↦ req.remote_addr
  | some [] ↦ req.remote_addr
  | some (c ∷ s) ↦ some (strip (split_first b',' (c ∷ s)))
]

-- What the REST framework answers by itself: to a request that a permission class refuses, where
-- `get_object` finds no row, and to data that a serializer refuses.
pub record Framework : Type 0 where
  pub denied : Response
  pub missing : Response
  pub invalid : Response
  -- what the throttle of a scope answers, where it does not let the request through
  pub throttled : Text → Option Response

module _ {S : Type 0} where
  -- `permission_classes`, checked before the view runs
  abbrev pub permitted : Bool → Response → Exec S Response → Exec S Response
  permitted true denied view = view
  permitted false denied view = pure denied

  -- `throttle_scope`, checked before the view runs
  abbrev pub unless_throttled : Option Response → Exec S Response → Exec S Response
  unless_throttled none view = view
  unless_throttled (some r) view = pure r

  -- A value that has to be there, or the answer that is given at once.
  abbrev pub given : {A : Type 0} → Option A → Response → (A → Exec S Response) → Exec S Response
  given none answer view = pure answer
  given (some a) answer view = view a
