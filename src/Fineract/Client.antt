-- ===== src/Fineract/Client.antt =====
-- backend/fineract_gateway/client.py
use mifos_test.Prelude.{
  ℕ, Bool, ◌&&◌, Option, none, some, Text, text, ◌++◌, leb, ◌==◌, if◌then◌else◌, rstrip,
}
use mifos_test.Json.{Json, str, obj, Fields, end}
use mifos_test.Exec.{fineract_timeout, fineract_api_error, external, Result, ok, err, Exec}
use mifos_test.Env.{
  Env, Settings, Method, get, post, put, HttpRequest, Content, empty, json, plain, Reply, timed_out,
  broken, response,
}
use mifos_test.World.{World}

-- `base_url`, `tenant_identifier`, `auth` and `timeout` of a client; its retries are in `http_send`
pub record FineractClient : Type 0 where
  pub base_url : Text
  pub tenant_identifier : Text
  pub username : Text
  pub password : Text
  pub timeout : ℕ

-- `FineractClient(tenant_identifier, username, password)`
unfoldable pub fineract_client : Settings → Text → Text → Text → FineractClient
fineract_client settings tenant_identifier username password = record {
  base_url = rstrip (λ c. c == b'/') settings.fineract_base_url;
  tenant_identifier = tenant_identifier;
  username = username;
  password = password;
  timeout = 10;
}

-- `response.json()`, or `response.text` where that is no JSON
abbrev payload : Content → Json
payload empty = str (text "")
payload (json j) = j
payload (plain t) = str t

-- `resp.json() if resp.content else {}`
abbrev decoded : Content → Result Json
decoded empty = ok (obj end)
decoded (json j) = ok j
decoded (plain t) = err (external t)

-- `raise_for_status` raises for the statuses 400 to 599.
abbrev is_error_status : ℕ → Bool
is_error_status code = leb 400 code && leb code 599

-- How `request` ends, by the reply: a timeout and an HTTP error get exceptions of their own.
unfoldable pub interpret : Text → Reply → Result Json
interpret path timed_out = err (fineract_timeout path)
interpret path (broken message) = err (external message)
interpret path (response code content) =
    if is_error_status code
    then err (fineract_api_error code (payload content))
    else decoded content

-- `timeout or self.timeout`
abbrev effective_timeout : Option ℕ → ℕ → ℕ
effective_timeout none own = own
effective_timeout (some t) own = if t == 0 then own else t

-- The request that a client sends: it always has the client's tenant in its header.
unfoldable pub outgoing :
    Settings → FineractClient → Method → Text → Option ℕ → Fields → Option Json → HttpRequest
outgoing settings client method path timeout params body = record {
  method = method;
  url = client.base_url ++ path;
  tenant_header = client.tenant_identifier;
  username = client.username;
  password = client.password;
  params = params;
  body = body;
  timeout = effective_timeout timeout client.timeout;
  verify = settings.fineract_verify_ssl;
}

module _ {env : Env} (client : FineractClient) where
  unfoldable pub request : Method → Text → Option ℕ → Fields → Option Json → Exec (World env) Json
  unfolding interpret outgoing
  request method path timeout params body w =
      let (reply, net) =
        env.http_send (outgoing env.settings client method path timeout params body) w.net in
      (interpret path reply, record w { net = net })

  unfoldable pub get_json : Text → Fields → Exec (World env) Json
  unfolding request
  get_json path params = request get path none params none

  unfoldable pub post_json : Text → Json → Exec (World env) Json
  unfolding request
  post_json path body = request post path none end (some body)

  unfoldable pub put_json : Text → Json → Exec (World env) Json
  unfolding request
  put_json path body = request put path none end (some body)
