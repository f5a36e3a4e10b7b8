-- ===== src/Env.antt =====
-- What the program calls and does not implement: PostgreSQL (psycopg2), HTTP (requests), the task
-- broker (Celery), the cache (Redis), hashing and encryption, the settings, and the text of an
-- exception. Each is a parameter; the theorems name what they rely on.
mod Messages
pub use Messages.*
use mifos_test.Prelude.{true, [], ◌∷◌, none, some, ℕ, Bool, Text, List, Option}
use mifos_test.Exec.{Exn, Result}
use mifos_test.Models.{Role}

-- backend/tenant_manager/settings/base.py, as far as the code below reads it
pub record Settings : Type 0 where
  pub platform_base_domain : Text
  pub platform_admin_hosts : List Text
  -- HOST and PORT of the registry's own database
  pub registry_db_host : Text
  pub registry_db_port : ℕ
  pub pg_superuser_host : Text
  pub pg_superuser_name : Text
  pub pg_superuser_password : Text
  pub fineract_base_url : Text
  pub fineract_admin_username : Text
  pub fineract_admin_password : Text
  pub fineract_verify_ssl : Bool
  pub credential_encryption_key : Text
  pub rate_limit_per_minute : ℕ
  pub login_rate_limit_per_minute : ℕ
  pub default_from_email : Text

pub record Env : Type 1 where
  pub settings : Settings
  -- `str(exc)`
  pub exn_text : Exn → Text
  -- `str(id)` of a primary key
  pub id_text : ℕ → Text
  -- psycopg2: `connect`, and `cur.execute` with whether `cur.fetchone()` has a row
  pub Pg : Type 0
  pub pg_connect : Pg → Result (Unit {0})
  -- the cursor and its `execute` on the registry's own connection, `connections["default"]`
  pub registry_connect : Pg → Result (Unit {0})
  pub registry_execute : Statement → Pg → Result Bool × Pg
  pub pg_execute : Statement → Pg → Result Bool × Pg
  -- `requests.Session.request`
  pub Net : Type 0
  pub http_send : HttpRequest → Net → Reply × Net
  -- `task.delay(…)`
  pub Broker : Type 0
  pub broker_delay : Task → Broker → Result (Unit {0}) × Broker
  -- `django.core.cache.cache`: key, current time, and for `set` the value and the timeout
  pub Cache : Type 0
  pub cache_get : Text → ℕ → Cache → Result (Option ℕ)
  pub cache_set : Text → ℕ → ℕ → ℕ → Cache → Result (Unit {0}) × Cache
  pub cache_delete : Text → Cache → Result (Unit {0}) × Cache
  -- `secrets.token_urlsafe(n)`, by how many secrets were drawn before
  pub token_urlsafe : ℕ → ℕ → Text
  -- `django.contrib.auth.hashers.make_password` (by the same count, for its salt), `check_password`
  pub make_password : ℕ → Text → Text
  pub check_password : Text → Text → Bool
  -- Whether an `inet` column takes a text that is not empty
  pub is_inet : Text → Bool
  -- `BaseUserManager.normalize_email`
  pub normalize_email : Text → Text
  -- `django.utils.text.slugify`
  pub slugify : Text → Text
  -- `Fernet(key).encrypt` (by the same count, for its IV) and `decrypt`
  pub fernet_encrypt : Text → ℕ → Text → Result Text
  pub fernet_decrypt : Text → Text → Result Text
  -- `hashlib.sha256(raw.encode()).hexdigest()`
  pub sha256 : Text → Text
  -- simplejwt: `RefreshToken.for_user` with the claims of user, tenant and role (by the time, and
  -- by the count of secrets for its identifier), `access_token`, and the check of a raw token with
  -- its `blacklist()` at that time
  pub jwt_for_user : ℕ → Option ℕ → Role → ℕ → ℕ → Result Text
  pub jwt_access : Text → Text
  pub jwt_blacklist : Text → ℕ → Result (Unit {0})
  -- `socket.gethostbyname(name)`, by the time
  pub gethostbyname : Text → ℕ → Result (Unit {0})
  -- the disk: `os.makedirs(path, exist_ok=True)`, and `subprocess.run` of `pg_dump`
  pub Disk : Type 0
  pub makedirs : Text → Disk → Result (Unit {0}) × Disk
  pub run_pg_dump : PgDump → Disk → Result (Unit {0}) × Disk
  -- `date.today().isoformat()`, by the time
  pub today : ℕ → Text
  -- `send_mail(…)`, by the mails sent before
  pub Mailbox : Type 0
  pub send_mail : Mail → Mailbox → Result (Unit {0}) × Mailbox
  -- pyotp: `random_base32`, `provisioning_uri(name)`, and `verify(code, valid_window=1)` by secret
  -- and time
  pub random_base32 : ℕ → Text
  pub provisioning_uri : Text → Text → Text
  pub totp_verify : Text → Text → ℕ → Bool

-- Whether a `GenericIPAddressField` takes a value, the empty text being stored as NULL.
abbrev pub inet_fits : Env → Option Text → Bool
inet_fits env none = true
inet_fits env (some []) = true
inet_fits env (some (c ∷ cs)) = env.is_inet (c ∷ cs)
