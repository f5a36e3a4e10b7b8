-- ===== src/Scenarios/Toy.antt =====
-- A concrete environment. PostgreSQL is two lists of names, Fineract answers each request with
-- one office or fails, the broker and the cache are lists, and hashing marks its input.
use mifos_test.Prelude.{
  lower, ◌==◌, ℕ, ◌+◌, not, Bool, true, false, Option, none, some, List, [], ◌∷◌, ◌++◌, Text, text,
  ltb, if◌then◌else◌, same_text, exists, keep, is_nonempty,
}
use mifos_test.Json.{Json, num, str, arr, obj, nil, cons, end, field}
use mifos_test.Exec.{Exn, external, token_error, gaierror, Result, ok, err}
use mifos_test.Models.{Organization, OrgType, Tenant, TenantStatus, ProvisionJob, Step, User, Role}
use mifos_test.Env.{
  Env, Settings, Statement, Task, Mail, HttpRequest, Content, Reply, broken, response, select_role,
  select_database, create_role, create_database, create_own_database, grant_all, drop_database,
  drop_role,
}
use mifos_test.World.{World}

pub record Server : Type 0 where
  pub roles : List Text
  pub databases : List Text

abbrev pub has : Text → List Text → Bool
has name names = exists (same_text name) names

abbrev without : Text → List Text → List Text
without name names = keep (λ n. not (same_text name n)) names

abbrev answer : Statement → Server → Result Bool × Server
answer (select_role r) pg = (ok (has r pg.roles), pg)
answer (select_database d) pg = (ok (has d pg.databases), pg)
answer (create_role r password) pg =
    if has r pg.roles
    then (err (external (text "role exists")), pg)
    else (ok false, record pg { roles = r ∷ pg.roles })
answer (create_database d owner) pg =
    if has d pg.databases
    then (err (external (text "database exists")), pg)
    else (ok false, record pg { databases = d ∷ pg.databases })
answer (create_own_database d) pg =
    if has d pg.databases
    then (err (external (text "database already exists")), pg)
    else (ok false, record pg { databases = d ∷ pg.databases })
answer (grant_all d r) pg = (ok false, pg)
answer (drop_database d) pg = (ok false, record pg { databases = without d pg.databases })
answer (drop_role r) pg = (ok false, record pg { roles = without r pg.roles })

abbrev accept : Bool → Server → Result (Unit {0})
accept up pg = if up then ok tt else err (external (text "connection refused"))

abbrev the_only : Json
the_only =
    arr (
      cons (obj (field (text "id") (num 1) (field (text "name") (str (text "Super User")) end)))
        nil)

-- The network state says whether Fineract answers, and how many requests were made.
abbrev reply_to : HttpRequest → Bool × ℕ → Reply × (Bool × ℕ)
reply_to request (up, n) =
    (if up then response 200 (Content.json the_only) else broken (text "unreachable"), (up, n + 1))

abbrev Entries : Type 0
Entries = List (Text × ℕ × ℕ)

abbrev pub cache_lookup : Text → ℕ → Entries → Option ℕ
cache_lookup key now [] = none
cache_lookup key now ((k, v, ends) ∷ rest) =
    if same_text k key then (if ltb now ends then some v else none) else cache_lookup key now rest

abbrev pub toy_settings : Settings
toy_settings = record {
  platform_base_domain = text "bank.example";
  platform_admin_hosts = text "bank.example" ∷ text "admin.bank.example" ∷ text "localhost" ∷ [];
  registry_db_host = text "db0";
  registry_db_port = 5432;
  pg_superuser_host = text "db1";
  pg_superuser_name = text "postgres";
  pg_superuser_password = text "root";
  fineract_base_url = text "https://fineract/";
  fineract_admin_username = text "mifos";
  fineract_admin_password = text "secret";
  fineract_verify_ssl = true;
  credential_encryption_key = text "key";
  rate_limit_per_minute = 3;
  login_rate_limit_per_minute = 2;
  default_from_email = text "no-reply";
}

abbrev toy_exn_text : Exn → Text
toy_exn_text (external t) = t
toy_exn_text _ = text "error"

-- A token is its text behind a mark.
abbrev without_mark : Text → Text
without_mark [] = []
without_mark (c ∷ s) = s

-- The flag says whether PostgreSQL accepts connections.
abbrev pub toy : Bool → Env
toy pg_up = record {
  settings = toy_settings;
  exn_text = toy_exn_text;
  id_text = λ n. n ∷ [];
  Pg = Server;
  pg_connect = accept pg_up;
  pg_execute = answer;
  registry_execute = answer;
  registry_connect = accept pg_up;
  Net = Bool × ℕ;
  http_send = reply_to;
  Broker = List Task;
  broker_delay = λ task queue. (ok tt, queue ++ task ∷ []);
  Cache = Entries;
  cache_get = λ key now c. ok (cache_lookup key now c);
  cache_set = λ key now v timeout c. (ok tt, (key, v, now + timeout) ∷ c);
  cache_delete = λ key c. (ok tt, (key, 0, 0) ∷ c);
  token_urlsafe = λ n draws. n ∷ draws ∷ [];
  make_password = λ salt raw. text "#" ++ raw;
  check_password = λ raw hash. same_text (text "#" ++ raw) hash;
  is_inet = λ t. exists (λ c. c == b'.') t;
  normalize_email = λ email. email;
  slugify = λ t. keep (λ c. not (c == 32)) (lower t);
  fernet_encrypt = λ key iv raw. ok (b'~' ∷ raw);
  fernet_decrypt = λ key token. ok (without_mark token);
  sha256 = λ raw. text "h" ++ raw;
  jwt_for_user = λ user tenant role now draws. ok (user ∷ now ∷ draws ∷ []);
  jwt_access = λ refresh. text "a" ++ refresh;
  jwt_blacklist = λ raw now. err (token_error (text "expired"));
  gethostbyname = λ name now. if is_nonempty name then ok tt else err gaierror;
  Disk = List Text;
  makedirs = λ path disk. (ok tt, path ∷ disk);
  run_pg_dump = λ command disk. (ok tt, command.file ∷ disk);
  today = λ now. text "2026-05-01";
  Mailbox = List Mail;
  send_mail = λ mail box. (ok tt, box ++ mail ∷ []);
  random_base32 = λ draws. draws ∷ [];
  provisioning_uri = λ secret name. secret ++ name;
  totp_verify = λ secret code now. same_text secret code;
}

abbrev pub sacco : Organization
sacco = record {
  id = 7;
  legal_name = text "Imara Sacco";
  trading_name = [];
  org_type = OrgType.sacco;
  registration_number = text "R1";
  country = text "KE";
  contact_email = text "ceo@imara.ke";
  contact_phone = text "1";
  kyc_verified = true;
}

abbrev pub imara : Tenant
imara = record {
  id = 1;
  organization = 7;
  tenant_code = text "imara";
  db_name = text "tenant_imara";
  db_user = [];
  db_host = text "localhost";
  db_port = 5432;
  fineract_tenant_identifier = text "imara";
  status = TenantStatus.pending;
  is_active = false;
  provisioned_at = none;
  suspended_at = none;
  suspension_reason = [];
}

abbrev pub first_job : ProvisionJob
first_job = record {
  id = 2;
  tenant = 1;
  current_step = Step.validate;
  is_success = none;
  error_message = [];
  retry_count = 0;
  started_at = 100;
  finished_at = none;
  celery_task_id = [];
}

-- One pending tenant; the two flags say whether PostgreSQL and Fineract answer.
abbrev pub fresh : (pg_up : Bool) → Bool → World (toy pg_up)
fresh pg_up fineract_up = record {
  organizations = sacco ∷ [];
  tenants = imara ∷ [];
  domains = [];
  credentials = [];
  users = [];
  api_keys = [];
  sessions = [];
  jobs = first_job ∷ [];
  audit_logs = [];
  subscriptions = [];
  now = 1000;
  next_id = 50;
  draws = 0;
  pg = record { roles = []; databases = [] };
  net = (fineract_up, 0);
  broker = [];
  cache = [];
  disk = [];
  mailbox = [];
}

abbrev pub blank_user : User
blank_user = record {
  id = 40;
  tenant = none;
  email = [];
  password = text "#pw";
  phone_number = [];
  first_name = [];
  last_name = [];
  role = Role.member;
  branch_id = none;
  is_platform_staff = false;
  is_superuser = false;
  is_active = true;
  is_staff = false;
  is_email_verified = false;
  mfa_enabled = false;
  mfa_secret_encrypted = none;
  failed_login_attempts = 0;
  locked_until = none;
  password_changed_at = none;
  last_login_ip = none;
}

-- The tenant of `fresh` once it is served, with its administrator and its database.
abbrev pub served : World (toy true)
served = record (fresh true true) {
  tenants = (record imara { status = TenantStatus.ready; is_active = true }) ∷ [];
  users =
      (record blank_user { tenant = some 1; email = text "ceo@imara.ke"; role = Role.ceo }) ∷ [];
  pg = record { roles = text "tenant_imara_role" ∷ []; databases = text "tenant_imara" ∷ [] };
}
