-- ===== src/World.antt =====
-- The state that the program acts on: the tables of the registry, and the state of each outside
-- service. A query of the Django ORM is read as the list operation that it stands for, and
-- `objects.create` raises the `IntegrityError` of the unique columns that the model declares.
use mifos_test.Prelude.{ℕ, ◌≡◌, ◌+◌, List, Option, Text}
use mifos_test.Exec.{Exec, Result, ok, err}
use mifos_test.Models.{
  Organization, Tenant, Domain, EncryptedCredential, User, ApiKey, LoginSession, ProvisionJob,
  AuditLog, Subscription,
}
use mifos_test.Env.{Env, Task}

pub record World (env : Env) : Type 0 where
  pub organizations : List Organization
  pub tenants : List Tenant
  pub domains : List Domain
  pub credentials : List EncryptedCredential
  pub users : List User
  pub api_keys : List ApiKey
  pub sessions : List LoginSession
  pub jobs : List ProvisionJob
  pub audit_logs : List AuditLog
  pub subscriptions : List Subscription
  -- `timezone.now()`
  pub now : ℕ
  -- the primary key that the next `uuid.uuid4()` returns
  pub next_id : ℕ
  -- how many secrets were drawn
  pub draws : ℕ
  pub pg : env.Pg
  pub net : env.Net
  pub broker : env.Broker
  pub cache : env.Cache
  pub disk : env.Disk
  pub mailbox : env.Mailbox

-- Nothing but the cache is changed.
abbrev pub OnlyCache : {env : Env} → World env → World env → Type 0
OnlyCache w w' = w' ≡ record w { cache = w'.cache }

module _ {env : Env} where
  -- `task.delay(…)`
  unfoldable pub delay : Task → Exec (World env) Unit
  delay task w = let (r, b) = env.broker_delay task w.broker in (r, record w { broker = b })

  -- `secrets.token_urlsafe(n)`
  unfoldable pub token_urlsafe : ℕ → Exec (World env) Text
  token_urlsafe n w = (ok (env.token_urlsafe n w.draws), record w { draws = w.draws + 1 })

  -- `cache.get(key)`
  unfoldable pub cache_get : Text → Exec (World env) (Option ℕ)
  cache_get key w = (env.cache_get key w.now w.cache, w)

  -- `cache.set(key, value, timeout)`
  unfoldable pub cache_set : Text → ℕ → ℕ → Exec (World env) Unit
  cache_set key value timeout w =
      let (r, c) = env.cache_set key w.now value timeout w.cache in (r, record w { cache = c })

  -- The registry of `before` beside the outside services of `after`.
  abbrev roll_back : World env → World env → World env
  roll_back before after = record before {
    pg = after.pg;
    net = after.net;
    broker = after.broker;
    cache = after.cache;
    disk = after.disk;
    mailbox = after.mailbox;
    next_id = after.next_id;
    draws = after.draws;
  }

  abbrev pub settle : {A : Type 0} → Result A → World env → World env → Result A × World env
  settle (ok a) before after = (ok a, after)
  settle (err e) before after = (err e, roll_back before after)

  -- `@transaction.atomic`: an exception undoes what was written to the registry.
  unfoldable pub atomic : {A : Type 0} → Exec (World env) A → Exec (World env) A
  atomic m w = let (r, w') = m w in settle r w w'
