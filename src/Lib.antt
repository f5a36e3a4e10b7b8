-- ===== src/Lib.antt =====
-- A library that verifies the control plane of a multi-tenant banking service (backend/).
--
-- The control plane registers organizations and gives each a tenant: a PostgreSQL database with
-- its role, a tenant of Apache Fineract, an administrator and a domain. A request's host decides
-- which tenant it is for. The parts and their files:
--
--   Models          the rows: backend/{tenants,organizations,authentication,provisioning,audit,
--                   subscriptions}/models.py
--   World           the tables of the registry and the states of the outside services, in one
--                   record; `atomic` is Django's transaction
--   Env             what the code calls and does not implement, as a record of functions:
--                   PostgreSQL, HTTP, the broker, the cache, hashing, encryption, tokens
--   Exec            the state-and-exception monad that Python code is read in: what was written
--                   before a raise stays written. Exec.Post and Exec.Keeps reason about it
--   Tenants         backend/tenants: `save_tenant` with its signal (signals.py), domains, suspend
--                   and activate (services.py), the request resolver (middleware.py),
--                   backups (tasks.py), db_router.py and connection_registry.py (Routing)
--   Authentication  backend/authentication: accounts and counters (models.py), sign-in, sessions
--                   and second factors (services.py), tasks (tasks.py), the rate limit
--                   (middleware.py), permissions.py, backends.py and
--                   validators.py
--   Fineract        backend/fineract_gateway: client.py, admin_client.py (Admin) and services.py
--                   (Services)
--   Provisioning    backend/provisioning/services.py: DatabaseCreator (Database), TenantRegistrar
--                   (Registrar), RollbackManager (Rollback), ProvisioningService (State, Pipeline);
--                   tasks.py (Task)
--   Organizations   backend/organizations/views.py and the registration in
--                   backend/dashboard/views.py
--   Audit, Crypto   backend/audit/services.py and middleware.py (Middleware),
--                   backend/tenant_manager/crypto.py
--   Subscriptions   backend/subscriptions/tasks.py
--   Domains         backend/domains/views.py and tasks.py
--   Api             the views: backend/authentication/views.py (Accounts, ApiKeys), and
--                   backend/tenants/views.py, backend/provisioning/views.py and the pages (Tenants)
--   Administration  backend/tenants/admin.py: the form that adds a tenant, and what saving it does
--   Middleware      the chain of MIDDLEWARE, and backend/tenant_manager/security_headers.py
--   Notifications   backend/notifications/tasks.py
--   Forms           the sign-in forms of backend/{portal,dashboard}/forms.py, and
--                   backend/tenant_manager/exceptions.py
--   Dashboard       the pages of backend/dashboard/views.py that list the tenants and show one
--   Registry        the requests and tasks of all parts as steps of one system
--   Scenarios       a small environment, runs in it, and the theorems at concrete inputs
--
-- How the code is read. A method is a function with its name; an object and the row that it was
-- loaded from are two things, and `save(update_fields=[...])` copies the named columns. A unique
-- column, a length or an address column that a value breaks raises. Times are seconds. A primary key is the next
-- number. Text is a list of code points; `lower` and `strip` know ASCII only. Log lines are left
-- out. The loops run over lists, except the search for a free tenant code: it has fuel for one
-- code more than there are tenants, which Organizations.Termination shows to be enough.
--
-- Not modelled: rows changed or deleted by other processes between two statements of a run, the
-- templates, the checks that Django and the REST framework make by themselves, of which the answers
-- are parameters, and migrations.
pub mod Prelude
pub mod Json
pub mod Exec
pub mod Models
pub mod Env
pub mod World
pub mod Http
pub mod Fineract
pub mod Crypto
pub mod Audit
pub mod Tenants
pub mod Authentication
pub mod Domains
pub mod Organizations
pub mod Provisioning
pub mod Api
pub mod Middleware
pub mod Notifications
pub mod Forms
pub mod Administration
pub mod Dashboard
pub mod Registry
pub mod Subscriptions
pub mod Scenarios
