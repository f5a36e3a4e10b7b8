-- ===== src/Notifications.antt =====
-- backend/notifications/tasks.py
pub mod Sending
use mifos_test.Prelude.{
  ℕ, Option, none, some, [], ◌++◌, Text, text, ◌==◌, ltb, find, or_else, if◌then◌else◌,
}
use mifos_test.Exec.{Exec, Exn, external, does_not_exist, raise, gets, or_raise, catch, ◌>>=◌, ◌>>◌}
use mifos_test.Models.{Organization, Tenant, Domain}
use mifos_test.Env.{Env, Mail, Task}
use mifos_test.World.{World, delay}
use mifos_test.Tenants.{primary_domain}

abbrev pub hostname_or_empty : Option Domain → Text
hostname_or_empty none = []
hostname_or_empty (some d) = d.hostname

abbrev pub welcome_mail : Env → Organization → Text → Mail
welcome_mail env org domain = record {
  subject = text "Welcome to Banking SaaS";
  message =
      text "Hello "
      ++ or_else org.trading_name org.legal_name
      ++ text ",\n\nYour organization has been created. Your portal is available at https://"
      ++ domain
      ++ text "\n\nThe Banking SaaS Team";
  from_email = env.settings.default_from_email;
  recipient = org.contact_email;
}

abbrev pub activated_mail : Env → Organization → Text → Mail
activated_mail env org domain = record {
  subject = text "Your organization is now active";
  message = text "Your portal is live at https://" ++ domain;
  from_email = env.settings.default_from_email;
  recipient = org.contact_email;
}

module _ {env : Env} where
  -- `send_mail(…)`
  unfoldable pub post_mail : Mail → Exec (World env) Unit
  post_mail mail w = let (r, box) = env.send_mail mail w.mailbox in (r, record w { mailbox = box })

  -- `tenant.primary_domain.hostname if tenant and tenant.primary_domain else ""`
  unfoldable pub portal_host : Option Tenant → World env → Text
  unfolding primary_domain
  portal_host none w = []
  portal_host (some t) w = hostname_or_empty (primary_domain t w)

  -- `raise self.retry(exc=exc)` with `max_retries=3`, on attempt number `retries`
  unfoldable pub retry_welcome : ℕ → ℕ → Exn → Exec (World env) Unit
  unfolding delay ◌>>=◌
  retry_welcome id retries e =
      if ltb retries 3
      then (delay (Task.send_welcome_email id) >> raise (external (text "Retry")))
      else raise e

  -- `send_welcome_email`
  unfoldable pub send_welcome_email : ℕ → ℕ → Exec (World env) Unit
  unfolding post_mail portal_host retry_welcome catch ◌>>=◌
  send_welcome_email id retries = do
    org ← λ w. or_raise (find (λ (o : Organization). o.id == id) w.organizations) does_not_exist w
    domain ← gets (λ w. portal_host (find (λ (t : Tenant). t.organization == org.id) w.tenants) w)
    catch (post_mail (welcome_mail env org domain)) (retry_welcome id retries)

  -- `send_tenant_activated_email`
  unfoldable pub send_tenant_activated_email : ℕ → Exec (World env) Unit
  unfolding post_mail portal_host ◌>>=◌
  send_tenant_activated_email id = do
    t ← λ w. or_raise (find (λ (t : Tenant). t.id == id) w.tenants) does_not_exist w
    domain ← gets (portal_host (some t))
    org ← λ w.
        or_raise (find (λ (o : Organization). o.id == t.organization) w.organizations)
          does_not_exist w
    post_mail (activated_mail env org domain)
