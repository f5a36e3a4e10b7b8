-- ===== src/Notifications/Sending.antt =====
-- Every way in which an attempt to send the welcome mail can end.
use mifos_test.Prelude.{
  [], ◌++◌, ◌&&◌, or_else, ℕ, ◌≤◌, ◌<◌, Option, none, some, Text, ◌≡◌, ◌==◌, inl, inr, refl, find,
  ltb, Bool-cases, arith, text,
}
use mifos_test.Exec.{
  Exn, Result, ok, err, external, does_not_exist, raise, continue, handle_result, catch, ◌>>=◌,
}
use mifos_test.Models.{Organization, Tenant, Domain}
use mifos_test.Env.{Env, Mail, Task}
use mifos_test.World.{World, delay}
use mifos_test.Tenants.{primary_domain}
use mifos_test.Notifications.{
  hostname_or_empty, portal_host, post_mail, retry_welcome, send_welcome_email,
}

-- The mail that an organization is due, with its trading name or, where that is empty, its legal
-- name.
abbrev pub due_mail : Env → Organization → Text → Mail
due_mail env org host = record {
  subject = text "Welcome to Banking SaaS";
  message =
      text "Hello "
      ++ or_else org.trading_name org.legal_name
      ++ text ",\n\nYour organization has been created. Your portal is available at https://"
      ++ host
      ++ text "\n\nThe Banking SaaS Team";
  from_email = env.settings.default_from_email;
  recipient = org.contact_email;
}

module _ {env : Env} where
  abbrev pub organization_by_id : ℕ → World env → Option Organization
  organization_by_id id w = find (λ (o : Organization). o.id == id) w.organizations

  -- The hostname that the mail names: that of the first primary domain of the organization's first
  -- tenant, and none without such a tenant or domain.
  pub data HostOf (org : Organization) (w : World env) : Text → Type 0 where
    no_tenant : find (λ (t : Tenant). t.organization == org.id) w.tenants ≡ none → HostOf org w []
    no_domain :
        (t : Tenant)
        → find (λ (t : Tenant). t.organization == org.id) w.tenants ≡ some t
        → find (λ (d : Domain). (d.tenant == t.id) && d.is_primary) w.domains ≡ none
        → HostOf org w []
    named :
        (t : Tenant) (d : Domain)
        → find (λ (t : Tenant). t.organization == org.id) w.tenants ≡ some t
        → find (λ (d : Domain). (d.tenant == t.id) && d.is_primary) w.domains ≡ some d
        → HostOf org w d.hostname

  -- The world after the mail server was asked.
  abbrev pub mailed : Organization → Text → World env → World env
  mailed org host w = record w { mailbox = (env.send_mail (due_mail env org host) w.mailbox).1 }

  -- What the mail server did with the mail.
  abbrev pub Answers : Organization → Text → World env → Result (Unit {0}) → Type 0
  Answers org host w r = (env.send_mail (due_mail env org host) w.mailbox).0 ≡ r

  -- The world after the broker was asked to queue the task again as well.
  abbrev pub asked_again : ℕ → Organization → Text → World env → World env
  asked_again id org host w = record (mailed org host w) {
    broker = (env.broker_delay (Task.send_welcome_email id) w.broker).1;
  }

  -- What an attempt returns or raises, with the world that it leaves.
  pub data Attempt (id retries : ℕ) (w : World env) : Result (Unit {0}) × World env → Type 0 where
    unknown : organization_by_id id w ≡ none → Attempt id retries w (err does_not_exist, w)
    sent :
        (org : Organization) (host : Text)
        → organization_by_id id w ≡ some org
        → HostOf org w host
        → Answers org host w (ok tt)
        → Attempt id retries w (ok tt, mailed org host w)
    requeued :
        (org : Organization) (host : Text) (e : Exn)
        → organization_by_id id w ≡ some org
        → HostOf org w host
        → Answers org host w (err e)
        → retries < 3
        → (env.broker_delay (Task.send_welcome_email id) w.broker).0 ≡ ok tt
        → Attempt id retries w (err (external (text "Retry")), asked_again id org host w)
    not_requeued :
        (org : Organization) (host : Text) (e raised : Exn)
        → organization_by_id id w ≡ some org
        → HostOf org w host
        → Answers org host w (err e)
        → retries < 3
        → (env.broker_delay (Task.send_welcome_email id) w.broker).0 ≡ err raised
        → Attempt id retries w (err raised, asked_again id org host w)
    given_up :
        (org : Organization) (host : Text) (e : Exn)
        → organization_by_id id w ≡ some org
        → HostOf org w host
        → Answers org host w (err e)
        → 3 ≤ retries
        → Attempt id retries w (err e, mailed org host w)

  module _ (id retries : ℕ) (w : World env) (org : Organization) (host : Text)
      (known : organization_by_id id w ≡ some org) (of : HostOf org w host) where
    queued_Attempt :
        (e : Exn) (r : Result (Unit {0}))
        → Answers org host w (err e)
        → retries < 3
        → (env.broker_delay (Task.send_welcome_email id) w.broker).0 ≡ r
        → Attempt id retries w (
            continue r
              (λ _. raise {A = Unit} (external (text "Retry")))
              (asked_again id org host w))
    queued_Attempt e (ok tt) failed again taken = requeued org host e known of failed again taken
    queued_Attempt e (err x) failed again lost =
        not_requeued org host e x known of failed again lost

    asked_Attempt :
        (r : Result (Unit {0}))
        → Answers org host w r
        → Attempt id retries w (handle_result r (retry_welcome id retries) (mailed org host w))
    unfolding retry_welcome delay ◌>>=◌
    asked_Attempt (ok tt) e = sent org host known of e
    asked_Attempt (err x) e = elim (Bool-cases (ltb retries 3)) [
      | inl again ↦ rw again (queued_Attempt x _ e (ground (arith, again)) refl)
      | inr over ↦ rw over (given_up org host x known of e (ground (arith, over)))
    ]

  -- The host is the one that the mail names.
  primary-HostOf :
      (org : Organization) (w : World env) (t : Tenant) (o : Option Domain)
      → find (λ (t : Tenant). t.organization == org.id) w.tenants ≡ some t
      → find (λ (d : Domain). (d.tenant == t.id) && d.is_primary) w.domains ≡ o
      → HostOf org w (hostname_or_empty o)
  primary-HostOf org w t none first e = no_domain t first e
  primary-HostOf org w t (some d) first e = named t d first e

  portal_host-HostOf :
      (org : Organization) (w : World env) (o : Option Tenant)
      → find (λ (t : Tenant). t.organization == org.id) w.tenants ≡ o
      → HostOf org w (portal_host o w)
  unfolding portal_host primary_domain
  portal_host-HostOf org w none e = no_tenant e
  portal_host-HostOf org w (some t) e = primary-HostOf org w t _ e refl

  found_Attempt :
      (id retries : ℕ) (w : World env) (found : Option Organization)
      → organization_by_id id w ≡ found
      → Attempt id retries w (send_welcome_email id retries w)
  unfolding send_welcome_email catch post_mail ◌>>=◌
  found_Attempt id retries w none e = rw e (unknown e)
  found_Attempt id retries w (some org) e =
      rw e (asked_Attempt id retries w org _ e (portal_host-HostOf org w _ refl) _ refl)

-- An attempt to send the welcome mail of an organization ends in one of five ways. Without a row of
-- that id it raises, and nothing is written. Else the mail server is asked once, with the mail to
-- the organization's contact address that names the hostname of its first tenant's primary domain,
-- or none, and no row changes. If the server takes it, the attempt returns. If it fails and fewer
-- than three attempts were repeated before, the broker is asked to queue the same task again, and
-- Retry is raised, or what the broker raised; after three the server's exception is raised and
-- nothing is queued.
pub send_welcome_email-Attempt :
    {env : Env} (id retries : ℕ) (w : World env)
    → Attempt id retries w (send_welcome_email id retries w)
send_welcome_email-Attempt id retries w = found_Attempt id retries w _ refl
