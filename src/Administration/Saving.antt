-- ===== src/Administration/Saving.antt =====
-- A tenant that is added on its page gets an administrator of its own, a domain and a job.
use mifos_test.Prelude.{
  true, false, Option, none, some, [], ◌∷◌, ◌++◌, ◌≡◌, refl, ap, ◌∙◌, same_text, find, is_nonempty,
}
use mifos_test.Exec.{Exec, Result, ok, err, pure, gets, continue, ◌>>=◌}
use mifos_test.Exec.Post.{Post, Post-bind, Post-weaken}
use mifos_test.Models.{Tenant, User, ProvisionJob, is_ceo}
use mifos_test.Env.{Env, Task}
use mifos_test.World.{World, atomic, settle}
use mifos_test.Tenants.{domains_of}
use mifos_test.Organizations.{create_job, new_job}
use mifos_test.Administration.{
  TenantForm, Saved, address, first_password, make_admin, ensure_domain, save_new, save_related,
  clean, clean_admin_email,
}
use mifos_test.Administration.Parts.{
  Account, make_admin-Account, WithDomain, ensure_domain-WithDomain,
}
use mifos_test.Administration.Cleaning.{clean_form-Free}

module _ {env : Env} where
  -- The tenant has its administrator, whose account is the only one that was touched, at least one
  -- domain, and a job whose task runs once the transaction is committed.
  pub record Added (f : TenantForm) (t : Tenant) (w : World env) (saved : Option Saved)
      (w' : World env) : Type 0 where
    pub admin : User
    pub job : ProvisionJob
    pub result :
        saved
        ≡ some
            (record { admin = admin; job = job; on_commit = Task.provision_tenant_database job.id })
    pub users : w'.users ≡ w.users ++ admin ∷ []
    pub email : admin.email ≡ env.normalize_email (address f.admin_email t.tenant_code)
    pub tenant : admin.tenant ≡ some t.id
    pub role : is_ceo admin.role ≡ true
    pub active : admin.is_active ≡ true
    pub domain : is_nonempty (domains_of t w') ≡ true
    pub jobs : w'.jobs ≡ w.jobs ++ job ∷ []
    pub job_of : job.tenant ≡ t.id

  Done : TenantForm → Tenant → World env → Saved → World env → Type 0
  Done f t w saved w' = Added f t w (some saved) w'

  queued_Added :
      (f : TenantForm) (t : Tenant) (w : World env) (admin : User) (v : World env)
      → Account (address f.admin_email t.tenant_code) t w admin v
      → (u : Unit {0}) (x : World env) → WithDomain t v u x
      → Post
          ((create_job t >>= λ job. pure (record {
            admin = admin;
            job = job;
            on_commit = Task.provision_tenant_database job.id;
          }))
            x)
          (Done f t w)
          (λ _ _. Unit)
  unfolding Done create_job ◌>>=◌
  queued_Added f t w admin v made u x placed = record {
    admin = admin;
    job = new_job x.next_id t x.now;
    result = refl;
    users = placed.users ∙ made.users;
    email = made.email_of;
    tenant = made.tenant_of;
    role = made.role_of;
    active = made.active_of;
    domain = placed.domain;
    jobs = ap (λ jobs. jobs ++ new_job x.next_id t x.now ∷ []) (placed.jobs ∙ made.jobs);
    job_of = refl;
  }

  -- The domain and the job, once the account is made.
  placed_and_queued :
      (f : TenantForm) (t : Tenant) (w : World env) (admin : User) (v : World env)
      → Account (address f.admin_email t.tenant_code) t w admin v
      → Post
          ((ensure_domain t >>= λ _. create_job t >>= λ job. pure (record {
            admin = admin;
            job = job;
            on_commit = Task.provision_tenant_database job.id;
          }))
            v)
          (Done f t w)
          (λ _ _. Unit)
  placed_and_queued f t w admin v made =
      Post-bind (Done f t w) (λ _ _. Unit) (ensure_domain t) _ v
        (Post-weaken (WithDomain t v) _ (λ _ _. Unit) _ _ _ (queued_Added f t w admin v made)
          (λ _ _ _. tt) (ensure_domain-WithDomain t v))

  save_new-Added :
      (f : TenantForm) (t : Tenant) (w : World env)
      → find (λ u. same_text u.email (address f.admin_email t.tenant_code)) w.users ≡ none
      → Post (save_new f t w) (Done f t w) (λ _ _. Unit)
  unfolding save_new
  save_new-Added f t w free =
      let email = address f.admin_email t.tenant_code in
      let found = find (λ u. same_text u.email email) w.users in
      Post-bind {A = Option User} (Done f t w) (λ _ _. Unit)
        (gets (λ x. find (λ u. same_text u.email email) x.users))
        (λ found. make_admin t email (first_password f.admin_password) found >>= λ admin.
          ensure_domain t >>= λ _. create_job t >>= λ job.
          pure (record {
            admin = admin;
            job = job;
            on_commit = Task.provision_tenant_database job.id;
          }))
        w
        (Post-bind (Done f t w) (λ _ _. Unit)
          (make_admin t email (first_password f.admin_password) found) _ w
          (Post-weaken (Account email t w) _ (λ _ _. Unit) _ _ _ (placed_and_queued f t w)
            (λ _ _ _. tt)
            (make_admin-Account email (first_password f.admin_password) t found w free)))

  -- A transaction that raised leaves the accounts as they were.
  settled :
      {A : Type 0} (Q : A → World env → Type 0) (R : Option A → World env → Type 0) (r : Result A)
      (w w' : World env)
      → ((a : A) → Q a w' → R (some a) w')
      → Post (r, w') Q (λ _ _. Unit)
      → Post
          (continue (settle r w w').0 (λ a. pure (some a)) (settle r w w').1)
          R
          (λ _ v. v.users ≡ w.users)
  settled Q R (ok a) w w' f h = f a h
  settled Q R (err e) w w' f h = refl

  -- The framework's part leaves accounts and jobs alone.
  abbrev pub LeavesAlone : Exec (World env) Unit → Type 0
  LeavesAlone related =
      (w : World env) → ((related w).1.users ≡ w.users) × ((related w).1.jobs ≡ w.jobs)

  after_related :
      (f : TenantForm) (t : Tenant) (w : World env) (r : Result (Unit {0})) (v : World env)
      → (v.users ≡ w.users) × (v.jobs ≡ w.jobs)
      → find (λ u. same_text u.email (address f.admin_email t.tenant_code)) w.users ≡ none
      → Post
          (continue r (λ _. atomic (save_new f t) >>= λ saved. pure (some saved)) v)
          (Added f t w)
          (λ _ w'. w'.users ≡ w.users)
  unfolding atomic ◌>>=◌ Done
  after_related f t w (err e) v (users, jobs) free = users
  after_related f t w (ok u) v (users, jobs) free =
      let (r, x) = save_new f t v in
      Post-weaken (Added f t v) _ (λ _ x'. x'.users ≡ v.users) _ _ _
        (λ saved x' added. record {
          admin = added.admin;
          job = added.job;
          result = added.result;
          email = added.email;
          tenant = added.tenant;
          role = added.role;
          active = added.active;
          domain = added.domain;
          job_of = added.job_of;
          users = added.users ∙ ap (λ us. us ++ added.admin ∷ []) users;
          jobs = added.jobs ∙ ap (λ js. js ++ added.job ∷ []) jobs;
        })
        (λ e x' same. same ∙ users)
        (settled (Done f t v) (Added f t v) r v x (λ _ h. h)
          (save_new-Added f t v (ap (find _) users ∙ free)))

  -- A tenant is added on its page, by a form that was cleaned without an error and has the tenant's
  -- code, where nobody registers between the two. It ends with a new account, whose address is the
  -- one of the form or else the default one: it is an active CEO of that tenant, and no other
  -- account was touched, so that the branch which hands an existing account over is not taken. The
  -- tenant has a domain, and one new job, whose task is left for the end of the transaction. Or an
  -- exception is raised, and then no account was touched at all. The framework's part has to leave
  -- accounts and jobs alone.
  pub save_related-Added :
      (related : Exec (World env) Unit) (raw : TenantForm) (t : Tenant) (w : World env)
      → LeavesAlone related
      → (clean env.slugify w.users (clean_admin_email w.users raw)).tenant_code ≡ some t.tenant_code
      → is_nonempty t.tenant_code ≡ true
      → (clean env.slugify w.users (clean_admin_email w.users raw)).errors ≡ []
      → let f = clean env.slugify w.users (clean_admin_email w.users raw) in
        Post (save_related related false f t w) (Added f t w) (λ _ w'. w'.users ≡ w.users)
  unfolding save_related
  save_related-Added related raw t w alone coded named valid =
      let f = clean env.slugify w.users (clean_admin_email w.users raw) in
      let (r, v) = related w in
      unfold ◌>>=◌ in
      after_related f t w r v (alone w)
        (clean_form-Free env.slugify w.users raw t.tenant_code named coded valid)
