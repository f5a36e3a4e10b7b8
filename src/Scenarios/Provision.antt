-- ===== src/Scenarios/Provision.antt =====
-- Whole provisioning runs, and the theorems about them at concrete inputs.
use mifos_test.Prelude.{◌≡◌, refl, true, false, some, [], ◌∷◌, text}
use mifos_test.Exec.{external, integrity_error, ok, err}
use mifos_test.Exec.Post.{Post}
use mifos_test.Models.{TenantStatus, Step}
use mifos_test.Provisioning.{Run, run, start}
use mifos_test.Scenarios.Toy.{toy, fresh, served, imara, sacco, first_job}

-- A run with PostgreSQL and Fineract up.
abbrev good : Run (toy true)
good = start (fresh true true) imara sacco first_job

run_up :
    let (r, s) = run good in
    (r ≡ ok tt)
    × (s.tenant.status ≡ TenantStatus.ready)
    × (s.job.current_step ≡ Step.done)
    × (s.world.pg.databases ≡ text "tenant_imara" ∷ [])
    × (s.world.net ≡ (true, 4))
unfolding run
run_up = (refl, refl, refl, refl, refl)

-- Without Fineract the tenant is ready all the same.
run_without_fineract :
    let (r, s) = run (start (fresh true false) imara sacco first_job) in
    (r ≡ ok tt)
    × (s.tenant.status ≡ TenantStatus.ready)
    × (s.fineract_registration_error ≡ some (text "unreachable"))
unfolding run
run_without_fineract = (refl, refl, refl)

-- Without PostgreSQL the rollback raises too, and the audit log stays empty.
abbrev cut_off : Run (toy false)
cut_off = start (fresh false true) imara sacco first_job

run_without_postgres :
    let (r, s) = run cut_off in
    (r ≡ err (external (text "connection refused")))
    × (s.tenant.status ≡ TenantStatus.failed)
    × (s.job.is_success ≡ some false)
    × (s.world.audit_logs ≡ [])
unfolding run
run_without_postgres = (refl, refl, refl, refl)

-- A second run for a tenant that is served.
abbrev again : Run (toy true)
again =
    start served (record imara { status = TenantStatus.ready; is_active = true }) sacco first_job

second_run :
    let (r, s) = run again in
    (r ≡ err (integrity_error (text "authentication_user")))
    × (s.job.current_step ≡ Step.create_admin_user)
    × (s.world.pg.databases ≡ [])
    × (s.world.users ≡ [])
unfolding run
second_run = (refl, refl, refl, refl)
