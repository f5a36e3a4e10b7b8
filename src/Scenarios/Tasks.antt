-- ===== src/Scenarios/Tasks.antt =====
-- Runs of the queued task.
use mifos_test.Prelude.{◌≡◌, refl, true, false, [], ◌∷◌, text, map, same_text}
use mifos_test.Exec.{ok, err, external}
use mifos_test.Exec.Post.{Post}
use mifos_test.Models.{Domain, TenantStatus}
use mifos_test.Provisioning.{Run, start, provision_tenant_database_task}
use mifos_test.Provisioning.TaskOutcome.{IsTaskDone, IsTaskFailed, task_outcome}
use mifos_test.Scenarios.Toy.{toy, fresh, imara, sacco, first_job}

-- The task marks a tenant ready that has no account and no registration at Fineract.
task_up :
    let (r, s) =
      provision_tenant_database_task
        (text "id")
        0
        (start (fresh true true) imara sacco first_job) in
    (r ≡ ok tt)
    × (s.tenant.status ≡ TenantStatus.ready)
    × (map (λ (d : Domain). d.hostname) s.world.domains ≡ text "imara.bank.example" ∷ [])
    × (s.world.pg.databases ≡ text "tenant_imara" ∷ [])
    × (s.world.users ≡ [])
unfolding provision_tenant_database_task
task_up = (refl, refl, refl, refl, refl)

-- Run again, it finds the database and the domain, and changes neither.
task_twice :
    let first =
      (provision_tenant_database_task
        (text "id")
        0
        (start (fresh true true) imara sacco first_job)).1 in
    let (r, s) =
      provision_tenant_database_task
        (text "id")
        1
        (start first.world first.tenant sacco first_job) in
    (r ≡ ok tt)
    × (s.tenant.status ≡ TenantStatus.ready)
    × (s.world.pg ≡ first.world.pg)
    × (s.world.domains ≡ first.world.domains)
unfolding provision_tenant_database_task same_text
task_twice = (refl, refl, refl, refl)

abbrev down : Run (toy false)
down = start (fresh false true) imara sacco first_job

-- With PostgreSQL down the task is queued again, three times.
task_down : (provision_tenant_database_task (text "id") 2 down).0 ≡ err (external (text "Retry"))
unfolding provision_tenant_database_task
task_down = refl

task_given_up :
    (provision_tenant_database_task (text "id") 3 down).0
    ≡ err (external (text "connection refused"))
unfolding provision_tenant_database_task
task_given_up = refl

task_outcome_example :
    Post (provision_tenant_database_task (text "id") 2 down) (λ _. IsTaskDone) (λ _. IsTaskFailed 2)
task_outcome_example = task_outcome (text "id") 2 down
