-- ===== src/Provisioning/Rewind.antt =====
-- What a whole rewind of the RollbackManager leaves behind.
use mathlib.Core.List.{Memᴰ}
use mifos_test.Prelude.{List, [], ◌∷◌, ◌≡◌, refl, subst, ◌∙◌, exists-keep-not}
use mifos_test.Exec.{ok, ◌>>=◌}
use mifos_test.Models.{Step, Tenant}
use mifos_test.Env.{Env}
use mifos_test.World.{World}
use mifos_test.Authentication.{belongs_to}
use mifos_test.Provisioning.State.{Run}
use mifos_test.Provisioning.Database.{drop_all}
use mifos_test.Provisioning.Rollback.{undo, undo_each}
use mifos_test.Provisioning.Laws.{DropLaws}
use mifos_test.Provisioning.Undo.{
  HasNoUsers, IsDropped, after_drop-IsDropped, drop_all_lem, Undone, Undone-refl, Undone-trans,
  undo_succeeds, undo-Undone,
}

module _ {env : Env} (laws : DropLaws env) where
  undo_each_step :
      (step : Step) (steps : List Step) (s : Run env)
      → undo_each (step ∷ steps) s ≡ undo_each steps (undo step s).1
  undo_each_step step steps s = unfold undo_each in rw (undo_succeeds laws step s, ◌>>=◌)

  pub undo_each-Undone :
      (steps : List Step) (s : Run env)
      → ((undo_each steps s).0 ≡ ok tt) × Undone laws s (undo_each steps s).1
  undo_each-Undone [] s = (unfold undo_each in refl, unfold undo_each in Undone-refl laws s)
  undo_each-Undone (step ∷ steps) s =
      let (fine, undone) = undo_each-Undone steps (undo step s).1 in
      rw (undo_each_step step steps s) (fine, Undone-trans laws (undo-Undone laws step s) undone)

  -- A property of the registry and the server that the undo of one step establishes, and that
  -- every undo keeps, holds once that step is among those undone. `t` is the tenant of the run.
  module _ (t : Tenant) (P : World env → Type 0)
      (kept : (step : Step) (s : Run env) → s.tenant ≡ t → P s.world → P (undo step s).1.world)
      (target : Step) (reached : (s : Run env) → s.tenant ≡ t → P (undo target s).1.world) where
    undo_each_keeps :
        (steps : List Step) (s : Run env) → s.tenant ≡ t → P s.world → P (undo_each steps s).1.world
    undo_each_keeps [] s e h = unfold undo_each in h
    undo_each_keeps (step ∷ steps) s e h = rw (undo_each_step step steps s) (
        undo_each_keeps steps (undo step s).1 ((undo-Undone laws step s).same_tenant ∙ e)
          (kept step s e h))

    undo_each_reaches :
        (steps : List Step) (s : Run env)
        → s.tenant ≡ t
        → Memᴰ target steps
        → P (undo_each steps s).1.world
    undo_each_reaches [] s e m = elim m [ ]
    undo_each_reaches (step ∷ steps) s e (Memᴰ.head p) = rw (undo_each_step step steps s) (
        undo_each_keeps steps (undo step s).1 ((undo-Undone laws step s).same_tenant ∙ e)
          (subst (λ x. P (undo x s).1.world) p (reached s e)))
    undo_each_reaches (step ∷ steps) s e (Memᴰ.tail m) =
        rw (undo_each_step step steps s)
          (undo_each_reaches steps (undo step s).1 ((undo-Undone laws step s).same_tenant ∙ e) m)

  undo-create_db : (s : Run env) → undo Step.create_db s ≡ drop_all s
  unfolding undo
  undo-create_db s = refl

  undo_create_db_drops :
      (s : Run env) → IsDropped laws s.tenant.db_name (undo Step.create_db s).1.world.pg
  undo_create_db_drops s =
      rw (undo-create_db s, drop_all_lem laws s)
        (after_drop-IsDropped laws s.tenant.db_name s.world.pg)

  undo-create_admin_user-deletes :
      (s : Run env) → HasNoUsers s.tenant.id (undo Step.create_admin_user s).1.world
  unfolding undo
  undo-create_admin_user-deletes s = exists-keep-not (belongs_to s.tenant.id) s.world.users

  -- What `undo_each` leaves of a run whose list of steps has the two that matter.
  pub undo_each-IsDropped :
      (steps : List Step) (s : Run env)
      → Memᴰ Step.create_db steps
      → IsDropped laws s.tenant.db_name (undo_each steps s).1.world.pg
  undo_each-IsDropped steps s m =
      undo_each_reaches s.tenant (λ w. IsDropped laws s.tenant.db_name w.pg)
        (λ step u e h. rw (← e) ((undo-Undone laws step u).stays_dropped (rw e h))) Step.create_db
        (λ u e. rw (← e) (undo_create_db_drops u)) steps s refl m

  pub undo_each-HasNoUsers :
      (steps : List Step) (s : Run env)
      → Memᴰ Step.create_admin_user steps
      → HasNoUsers s.tenant.id (undo_each steps s).1.world
  undo_each-HasNoUsers steps s m =
      undo_each_reaches s.tenant (HasNoUsers s.tenant.id)
        (λ step u e h. rw (← e) ((undo-Undone laws step u).stays_deleted (rw e h)))
        Step.create_admin_user (λ u e. rw (← e) (undo-create_admin_user-deletes u)) steps s refl m
