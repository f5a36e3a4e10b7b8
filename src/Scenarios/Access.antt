-- ===== src/Scenarios/Access.antt =====
-- Permissions and back ends at concrete accounts.
use mifos_test.Prelude.{◌≡◌, refl, true, false, none, some, [], ◌∷◌, text}
use mifos_test.Exec.{ok}
use mifos_test.Exec.Post.{Post}
use mifos_test.Models.{User, Role}
use mifos_test.Authentication.{authenticate_staff, authenticate_tenant_user, tenant_ceo_or_admin}
use mifos_test.Authentication.Access.{
  Ordered, permissions-Ordered, IsStaff, authenticate_staff-IsStaff, IsUserOf,
  authenticate_tenant_user-IsUserOf,
}
use mifos_test.Scenarios.Toy.{toy, fresh, blank_user, imara}
use mifos_test.Scenarios.SignIn.{ann, branch}

-- The head of a tenant.
abbrev head : User
head = record ann { role = Role.ceo }

head_passes : tenant_ceo_or_admin (some head) (some imara) ≡ true
unfolding tenant_ceo_or_admin
head_passes = refl

head_elsewhere : tenant_ceo_or_admin (some head) (some (record imara { id = 9 })) ≡ false
unfolding tenant_ceo_or_admin
head_elsewhere = refl

permissions-Ordered_example : Ordered (some head) (some imara)
permissions-Ordered_example = permissions-Ordered (some head) (some imara)

staff_signs_in :
    (authenticate_staff
      (some (text "op@bank.example"))
      (some (text "pw"))
      (record (fresh true true) {
        users = record blank_user { email = text "Op@bank.example" } ∷ ann ∷ [];
      })).0
    ≡ ok (some (record blank_user { email = text "Op@bank.example" }))
unfolding authenticate_staff
staff_signs_in = refl

-- An account of a tenant does not open the dashboard.
ann_is_no_staff :
    (authenticate_staff (some (text "ann@bank.example")) (some (text "pw")) branch).0 ≡ ok none
unfolding authenticate_staff
ann_is_no_staff = refl

authenticate_staff-IsStaff_example :
    Post
      (authenticate_staff (some (text "op@bank.example")) (some (text "pw")) branch)
      (λ o w'. (w' ≡ branch) × IsStaff (toy true) (text "op@bank.example") (text "pw") o)
      (λ _ w'. w' ≡ branch)
authenticate_staff-IsStaff_example =
    authenticate_staff-IsStaff (text "op@bank.example") (text "pw") branch

authenticate_tenant_user-IsUserOf_example :
    Post
      (authenticate_tenant_user
        (some imara)
        (some (text "ANN@bank.example"))
        (some (text "pw"))
        branch)
      (λ o w'. (w' ≡ branch) × IsUserOf (toy true) imara (text "ANN@bank.example") (text "pw") o)
      (λ _ w'. w' ≡ branch)
authenticate_tenant_user-IsUserOf_example =
    authenticate_tenant_user-IsUserOf imara (text "ANN@bank.example") (text "pw") branch
