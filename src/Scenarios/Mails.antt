-- ===== src/Scenarios/Mails.antt =====
-- Mails, sign-in forms and the envelope of an error.
use mifos_test.Prelude.{◌≡◌, refl, true, none, some, [], ◌∷◌, ◌++◌, text, map}
use mifos_test.Json.{str, obj, field, end}
use mifos_test.Env.{Mail}
use mifos_test.Notifications.{send_welcome_email, send_tenant_activated_email}
use mifos_test.Notifications.Sending.{Attempt, send_welcome_email-Attempt}
use mifos_test.Forms.{
  confirmed, rejected, confirm_tenant_login, confirm_staff_login, api_exception_handler,
}
use mifos_test.Scenarios.Toy.{fresh, imara, blank_user}
use mifos_test.Scenarios.Resolve.{online}

-- The pipeline queues the welcome mail before it creates the domain: a worker that is quicker than
-- the pipeline sends an address without a host.
mail_without_host :
    map (λ (m : Mail). m.message) (send_welcome_email 7 0 (fresh true true)).1.mailbox
    ≡ (text "Hello Imara Sacco,\n\nYour organization has been created. Your portal is available at "
        ++ text "https://\n\nThe Banking SaaS Team")
      ∷ []
unfolding send_welcome_email
mail_without_host = refl

activated_host :
    map (λ (m : Mail). m.message) (send_tenant_activated_email 1 online).1.mailbox
    ≡ text "Your portal is live at https://imara.bank.example" ∷ []
unfolding send_tenant_activated_email
activated_host = refl

other_tenant :
    confirm_tenant_login (λ _. confirmed) (some imara) (record blank_user { tenant = some 2 })
    ≡ rejected (text "wrong_tenant")
unfolding confirm_tenant_login
other_tenant = refl

no_staff : confirm_staff_login (λ _. confirmed) blank_user ≡ rejected (text "not_staff")
unfolding confirm_staff_login
no_staff = refl

envelope :
    api_exception_handler
      (λ _. text "gone")
      (record { code = text "not_found"; detail = none })
      (some (404, obj (field (text "detail") (str (text "gone")) end)))
    ≡ some (
      404,
      obj (
          field
            (text "error")
            (obj (
              field (text "code") (str (text "not_found")) (
                field (text "message") (str (text "gone")) (
                  field
                    (text "detail")
                    (obj (field (text "detail") (str (text "gone")) end))
                    end))))
            end),
    )
unfolding api_exception_handler
envelope = refl

send_welcome_email-Attempt_example :
    Attempt 7 0 (fresh true true) (send_welcome_email 7 0 (fresh true true))
send_welcome_email-Attempt_example = send_welcome_email-Attempt 7 0 (fresh true true)
