-- ===== src/Fineract/Services.antt =====
-- backend/fineract_gateway/services.py: the calls that a tenant's own client makes.
use mifos_test.Prelude.{
  ℕ, Bool, ◌&&◌, Option, none, some, Text, text, ◌++◌, find, ◌==◌, if◌then◌else◌,
}
use mifos_test.Json.{Json, null, bool, num, str, obj, Fields, end, field}
use mifos_test.Exec.{Exec}
use mifos_test.Models.{Tenant, is_ceo}
use mifos_test.Env.{Env, post}
use mifos_test.World.{World}
use mifos_test.Authentication.{belongs_to}
use mifos_test.Fineract.Client.{FineractClient, fineract_client, request, get_json, post_json}

-- The methods of the five services with their arguments: an id in a path is the text that it is
-- printed as, and a value of a body is the JSON that it is encoded to.
pub data ServiceCall : Type 0 where
  create_client : Text → Text → ℕ → ServiceCall
  get_client : Text → ServiceCall
  list_clients : Option ℕ → ServiceCall
  apply_loan : Json → Json → Json → Json → ServiceCall
  approve_loan : Text → Json → ServiceCall
  disburse_loan : Text → Json → ServiceCall
  get_repayment_schedule : Text → ServiceCall
  open_account : Json → Json → ServiceCall
  deposit withdraw : Text → Json → Json → ServiceCall
  enroll_member : Text → Text → ℕ → ServiceCall
  assign_shares : Json → Json → Json → ServiceCall
  post_journal_entry : Json → Json → Json → Json → ServiceCall
  get_trial_balance : ℕ → ServiceCall

-- "locale": "en", "dateFormat": "dd MMMM yyyy"
abbrev localized : Fields
localized =
    field (text "locale") (str (text "en"))
      (field (text "dateFormat") (str (text "dd MMMM yyyy")) end)

abbrev client_body : Text → Text → ℕ → Json
client_body first_name last_name office_id = obj (
    field (text "firstname") (str first_name) (
      field (text "lastname") (str last_name) (
        field (text "officeId") (num office_id)
          (field (text "active") (bool Bool.true) (field (text "activationDate") null localized)))))

abbrev loan_body : Json → Json → Json → Json → Json
loan_body client_id product_id principal term_months = obj (
    field (text "clientId") client_id (
      field (text "productId") product_id (
        field (text "principal") principal (
          field (text "loanTermFrequency") term_months (
            field (text "loanTermFrequencyType") (num 2)
              (field (text "loanType") (str (text "individual")) localized))))))

abbrev transaction_body : Json → Json → Json
transaction_body amount date =
    obj (field (text "transactionDate") date (field (text "transactionAmount") amount localized))

abbrev journal_body : Json → Json → Json → Json → Json
journal_body office_id date credits debits = obj (
    field (text "officeId") office_id (
      field (text "transactionDate") date
        (field (text "credits") credits (field (text "debits") debits localized))))

-- A missing office, and the office 0, are no filter.
abbrev office_params : Option ℕ → Fields
office_params none = end
office_params (some id) = if id == 0 then end else field (text "officeId") (num id) end

module _ {env : Env} where
  -- `client_for_tenant`: the name of the tenant's administrator, and the platform's password
  unfoldable pub client_for_tenant : Tenant → World env → FineractClient
  client_for_tenant t w =
      let admin = find (λ u. belongs_to t.id u && is_ceo u.role) w.users in
      fineract_client env.settings t.fineract_tenant_identifier
        (elim admin [ none ↦ env.settings.fineract_admin_username | some u ↦ u.email ])
        env.settings.fineract_admin_password

  unfoldable pub call_service : FineractClient → ServiceCall → Exec (World env) Json
  call_service c (create_client first_name last_name office_id) =
      post_json c (text "/clients") (client_body first_name last_name office_id)
  call_service c (get_client id) = get_json c (text "/clients/" ++ id) end
  call_service c (list_clients office_id) = get_json c (text "/clients") (office_params office_id)
  call_service c (apply_loan client_id product_id principal term_months) =
      post_json c (text "/loans") (loan_body client_id product_id principal term_months)
  call_service c (approve_loan id amount) =
      post_json c (text "/loans/" ++ id ++ text "?command=approve")
        (obj (field (text "approvedLoanAmount") amount localized))
  call_service c (disburse_loan id date) =
      request c post (text "/loans/" ++ id ++ text "?command=disburse") (some 20) end
        (some (obj (field (text "actualDisbursementDate") date localized)))
  call_service c (get_repayment_schedule id) =
      get_json c (text "/loans/" ++ id)
        (field (text "associations") (str (text "repaymentSchedule")) end)
  call_service c (open_account client_id product_id) =
      post_json c (text "/savingsaccounts")
        (obj (field (text "clientId") client_id (field (text "productId") product_id localized)))
  call_service c (deposit id amount date) =
      post_json c (text "/savingsaccounts/" ++ id ++ text "/transactions?command=deposit")
        (transaction_body amount date)
  call_service c (withdraw id amount date) =
      post_json c (text "/savingsaccounts/" ++ id ++ text "/transactions?command=withdrawal")
        (transaction_body amount date)
  call_service c (enroll_member first_name last_name office_id) =
      post_json c (text "/clients") (client_body first_name last_name office_id)
  call_service c (assign_shares client_id product_id shares) = post_json c (text "/shareaccounts") (
      obj (
        field (text "clientId") client_id
          (field (text "productId") product_id (field (text "requestedShares") shares localized))))
  call_service c (post_journal_entry office_id date credits debits) =
      post_json c (text "/journalentries") (journal_body office_id date credits debits)
  call_service c (get_trial_balance office_id) =
      get_json c (text "/glclosures") (field (text "officeId") (num office_id) end)

  -- A call for a tenant, through its own client
  unfoldable pub call_for_tenant : Tenant → ServiceCall → Exec (World env) Json
  call_for_tenant t c w = call_service (client_for_tenant t w) c w
