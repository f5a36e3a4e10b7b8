-- ===== src/Fineract/Admin.antt =====
-- backend/fineract_gateway/admin_client.py
use mifos_test.Prelude.{
  Bool, true, false, Option, none, some, Text, text, ◌++◌, same_text, if◌then◌else◌, lower, [],
}
use mifos_test.Json.{
  Json, null, bool, str, arr, obj, Items, nil, cons, Fields, end, field, get_field,
}
use mifos_test.Exec.{
  fineract_api_error, python_error, Result, ok, err, Exec, pure, catch, ◌>>=◌, ◌>>◌,
}
use mifos_test.Env.{Env, Settings, delete}
use mifos_test.World.{World}
use mifos_test.Fineract.Client.{FineractClient, fineract_client, request, get_json, post_json}

-- `FineractAdminClient()`: the administrator of the default tenant
unfoldable pub admin_client : Settings → FineractClient
unfolding fineract_client
admin_client settings =
    fineract_client settings (text "default") settings.fineract_admin_username
      settings.fineract_admin_password

-- `o.get(key) is None`
abbrev lacks : Text → Fields → Bool
lacks key o = elim (get_field key o) [ none ↦ true | some null ↦ true | some _ ↦ false ]

-- `o[key]`
unfoldable pub item : Text → Fields → Result Json
unfolding get_field
item key o = elim (get_field key o) [ none ↦ err (python_error key) | some v ↦ ok v ]

-- `r.get("name", "").lower() == "super user"`
abbrev is_super_user : Option Json → Result Bool
is_super_user none = ok false
is_super_user (some (str name)) = ok (same_text (lower name) (text "super user"))
is_super_user (some _) = err (python_error (text "lower"))

-- The two `next(…)` searches: the first hit, and the exception of an item that is no object.
unfoldable pub first_parentless : Items → Result (Option Fields)
unfolding get_field
first_parentless nil = ok none
first_parentless (cons (obj o) rest) =
    let later = first_parentless rest in if lacks (text "parentId") o then ok (some o) else later
first_parentless (cons _ rest) = err (python_error (text "get"))

abbrev choose_role : Result Bool → Fields → Result (Option Fields) → Result (Option Fields)
choose_role (err e) r later = err e
choose_role (ok true) r later = ok (some r)
choose_role (ok false) r later = later

unfoldable pub first_super_user : Items → Result (Option Fields)
unfolding get_field same_text lower
first_super_user nil = ok none
first_super_user (cons (obj r) rest) =
    let later = first_super_user rest in
    choose_role (is_super_user (get_field (text "name") r)) r later
first_super_user (cons _ rest) = err (python_error (text "get"))

-- The items that `for o in body` runs over; an object yields its keys, which are no objects.
abbrev items_of : Json → Result Items
items_of (arr items) = ok items
items_of (obj end) = ok nil
items_of (str []) = ok nil
items_of _ = err (python_error (text "get"))

-- The hit, or else the first item, or else FineractAPIError(404, message).
abbrev or_first : Text → Option Fields → Items → Result Fields
or_first message (some o) items = ok o
or_first message none (cons (obj o) rest) = ok o
or_first message none (cons _ rest) = err (python_error (text "get"))
or_first message none nil = err (fineract_api_error 404 (str message))

module _ (search_in : Items → Result (Option Fields)) (message : Text) where
  abbrev resolve_found : Result (Option Fields) → Items → Result Json
  resolve_found (err e) items = err e
  resolve_found (ok found) items = elim (or_first message found items) [
    | err e ↦ err e
    | ok o ↦ item (text "id") o
  ]

  -- The id of the row that the search picks.
  unfoldable pub resolve_id : Json → Result Json
  unfolding item
  resolve_id body = elim (items_of body) [
    | err e ↦ err e
    | ok items ↦ resolve_found (search_in items) items
  ]

module _ {env : Env} where
  unfoldable pub resolve_head_office_id : FineractClient → Exec (World env) Json
  unfolding resolve_id first_parentless get_json ◌>>=◌
  resolve_head_office_id client = do
    offices ← get_json client (text "/offices") end
    λ w. (
      resolve_id first_parentless (text "No office found for new tenant; cannot create admin user.")
          offices,
      w,
    )

  unfoldable pub resolve_super_user_role_id : FineractClient → Exec (World env) Json
  unfolding resolve_id first_super_user get_json ◌>>=◌
  resolve_super_user_role_id client = do
    roles ← get_json client (text "/roles") end
    λ w. (
      resolve_id first_super_user (text "No role found for new tenant; cannot create admin user.")
          roles,
      w,
    )

  unfoldable pub create_tenant : Text → Text → Text → Text → Exec (World env) Json
  unfolding post_json admin_client
  create_tenant identifier name db_host db_name =
      post_json (admin_client env.settings) (text "/tenants") (
        obj (
          field (text "tenantIdentifier") (str identifier) (
            field (text "name") (str name) (
              field (text "timezoneId") (str (text "Africa/Nairobi")) (
                field (text "dbHostname") (str db_host)
                  (field (text "dbName") (str db_name) end))))))

  -- Best effort: whatever the request raises is dropped.
  unfoldable pub delete_tenant : Text → Exec (World env) Unit
  unfolding catch ◌>>=◌ request admin_client
  delete_tenant identifier =
      catch
        (request (admin_client env.settings) delete (text "/tenants/" ++ identifier) none end none
          >> pure tt)
        (λ _. pure tt)

  unfoldable pub create_tenant_user : Text → Text → Text → Exec (World env) Json
  unfolding ◌>>=◌ resolve_head_office_id resolve_super_user_role_id post_json fineract_client
  create_tenant_user tenant_identifier username password = do
    let tenant_client =
        fineract_client env.settings tenant_identifier env.settings.fineract_admin_username
          env.settings.fineract_admin_password
    office_id ← resolve_head_office_id tenant_client
    role_id ← resolve_super_user_role_id tenant_client
    post_json tenant_client (text "/users") (
        obj (
          field (text "username") (str username) (
            field (text "password") (str password) (
              field (text "repeatPassword") (str password) (
                field (text "officeId") office_id (
                  field (text "roles") (arr (cons role_id nil))
                    (field (text "sendPasswordToEmail") (bool false) end)))))))
