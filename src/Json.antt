-- ===== src/Json.antt =====
-- JSON values: request and response bodies of backend/fineract_gateway, and the `metadata` column
-- of backend/audit/models.py.
use mifos_test.Prelude.{ℕ, Bool, Text, same_text, if◌then◌else◌, Option, none, some}

mutual
  pub data Json : Type 0 where
    null : Json
    bool : Bool → Json
    num : ℕ → Json
    str : Text → Json
    arr : Items → Json
    obj : Fields → Json

  pub data Items : Type 0 where
    nil : Items
    cons : Json → Items → Items

  pub data Fields : Type 0 where
    end : Fields
    field : Text → Json → Fields → Fields

-- `d.get(key)` on a JSON object
unfoldable pub get_field : Text → Fields → Option Json
get_field k end = none
get_field k (field j v fs) = if same_text j k then some v else get_field k fs
