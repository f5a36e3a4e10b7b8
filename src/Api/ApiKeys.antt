-- ===== src/Api/ApiKeys.antt =====
-- backend/authentication/views.py: APIKeyViewSet, whose permission class wants a user that is
-- signed in and no more
use mifos_test.Prelude.{
  ℕ, ◌+◌, Bool, true, false, ◌&&◌, Option, none, some, List, [], ◌∷◌, ◌++◌, Text, text, ◌==◌, ltb,
  length, take, exists, find, keep, rewrite, same_text, if◌then◌else◌,
}
use mifos_test.Exec.{Exec, integrity_error, data_error, ok, pure, raise, modify, ◌>>=◌, ◌>>◌}
use mifos_test.Models.{User, Tenant, ApiKey}
use mifos_test.Env.{Env}
use mifos_test.World.{World, token_urlsafe}
use mifos_test.Http.{Framework, Response, view_response, given}

-- f"bnk_live_{secret}", and its first twelve characters
abbrev pub raw_key_of : Text → Text
raw_key_of secret = text "bnk_live_" ++ secret

abbrev pub prefix_of : Text → Text
prefix_of raw_key = take 12 raw_key

-- What the answer to `create` shows, once: the key, and its row.
pub record CreatedKey : Type 0 where
  pub raw_key : Text
  pub row : ApiKey

-- `filter(tenant=tenant) if tenant else none()`
abbrev pub is_key_of : Option Tenant → ApiKey → Bool
is_key_of none k = false
is_key_of (some t) k = k.tenant == t.id

abbrev pub deactivated : ApiKey → ApiKey
deactivated k = record k { is_active = false }

module _ {env : Env} where
  abbrev pub new_key : Tenant → User → Text → List Text → Text → World env → ApiKey
  new_key t u name scopes raw w = record {
    id = w.next_id;
    tenant = t.id;
    name = name;
    key_prefix = prefix_of raw;
    key_hash = env.make_password w.draws raw;
    scopes = scopes;
    is_active = true;
    last_used_at = none;
    expires_at = none;
    created_by = some u.id;
  }

  -- `APIKey.objects.create(…)`: the tenant may not be missing, and the prefix is unique.
  unfoldable pub insert_key :
      Option Tenant → User → Text → List Text → Text → Exec (World env) ApiKey
  insert_key none u name scopes raw w =
      raise (integrity_error (text "authentication_apikey")) (record w { draws = w.draws + 1 })
  insert_key (some t) u name scopes raw w =
      let k = new_key t u name scopes raw w in
      let hashed : World env = record w { draws = w.draws + 1 } in
      if ltb 100 (length name)
      then raise (data_error (text "authentication_apikey")) hashed
      else if exists (λ r. same_text r.key_prefix k.key_prefix) w.api_keys
      then raise (integrity_error (text "authentication_apikey")) hashed
      else (ok k, record hashed { api_keys = w.api_keys ++ k ∷ []; next_id = w.next_id + 1 })

  -- `create`
  unfoldable pub create_key : Option Tenant → User → Text → List Text → Exec (World env) CreatedKey
  unfolding token_urlsafe insert_key ◌>>=◌
  create_key tenant u name scopes = token_urlsafe 24 >>= λ secret.
      insert_key tenant u name scopes (raw_key_of secret) >>= λ row.
      pure (record { raw_key = raw_key_of secret; row = row })

  -- `get_queryset`
  unfoldable pub keys_of : Option Tenant → World env → List ApiKey
  keys_of tenant w = keep (is_key_of tenant) w.api_keys

  -- `get_object`
  abbrev pub key_of : Option Tenant → ℕ → World env → Option ApiKey
  key_of tenant id w = find (λ k. is_key_of tenant k && k.id == id) w.api_keys

  -- `destroy`
  unfoldable pub destroy_key : Framework → Option Tenant → ℕ → Exec (World env) Response
  unfolding ◌>>=◌
  destroy_key drf tenant id w =
      given (key_of tenant id w) drf.missing
        (λ k.
          modify (λ v. record v { api_keys = rewrite (λ r. r.id == k.id) deactivated v.api_keys })
          >> pure (view_response 204))
        w
