-- ===== src/Administration/Cleaning.antt =====
-- The form that adds a tenant: the address of the administrator-to-be is free, or has an error.
use mifos_test.Prelude.{
  ℕ, true, false, Option, none, some, List, [], ◌∷◌, ◌≡◌, ◌⊎◌, inl, inr, refl, sym, Text, text,
  Bool-cases, exists, find, is_nonempty, same_text, same_text_iff, subst, ◌∙◌, find_of_exists_false,
  arith,
}
use mifos_test.Models.{User, Organization}
use mifos_test.Authentication.{email_taken}
use mifos_test.Administration.{
  TenantForm, default_email, pop_error, clean_admin_email, fall_back_code, check_default,
  fill_db_name, fill_identifier, fill_columns, clean, address,
}

abbrev IsFlagged : List Text → Type 0
IsFlagged errors = exists (same_text (text "admin_email")) errors ≡ true

-- An address that was given is free.
abbrev IsFree : List User → Option Text → Type 0
IsFree users (some (c ∷ s)) = email_taken (c ∷ s) users ≡ false
IsFree users email = Unit

-- The address that the account will get is free, or the form has an error.
abbrev pub FreeOrFlagged : List User → TenantForm → Text → Type 0
FreeOrFlagged users f code =
    (find (λ u. same_text u.email (address f.admin_email code)) users ≡ none) ⊎ IsFlagged f.errors

clean_admin_email-IsFree :
    (users : List User) (f : TenantForm) (email : Option Text)
    → f.admin_email ≡ email
    → IsFree users (clean_admin_email users f).admin_email
unfolding clean_admin_email
clean_admin_email-IsFree users f none e = rw e tt
clean_admin_email-IsFree users f (some []) e = rw e tt
clean_admin_email-IsFree users f (some (c ∷ s)) e = elim (Bool-cases (email_taken (c ∷ s) users)) [
  | inl taken ↦ rw (e, taken) tt
  | inr free ↦ rw (e, free) free
]

check_default-Free :
    (users : List User) (f : TenantForm) (c : ℕ) (s : Text) (email : Option Text)
    → f.admin_email ≡ email
    → IsFree users email
    → FreeOrFlagged users (check_default users f (some (c ∷ s)) email) (c ∷ s)
unfolding same_text
check_default-Free users f c s none e h =
    elim (Bool-cases (email_taken (default_email (c ∷ s)) users)) [
      | inl taken ↦ rw taken (inr refl)
      | inr free ↦ rw (free, e) (inl (find_of_exists_false _ users free))
    ]
check_default-Free users f c s (some []) e h =
    elim (Bool-cases (email_taken (default_email (c ∷ s)) users)) [
      | inl taken ↦ rw taken (inr refl)
      | inr free ↦ rw (free, e) (inl (find_of_exists_false _ users free))
    ]
check_default-Free users f c s (some (d ∷ t)) e free =
    rw e (inl (find_of_exists_false _ users free))

fall_back_code-admin_email :
    (slugify : Text → Text) (f : TenantForm) (code : Option Text) (org : Option Organization)
    → (fall_back_code slugify f code org).admin_email ≡ f.admin_email
fall_back_code-admin_email slugify f (some (c ∷ s)) org = refl
fall_back_code-admin_email slugify f (some []) (some o) = refl
fall_back_code-admin_email slugify f (some []) none = refl
fall_back_code-admin_email slugify f none (some o) = refl
fall_back_code-admin_email slugify f none none = refl

check_default-tenant_code :
    (users : List User) (f : TenantForm) (code email : Option Text)
    → (check_default users f code email).tenant_code ≡ f.tenant_code
check_default-tenant_code users f (some (c ∷ s)) (some (d ∷ t)) = refl
check_default-tenant_code users f (some (c ∷ s)) (some []) = ground arith
check_default-tenant_code users f (some (c ∷ s)) none = ground arith
check_default-tenant_code users f (some []) email = refl
check_default-tenant_code users f none email = refl

pop_error-IsFlagged :
    (name : Text) (errors : List Text)
    → ((e : Text) → same_text (text "admin_email") e ≡ true → same_text e name ≡ false)
    → IsFlagged errors
    → IsFlagged (pop_error name errors)
pop_error-IsFlagged name [] other h = h
pop_error-IsFlagged name (e ∷ errors) other h =
    ground (arith, other e, pop_error-IsFlagged name errors other)

-- A field with another name is not the refused one.
other :
    (name : Text)
    → same_text (text "admin_email") name ≡ false
    → (e : Text) → same_text (text "admin_email") e ≡ true
    → same_text e name ≡ false
other name differs e same =
    subst (λ x. same_text x name ≡ false) ((same_text_iff (text "admin_email") e).0 same) differs

fill_db_name-IsFlagged :
    (code : Text) (f : TenantForm) (name : Option Text)
    → IsFlagged f.errors
    → IsFlagged (fill_db_name code f name).errors
unfolding same_text
fill_db_name-IsFlagged code f (some (c ∷ s)) h = h
fill_db_name-IsFlagged code f (some []) h = pop_error-IsFlagged _ f.errors (other _ refl) h
fill_db_name-IsFlagged code f none h = pop_error-IsFlagged _ f.errors (other _ refl) h

fill_identifier-IsFlagged :
    (code : Text) (f : TenantForm) (name : Option Text)
    → IsFlagged f.errors
    → IsFlagged (fill_identifier code f name).errors
unfolding same_text
fill_identifier-IsFlagged code f (some (c ∷ s)) h = h
fill_identifier-IsFlagged code f (some []) h = pop_error-IsFlagged _ f.errors (other _ refl) h
fill_identifier-IsFlagged code f none h = pop_error-IsFlagged _ f.errors (other _ refl) h

fill_db_name-kept :
    (code : Text) (f : TenantForm) (name : Option Text)
    → ((fill_db_name code f name).admin_email ≡ f.admin_email)
      × ((fill_db_name code f name).tenant_code ≡ f.tenant_code)
fill_db_name-kept code f (some (c ∷ s)) = (refl, refl)
fill_db_name-kept code f (some []) = (refl, refl)
fill_db_name-kept code f none = (refl, refl)

fill_identifier-kept :
    (code : Text) (f : TenantForm) (name : Option Text)
    → ((fill_identifier code f name).admin_email ≡ f.admin_email)
      × ((fill_identifier code f name).tenant_code ≡ f.tenant_code)
fill_identifier-kept code f (some (c ∷ s)) = (refl, refl)
fill_identifier-kept code f (some []) = (refl, refl)
fill_identifier-kept code f none = (refl, refl)

-- The last part of `clean` keeps address and code, and a refused address.
fill_columns-kept :
    (f : TenantForm) (code : Option Text)
    → ((fill_columns f code).admin_email ≡ f.admin_email)
      × ((fill_columns f code).tenant_code ≡ f.tenant_code)
      × (IsFlagged f.errors → IsFlagged (fill_columns f code).errors)
fill_columns-kept f (some (c ∷ s)) =
    let named = fill_db_name (c ∷ s) f f.db_name in
    let (email, code) = fill_db_name-kept (c ∷ s) f f.db_name in
    let (email', code') = fill_identifier-kept (c ∷ s) named named.fineract_tenant_identifier in
    (
      email' ∙ email,
      code' ∙ code,
      λ h.
          fill_identifier-IsFlagged (c ∷ s) named named.fineract_tenant_identifier
            (fill_db_name-IsFlagged (c ∷ s) f f.db_name h),
    )
fill_columns-kept f (some []) = (refl, refl, λ h. h)
fill_columns-kept f none = (refl, refl, λ h. h)

checked_free :
    (users : List User) (f : TenantForm) (c : ℕ) (s : Text) (code email : Option Text)
    → code ≡ some (c ∷ s)
    → f.admin_email ≡ email
    → IsFree users email
    → FreeOrFlagged users (check_default users f code email) (c ∷ s)
checked_free users f c s code email k e free =
    subst (λ k. FreeOrFlagged users (check_default users f k email) (c ∷ s)) (sym k)
      (check_default-Free users f c s email e free)

-- In a form that was cleaned, the address that the account will get is free, or it has an error.
clean-Free :
    (slugify : Text → Text) (users : List User) (f : TenantForm) (c : ℕ) (s : Text)
    → IsFree users f.admin_email
    → (clean slugify users f).tenant_code ≡ some (c ∷ s)
    → FreeOrFlagged users (clean slugify users f) (c ∷ s)
unfolding clean
clean-Free slugify users f c s free named =
    let coded = fall_back_code slugify f f.tenant_code f.organization in
    let checked = check_default users coded coded.tenant_code f.admin_email in
    let (email, code, flag) = fill_columns-kept checked checked.tenant_code in
    let code_of : coded.tenant_code ≡ some (c ∷ s) =
      sym (check_default-tenant_code users coded coded.tenant_code f.admin_email)
      ∙ (sym code ∙ named) in
    elim (checked_free users coded c s coded.tenant_code f.admin_email code_of
      (fall_back_code-admin_email slugify f f.tenant_code f.organization) free) [
        | inl unused ↦ inl (
            subst (λ a. find (λ u. same_text u.email (address a (c ∷ s))) users ≡ none) (sym email)
              unused)
        | inr bad ↦ inr (flag bad)
      ]

-- The same for the whole form.
pub clean_form-Free :
    (slugify : Text → Text) (users : List User) (f : TenantForm) (code : Text)
    → is_nonempty code ≡ true
    → (clean slugify users (clean_admin_email users f)).tenant_code ≡ some code
    → (clean slugify users (clean_admin_email users f)).errors ≡ []
    → find
        (λ u.
          same_text u.email
            (address (clean slugify users (clean_admin_email users f)).admin_email code))
        users
      ≡ none
clean_form-Free slugify users f [] nonempty named valid = absurd (ground (arith, nonempty))
clean_form-Free slugify users f (c ∷ s) nonempty named valid =
    elim (clean-Free slugify users (clean_admin_email users f) c s
      (clean_admin_email-IsFree users f f.admin_email refl) named) [
        | inl free ↦ free
        | inr bad ↦ absurd (ground (arith, valid, bad))
      ]
