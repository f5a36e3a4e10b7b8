-- ===== src/Registry/Columns.antt =====
-- How tenants that are added or saved leave the unique columns.
use mifos_test.Prelude.{
  ℕ, ◌<◌, All, All-self, Among, Among-exists, Bool, false, not, ◌||◌, ◌&&◌, List, [], ◌∷◌, ◌++◌,
  ◌≡◌, inl, inr, refl, sym, ◌∙◌, subst, if◌then◌else◌, Bool-cases, exists, rewrite, ◌==◌, ==_iff,
  same_text, same_text_iff, Pairwise, Pairwise-append, arith,
}
use mifos_test.Models.{Tenant}
use mifos_test.Tenants.{TenantColumn, copy_column, copy_columns, clashes, any_clash}
use mifos_test.Organizations.{tenant_clashes}
use mifos_test.Registry.{Apart}

Apart-sym : (x y : Tenant) → Apart x y → Apart y x
Apart-sym x y (id, code, db, identifier) =
    (λ e. id (sym e), λ e. code (sym e), λ e. db (sym e), λ e. identifier (sym e))

-- What a test finds in no row, it finds not in one of them.
not_found :
    {A : Type 0} (p : A → Bool) (xs : List A) (x : A)
    → Among x xs
    → exists p xs ≡ false
    → p x ≡ false
not_found p xs x here none_ = elim (Bool-cases (p x)) [
  | inl hit ↦ let found = Among-exists p xs x here hit in absurd (ground (arith, none_, found))
  | inr miss ↦ miss
]

-- One column that is copied to a row, and another row.
copy_column-Apart :
    (c : TenantColumn) (t row y : Tenant) (rows : List Tenant)
    → Among y rows
    → (y.id == t.id) ≡ false
    → clashes c t rows ≡ false
    → Apart row y
    → Apart (copy_column c t row) y
copy_column-Apart TenantColumn.db_name t row y rows here other clear (id, code, db, identifier) =
    let miss =
      not_found (λ r. not (r.id == t.id) && same_text r.db_name t.db_name) rows y here clear in
    (
      id,
      code,
      (λ e.
          let hit = (same_text_iff y.db_name t.db_name).1 (sym e) in
          ground (arith, miss, other, hit)),
      identifier,
    )
copy_column-Apart TenantColumn.fineract_tenant_identifier t row y rows here other clear
      (id, code, db, identifier) =
    let miss =
      not_found
        (λ r.
          not (r.id == t.id) && same_text r.fineract_tenant_identifier t.fineract_tenant_identifier)
        rows y here clear in
    (
      id,
      code,
      db,
      (λ e.
          let hit =
            (same_text_iff y.fineract_tenant_identifier t.fineract_tenant_identifier).1 (sym e) in
          ground (arith, miss, other, hit)),
    )
copy_column-Apart TenantColumn.db_user t row y rows here other clear h = h
copy_column-Apart TenantColumn.db_host t row y rows here other clear h = h
copy_column-Apart TenantColumn.status t row y rows here other clear h = h
copy_column-Apart TenantColumn.is_active t row y rows here other clear h = h
copy_column-Apart TenantColumn.provisioned_at t row y rows here other clear h = h
copy_column-Apart TenantColumn.suspended_at t row y rows here other clear h = h
copy_column-Apart TenantColumn.suspension_reason t row y rows here other clear h = h

copy_columns-Apart :
    (cs : List TenantColumn) (t row y : Tenant) (rows : List Tenant)
    → Among y rows
    → (y.id == t.id) ≡ false
    → any_clash cs t rows ≡ false
    → Apart row y
    → Apart (copy_columns cs t row) y
copy_columns-Apart [] t row y rows here other clear h = h
copy_columns-Apart (c ∷ cs) t row y rows here other clear h =
    copy_columns-Apart cs t (copy_column c t row) y rows here other (ground (arith, clear))
      (copy_column-Apart c t row y rows here other (ground (arith, clear)) h)

copy_column_id : (c : TenantColumn) (t row : Tenant) → (copy_column c t row).id ≡ row.id
copy_column_id TenantColumn.db_name t row = refl
copy_column_id TenantColumn.db_user t row = refl
copy_column_id TenantColumn.db_host t row = refl
copy_column_id TenantColumn.fineract_tenant_identifier t row = refl
copy_column_id TenantColumn.status t row = refl
copy_column_id TenantColumn.is_active t row = refl
copy_column_id TenantColumn.provisioned_at t row = refl
copy_column_id TenantColumn.suspended_at t row = refl
copy_column_id TenantColumn.suspension_reason t row = refl

copy_columns_id : (cs : List TenantColumn) (t row : Tenant) → (copy_columns cs t row).id ≡ row.id
copy_columns_id [] t row = refl
copy_columns_id (c ∷ cs) t row = copy_columns_id cs t (copy_column c t row) ∙ copy_column_id c t row

module _ (cs : List TenantColumn) (t : Tenant) (rows : List Tenant)
    (clear : any_clash cs t rows ≡ false) where
  written : Tenant → Tenant
  written r = if r.id == t.id then copy_columns cs t r else r

  -- Two rows that stay apart when the columns are written.
  written-Apart :
      (x y : Tenant) → Among x rows → Among y rows → Apart x y → Apart (written x) (written y)
  unfolding written
  written-Apart x y x_here y_here h = elim (Bool-cases (x.id == t.id)) [
    | inl hit ↦ elim (Bool-cases (y.id == t.id)) [
      | inl both ↦ absurd (h.0 ((==_iff x.id t.id).0 hit ∙ sym ((==_iff y.id t.id).0 both)))
      | inr other ↦ rw (hit, other) (copy_columns-Apart cs t x y rows y_here other clear h)
    ]
    | inr other ↦ elim (Bool-cases (y.id == t.id)) [
      | inl hit ↦
          rw (other, hit)
            (Apart-sym (copy_columns cs t y) x
              (copy_columns-Apart cs t y x rows x_here other clear (Apart-sym x y h)))
      | inr neither ↦ rw (other, neither) h
    ]
  ]

  first_written :
      (x : Tenant) (ys : List Tenant)
      → Among x rows
      → All (λ y. Among y rows) ys
      → All (Apart x) ys
      → All (Apart (written x)) (rewrite (λ r. r.id == t.id) (copy_columns cs t) ys)
  unfolding written
  first_written x [] here listed h = tt
  first_written x (y ∷ ys) here (y_here, listed) (first, rest) =
      (written-Apart x y here y_here first, first_written x ys here listed rest)

  all_written :
      (xs : List Tenant)
      → All (λ y. Among y rows) xs
      → Pairwise Apart xs
      → Pairwise Apart (rewrite (λ r. r.id == t.id) (copy_columns cs t) xs)
  unfolding written
  all_written [] listed h = tt
  all_written (x ∷ xs) (here, listed) (first, rest) =
      (first_written x xs here listed first, all_written xs listed rest)

  pub saved-Apart :
      Pairwise Apart rows → Pairwise Apart (rewrite (λ r. r.id == t.id) (copy_columns cs t) rows)
  saved-Apart h = all_written rows (All-self rows) h

-- A save leaves the primary keys.
pub saved_older :
    (cs : List TenantColumn) (t : Tenant) (n : ℕ) (rows : List Tenant)
    → All (λ r. r.id < n) rows
    → All (λ r. r.id < n) (rewrite (λ r. r.id == t.id) (copy_columns cs t) rows)
saved_older cs t n [] h = tt
saved_older cs t n (r ∷ rows) (first, rest) = elim (Bool-cases (r.id == t.id)) [
  | inl hit ↦
      rw hit (subst (λ i. i < n) (sym (copy_columns_id cs t r)) first, saved_older cs t n rows rest)
  | inr miss ↦ rw miss (first, saved_older cs t n rows rest)
]

-- A tenant that is added, with the next primary key.
not_older :
    (n : ℕ) (rows : List Tenant) → All (λ r. r.id < n) rows → exists (λ r. r.id == n) rows ≡ false
not_older n [] h = refl
not_older n (r ∷ rows) (first, rest) = ground (arith, first, not_older n rows rest)

neither_found :
    {A : Type 0} (p q : A → Bool) (xs : List A)
    → exists p xs ≡ false
    → exists q xs ≡ false
    → exists (λ x. p x || q x) xs ≡ false
neither_found p q [] h k = refl
neither_found p q (x ∷ xs) h k = ground (arith, h, k, neither_found p q xs)

pub added-Apart :
    (t : Tenant) (rows : List Tenant)
    → All (λ r. r.id < t.id) rows
    → exists (tenant_clashes t) rows ≡ false
    → Pairwise Apart rows
    → Pairwise Apart (rows ++ t ∷ [])
added-Apart t rows old clear h =
    Pairwise-append Apart (λ r. (r.id == t.id) || tenant_clashes t r) t rows
      (λ r miss. (
        (λ e. let hit = (==_iff r.id t.id).1 e in ground (arith, miss, hit)),
        (λ e.
            let hit = (same_text_iff r.tenant_code t.tenant_code).1 e in ground (arith, miss, hit)),
        (λ e. let hit = (same_text_iff r.db_name t.db_name).1 e in ground (arith, miss, hit)),
        (λ e.
            let hit =
              (same_text_iff r.fineract_tenant_identifier t.fineract_tenant_identifier).1 e in
            ground (arith, miss, hit)),
      ))
      (neither_found _ _ rows (not_older t.id rows old) clear) h
