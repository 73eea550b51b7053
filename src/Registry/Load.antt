-- ===== src/Registry/Load.antt =====
-- The indexes that `TenantRegistry.load` builds, against the document.
use saa_s_governance_layer_r.Common.{
  ◌≡◌, inl, inr, true, List, [], ◌∷◌, none, some, Text, text_eq, ok, arith, Dict, lookup, insert,
  contains, lookup-insert, lookup-nil, subst, ==_iff, ==-refl, ◌==◌, All, Option-cases, Bool-cases,
  Result-cases, Result, err, All-map, All-mem, >>=-eq-ok,
}
use saa_s_governance_layer_r.Registry.{
  RegistryLoadError, TenantConfig, TenantRegistry, parsed, as_failure, read_document, add_domains,
  add_tenants, load, validate_document,
}

-- The domain index points at tenants that list the domain, under their own id.
abbrev pub IsConsistent : TenantRegistry → Type 0
IsConsistent r =
    (d : Text) (t : TenantConfig)
    → lookup d r.tenants_by_domain ≡ some t
    → (contains t.domains d ≡ true) × (lookup t.tenant_id r.tenants_by_id ≡ some t)

module _ (P : Text → TenantConfig → Type 0) (t : TenantConfig) where
  -- An insert at a new key keeps what held of every entry.
  insert-entries :
      (k : Text) (m : Dict Text TenantConfig)
      → ((j : Text) (u : TenantConfig) → lookup j m ≡ some u → P j u)
      → P k t
      → (j : Text) (u : TenantConfig) → lookup j (insert k t m) ≡ some u
      → P j u
  insert-entries k m old new j u h = elim (Bool-cases (k == j)) [
    | inl same ↦ ground (arith, lookup-insert k j t m, ==_iff k j)
    | inr other ↦ old j u (ground (arith, lookup-insert k j t m))
  ]

  add_domains-entries :
      (ds : List Text) (m n : Dict Text TenantConfig)
      → add_domains t ds m ≡ ok n
      → ((j : Text) (u : TenantConfig) → lookup j m ≡ some u → P j u)
      → All (λ d. P d t) ds
      → (j : Text) (u : TenantConfig) → lookup j n ≡ some u
      → P j u
  unfolding add_domains
  add_domains-entries [] m n h old new j u e = old j u (ground arith)
  add_domains-entries (d ∷ ds) m n h old new j u e = elim (Option-cases (lookup d m)) [
    | inl free ↦
        add_domains-entries ds (insert d t m) n (ground arith) (insert-entries d m old new.0) new.1
          j u e
    | inr (owner, taken) ↦ cc (rw (taken, add_domains) at h)
  ]

-- An entry that is there stays.
add_domains-keeps :
    (t : TenantConfig) (ds : List Text) (m n : Dict Text TenantConfig)
    → (j : Text) (u : TenantConfig) → add_domains t ds m ≡ ok n
    → lookup j m ≡ some u
    → lookup j n ≡ some u
unfolding add_domains
add_domains-keeps t [] m n j u h e = ground arith
add_domains-keeps t (d ∷ ds) m n j u h e =
    ground (arith, add_domains-keeps t ds (insert d t m) n j u, lookup-insert d j t m, ==_iff d j)

-- Every domain that is added points at the tenant.
pub add_domains-adds :
    (t : TenantConfig) (ds : List Text) (m n : Dict Text TenantConfig)
    → add_domains t ds m ≡ ok n
    → All (λ d. lookup d n ≡ some t) ds
unfolding add_domains
add_domains-adds t [] m n h = tt
add_domains-adds t (d ∷ ds) m n h = elim (Option-cases (lookup d m)) [
  | inl free ↦
      let rest : add_domains t ds (insert d t m) ≡ ok n = ground arith in
      (
        add_domains-keeps t ds (insert d t m) n d t rest
            (ground (arith, lookup-insert d d t m, ==-refl d)),
        add_domains-adds t ds (insert d t m) n rest,
      )
  | inr (owner, taken) ↦ cc (rw (taken, add_domains) at h)
]

-- An entry of either index, kept as the registry grows.
abbrev pub Keeps : TenantRegistry → TenantRegistry → Type 0
Keeps r s =
    ((d : Text) (u : TenantConfig)
      → lookup d r.tenants_by_domain ≡ some u
      → lookup d s.tenants_by_domain ≡ some u)
    × ((i : Text) (u : TenantConfig)
        → lookup i r.tenants_by_id ≡ some u
        → lookup i s.tenants_by_id ≡ some u)

-- A tenant is registered: under its id, and under every domain that it lists.
abbrev pub IsRegistered : TenantRegistry → TenantConfig → Type 0
IsRegistered r t =
    (lookup t.tenant_id r.tenants_by_id ≡ some t)
    × All (λ d. lookup d r.tenants_by_domain ≡ some t) t.domains

abbrev pub extended : TenantRegistry → TenantConfig → Dict Text TenantConfig → TenantRegistry
extended r t by_domain = record {
  tenants_by_id = insert t.tenant_id t r.tenants_by_id;
  tenants_by_domain = by_domain;
}

-- One round of the outer loop of `load` that does not raise.
pub add_tenants-step :
    (t : TenantConfig) (ts : List TenantConfig) (r s : TenantRegistry)
    → add_tenants (t ∷ ts) r ≡ ok s
    → (by_domain : Dict Text TenantConfig) × (lookup t.tenant_id r.tenants_by_id ≡ none)
      × (add_domains t t.domains r.tenants_by_domain ≡ ok by_domain)
      × (add_tenants ts (extended r t by_domain) ≡ ok s)
unfolding add_tenants
add_tenants-step t ts r s h = elim (Option-cases (lookup t.tenant_id r.tenants_by_id)) [
  | inr (u, taken) ↦ cc (rw (taken, add_tenants) at h)
  | inl new ↦ elim (Result-cases (add_domains t t.domains r.tenants_by_domain)) [
    | inl (m, added) ↦ (m, new, added, ground arith)
    | inr (e, failed) ↦ cc (rw (new, failed, add_tenants) at h)
  ]
]

pub extended-Keeps :
    (t : TenantConfig) (r : TenantRegistry) (m : Dict Text TenantConfig)
    → lookup t.tenant_id r.tenants_by_id ≡ none
    → add_domains t t.domains r.tenants_by_domain ≡ ok m
    → Keeps r (extended r t m)
extended-Keeps t r m new added = (
  (λ d u e. add_domains-keeps t t.domains r.tenants_by_domain m d u added e),
  (λ i u e. ground (arith, lookup-insert t.tenant_id i t r.tenants_by_id, ==_iff t.tenant_id i)),
)

extended-IsConsistent :
    (t : TenantConfig) (r : TenantRegistry) (m : Dict Text TenantConfig)
    → lookup t.tenant_id r.tenants_by_id ≡ none
    → add_domains t t.domains r.tenants_by_domain ≡ ok m
    → IsConsistent r
    → IsConsistent (extended r t m)
extended-IsConsistent t r m new added c =
    add_domains-entries Points t t.domains r.tenants_by_domain m added
      (λ d u e.
        let (listed, known) = c d u e in
        (listed, (extended-Keeps t r m new added).1 u.tenant_id u known))
      (All-mem t.domains (λ d listed. (listed, own)))
  where
    Points : Text → TenantConfig → Type 0
    Points d u =
        (contains u.domains d ≡ true)
        × (lookup u.tenant_id (insert t.tenant_id t r.tenants_by_id) ≡ some u)

    own : lookup t.tenant_id (insert t.tenant_id t r.tenants_by_id) ≡ some t
    own =
        ground (arith, lookup-insert t.tenant_id t.tenant_id t r.tenants_by_id, ==-refl t.tenant_id)

add_tenants-Keeps :
    (ts : List TenantConfig) (r s : TenantRegistry) → add_tenants ts r ≡ ok s → Keeps r s
unfolding add_tenants
add_tenants-Keeps [] r s h = ((λ d u e. ground arith), (λ i u e. ground arith))
add_tenants-Keeps (t ∷ ts) r s h =
    let (m, new, added, rest) = add_tenants-step t ts r s h in
    let first = extended-Keeps t r m new added in
    let later = add_tenants-Keeps ts (extended r t m) s rest in
    ((λ d u e. later.0 d u (first.0 d u e)), (λ i u e. later.1 i u (first.1 i u e)))

add_tenants-IsConsistent :
    (ts : List TenantConfig) (r s : TenantRegistry)
    → add_tenants ts r ≡ ok s
    → IsConsistent r
    → IsConsistent s
unfolding add_tenants
add_tenants-IsConsistent [] r s h c d u e =
    let same : r ≡ s = ground arith in subst IsConsistent same c d u e
add_tenants-IsConsistent (t ∷ ts) r s h c d u e =
    let (m, new, added, rest) = add_tenants-step t ts r s h in
    add_tenants-IsConsistent ts (extended r t m) s rest (extended-IsConsistent t r m new added c) d
      u e

add_tenants-IsRegistered :
    (ts : List TenantConfig) (r s : TenantRegistry)
    → add_tenants ts r ≡ ok s
    → All (IsRegistered s) ts
add_tenants-IsRegistered [] r s h = tt
add_tenants-IsRegistered (t ∷ ts) r s h =
    let (m, new, added, rest) = add_tenants-step t ts r s h in
    let later = add_tenants-Keeps ts (extended r t m) s rest in
    let own : lookup t.tenant_id (extended r t m).tenants_by_id ≡ some t =
      ground
        (arith, lookup-insert t.tenant_id t.tenant_id t r.tenants_by_id, ==-refl t.tenant_id) in
    let domains = add_domains-adds t t.domains r.tenants_by_domain m added in
    (
      (later.1 t.tenant_id t own, All-map t.domains (λ d e. later.0 d t e) domains),
      add_tenants-IsRegistered ts (extended r t m) s rest,
    )

as_failure-ok {ℓ} :
    {A : Type ℓ} (m : Result RegistryLoadError A) (a : A) → as_failure m ≡ ok a → m ≡ ok a
as_failure-ok (err e) a h = cc h
as_failure-ok (ok b) a h = ground arith

read_document-ok :
    (raw document : List TenantConfig)
    → read_document (parsed raw) ≡ ok document
    → validate_document raw ≡ some document
unfolding read_document
read_document-ok raw document h = elim (Option-cases (validate_document raw)) [
  | inl invalid ↦ cc (rw (read_document, invalid) at h)
  | inr (valid, found) ↦ cc (found, rw (read_document, found) at h)
]

-- A registry that loads was built from a valid document.
pub load-built :
    (raw : List TenantConfig) (r : TenantRegistry)
    → load true (parsed raw) ≡ ok r
    → (document : List TenantConfig) × (validate_document raw ≡ some document)
      × (add_tenants document (record { tenants_by_id = []; tenants_by_domain = [] }) ≡ ok r)
unfolding load
load-built raw r h =
    let (document, read, rest) = >>=-eq-ok (read_document (parsed raw)) _ h in
    (document, read_document-ok raw document read, as_failure-ok _ r rest)

-- A registry that loads holds every tenant of the validated document, under its id and under each of
-- its domains; and its domain index points only at tenants that list the domain and are registered
-- under their own id.
pub load-IsConsistent :
    (raw : List TenantConfig) (r : TenantRegistry)
    → load true (parsed raw) ≡ ok r
    → (document : List TenantConfig) × (validate_document raw ≡ some document)
      × All (IsRegistered r) document
      × IsConsistent r
load-IsConsistent raw r h =
    let (document, valid, built) = load-built raw r h in
    (
      document,
      valid,
      add_tenants-IsRegistered document _ r built,
      add_tenants-IsConsistent document _ r built (λ d t e. cc (lookup-nil {V = TenantConfig} d)),
    )
