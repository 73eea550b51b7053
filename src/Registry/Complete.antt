-- ===== src/Registry/Complete.antt =====
-- The indexes that `TenantRegistry.load` builds: every tenant is found under its domains.
use saa_s_governance_layer_r.Common.{
  ◌≡◌, inl, inr, true, List, [], ◌∷◌, none, some, Text, text_eq, ok, arith, Dict, lookup, contains,
  lookup-insert, lookup-nil, subst, ◌==◌, All, Bool-cases, All-contains,
}
use saa_s_governance_layer_r.Registry.{
  TenantConfig, TenantRegistry, parsed, add_domains, add_tenants, load,
}
use saa_s_governance_layer_r.Registry.Load.{
  extended, load-built, add_tenants-step, add_domains-adds, extended-Keeps,
}

-- A registered tenant is found under each of its domains.
abbrev pub IsComplete : TenantRegistry → Type 0
IsComplete r =
    (i : Text) (u : TenantConfig)
    → lookup i r.tenants_by_id ≡ some u
    → (d : Text) → contains u.domains d ≡ true
    → lookup d r.tenants_by_domain ≡ some u

extended-IsComplete :
    (t : TenantConfig) (r : TenantRegistry) (m : Dict Text TenantConfig)
    → lookup t.tenant_id r.tenants_by_id ≡ none
    → add_domains t t.domains r.tenants_by_domain ≡ ok m
    → IsComplete r
    → IsComplete (extended r t m)
extended-IsComplete t r m new added c i u e d listed = elim (Bool-cases (t.tenant_id == i)) [
  | inl same ↦
      let own : t ≡ u = ground (arith, lookup-insert t.tenant_id i t r.tenants_by_id) in
      let domains =
        subst (λ x. All (λ d. lookup d m ≡ some x) x.domains) own
          (add_domains-adds t t.domains r.tenants_by_domain m added) in
      All-contains (λ d. lookup d m ≡ some u) u.domains d domains listed
  | inr other ↦
      let old : lookup i r.tenants_by_id ≡ some u =
        ground (arith, lookup-insert t.tenant_id i t r.tenants_by_id) in
      (extended-Keeps t r m new added).0 d u (c i u old d listed)
]

add_tenants-IsComplete :
    (ts : List TenantConfig) (r s : TenantRegistry)
    → add_tenants ts r ≡ ok s
    → IsComplete r
    → IsComplete s
unfolding add_tenants
add_tenants-IsComplete [] r s h c = let same : r ≡ s = ground arith in subst IsComplete same c
add_tenants-IsComplete (t ∷ ts) r s h c =
    let (m, new, added, rest) = add_tenants-step t ts r s h in
    add_tenants-IsComplete ts (extended r t m) s rest (extended-IsComplete t r m new added c)

pub load-IsComplete :
    (raw : List TenantConfig) (r : TenantRegistry) → load true (parsed raw) ≡ ok r → IsComplete r
load-IsComplete raw r h =
    let (document, valid, built) = load-built raw r h in
    add_tenants-IsComplete document _ r built (λ i u e. cc (lookup-nil {V = TenantConfig} i))
