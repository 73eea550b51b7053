-- ===== src/Registry/Resolve.antt =====
-- The lookup of a tenant by the Host header.
use saa_s_governance_layer_r.Common.{
  ◌≡◌, refl, sym, ap, ◌≢◌, ◌↔◌, ◌∙◌, true, List, [], ◌∷◌, ◌++◌, some, Text, text_eq, ok, arith,
  lookup, contains, lower, lower_idem, strip, strip-lower, count, count-lower, count-append, split,
  split-first, is_empty, nat_beq, if◌then◌else◌, lower-append,
}
use saa_s_governance_layer_r.Registry.{
  TenantConfig, TenantRegistry, parsed, first_part, load, normalize_host, resolve_by_host,
}
use saa_s_governance_layer_r.Registry.Load.{load-IsConsistent}
use saa_s_governance_layer_r.Registry.Complete.{load-IsComplete}

is_empty-lower : (s : Text) → is_empty (lower s) ≡ is_empty s
unfolding lower
is_empty-lower [] = refl
is_empty-lower (c ∷ s) = refl

normalize_host-lower : (h : Text) → normalize_host (lower h) ≡ normalize_host h
unfolding normalize_host
normalize_host-lower h = rw (strip-lower h, lower_idem (strip h))

-- The case of a Host header does not matter.
pub resolve_by_host-lower :
    (r : TenantRegistry) (h : Text)
    → resolve_by_host r (some (lower h)) ≡ resolve_by_host r (some h)
unfolding resolve_by_host
resolve_by_host-lower r h = rw (is_empty-lower h, normalize_host-lower h)

-- The port is cut where there is just one colon.
cut_port : Text → Text
cut_port host = if nat_beq (count b':' host) 1 then first_part (split b':' host) else host

cut_port-port : (h p : Text) → count b':' h ≡ 0 → count b':' p ≡ 0 → cut_port (h ++ b':' ∷ p) ≡ h
unfolding cut_port count
cut_port-port h p plain port =
    let (ps, parts) = split-first b':' h p plain in
    ground (arith, parts, count-append b':' h (b':' ∷ p))

cut_port-plain : (h : Text) → count b':' h ≡ 0 → cut_port h ≡ h
unfolding cut_port
cut_port-plain h plain = rw plain

lower-colon : (p : Text) → lower (b':' ∷ p) ≡ b':' ∷ lower p
unfolding lower
lower-colon p = refl

normalize_host-port :
    (h p : Text)
    → strip h ≡ h
    → strip (h ++ b':' ∷ p) ≡ h ++ b':' ∷ p
    → count b':' h ≡ 0
    → count b':' p ≡ 0
    → normalize_host (h ++ b':' ∷ p) ≡ normalize_host h
unfolding normalize_host cut_port
normalize_host-port h p trimmed whole plain port =
    let host = count-lower h ∙ plain in
    rw (whole, trimmed, lower-append h (b':' ∷ p), lower-colon p)
      (cut_port-port (lower h) (lower p) host (count-lower p ∙ port)
        ∙ sym (cut_port-plain (lower h) host))

-- A port after a host name does not matter: neither holds another colon nor surrounding blanks.
pub resolve_by_host-port :
    (r : TenantRegistry) (h p : Text)
    → h ≢ []
    → strip h ≡ h
    → strip (h ++ b':' ∷ p) ≡ h ++ b':' ∷ p
    → count b':' h ≡ 0
    → count b':' p ≡ 0
    → resolve_by_host r (some (h ++ b':' ∷ p)) ≡ resolve_by_host r (some h)
unfolding resolve_by_host
resolve_by_host-port r [] p given trimmed whole plain port = absurd (given refl)
resolve_by_host-port r (c ∷ h) p given trimmed whole plain port =
    ap (λ k. lookup k r.tenants_by_domain) (normalize_host-port (c ∷ h) p trimmed whole plain port)

-- A tenant that lists a name and is registered under its own id.
abbrev pub IsOwner : TenantRegistry → (name : Text) → TenantConfig → Type 0
IsOwner r name t = (contains t.domains name ≡ true) × (lookup t.tenant_id r.tenants_by_id ≡ some t)

normalize_host-plain : (h : Text) → strip h ≡ h → count b':' h ≡ 0 → normalize_host h ≡ lower h
unfolding normalize_host cut_port
normalize_host-plain h trimmed plain = rw trimmed (cut_port-plain (lower h) (count-lower h ∙ plain))

resolve_by_host-name :
    (r : TenantRegistry) (h : Text)
    → h ≢ []
    → strip h ≡ h
    → count b':' h ≡ 0
    → resolve_by_host r (some h) ≡ lookup (lower h) r.tenants_by_domain
unfolding resolve_by_host
resolve_by_host-name r [] given trimmed plain = absurd (given refl)
resolve_by_host-name r (c ∷ h) given trimmed plain =
    ap (λ k. lookup k r.tenants_by_domain) (normalize_host-plain (c ∷ h) trimmed plain)

-- In a registry that loaded, a Host header that is a name in any case, alone or with a port, reaches
-- a tenant exactly if the tenant lists the name in lower case and is registered under its own id. The
-- name is not empty, and neither name nor port has a colon or blanks around it.
pub resolve_by_host-load :
    (raw : List TenantConfig) (r : TenantRegistry) (h p : Text) (t : TenantConfig)
    → load true (parsed raw) ≡ ok r
    → h ≢ []
    → strip h ≡ h
    → strip (h ++ b':' ∷ p) ≡ h ++ b':' ∷ p
    → count b':' h ≡ 0
    → count b':' p ≡ 0
    → ((resolve_by_host r (some h) ≡ some t) ↔ IsOwner r (lower h) t)
      × ((resolve_by_host r (some (h ++ b':' ∷ p)) ≡ some t) ↔ IsOwner r (lower h) t)
resolve_by_host-load raw r h p t loaded given trimmed whole plain port =
    let name = resolve_by_host-name r h given trimmed plain in
    let same = resolve_by_host-port r h p given trimmed whole plain port in
    let owner : (lookup (lower h) r.tenants_by_domain ≡ some t) → IsOwner r (lower h) t =
      (load-IsConsistent raw r loaded).3 (lower h) t in
    let listed : IsOwner r (lower h) t → lookup (lower h) r.tenants_by_domain ≡ some t =
      λ (lists, known). load-IsComplete raw r loaded t.tenant_id t known (lower h) lists in
    (
      ((λ e. owner (sym name ∙ e)), (λ o. name ∙ listed o)),
      ((λ e. owner (sym name ∙ sym same ∙ e)), (λ o. same ∙ name ∙ listed o)),
    )
