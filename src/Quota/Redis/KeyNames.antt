-- ===== src/Quota/Redis/KeyNames.antt =====
-- The names of the enforcer's keys: `_keys` and `_concurrency_keys`.
use mathlib.Core.List.{reverse-append}
use saa_s_governance_layer_r.Common.{
  ℕ, ◌≡◌, refl, sym, ap, ◌∙◌, inl, inr, true, false, [], ◌∷◌, ◌++◌, Text, codes, text_eq, text_beq,
  text_beq_iff, ◌==◌, arith, count, partition, partition-first, reverse, append_assoc, Bool-cases,
  nat_beq_iff, if◌then◌else◌, ◌+◌,
}
use saa_s_governance_layer_r.Quota.Redis.{Keys}
use saa_s_governance_layer_r.Quota.Redis.Methods.{RedisQuotaEnforcer, keys_of}

-- The four keys whose members are counted.
pub data Kind : Type 0 where
  user_requests tenant_requests user_concurrency tenant_concurrency : Kind

unfoldable pub key_at : Kind → Keys → Text
key_at user_requests keys = keys.user_requests
key_at tenant_requests keys = keys.tenant_requests
key_at user_concurrency keys = keys.user_concurrency
key_at tenant_concurrency keys = keys.tenant_concurrency

-- A tenant id without the separator of the key names.
abbrev pub IsPlain : Text → Type 0
IsPlain t = count b':' t ≡ 0

-- Texts compare as their rests behind a common beginning.
append-beq : (p s t : Text) → text_beq (p ++ s) (p ++ t) ≡ text_beq s t
unfolding text_beq
append-beq [] s t = refl
append-beq (c ∷ p) s t = ground (arith, append-beq p s t, nat_beq_iff c c)

-- Texts with different ends differ.
ends-differ :
    (a b x y : Text)
    → text_beq (reverse x ++ reverse a) (reverse y ++ reverse b) ≡ false
    → text_beq (a ++ x) (b ++ y) ≡ false
ends-differ a b x y h = elim (Bool-cases (text_beq (a ++ x) (b ++ y))) [
  | inr other ↦ other
  | inl same ↦
      let turned =
        sym (reverse-append a x) ∙ ap reverse ((text_beq_iff _ _).0 same) ∙ reverse-append b y in
      cc (h, (text_beq_iff _ _).1 turned)
]

-- A key of one call against the target of another.
abbrev pub hit : Text → Text → ℕ
hit key j = if key == j then 1 else 0

-- How many of the six keys are `j`.
abbrev pub hits : Keys → Text → ℕ
hits keys j =
    hit keys.user_requests j
    + hit keys.user_input j
    + hit keys.tenant_requests j
    + hit keys.tenant_input j
    + hit keys.user_concurrency j
    + hit keys.tenant_concurrency j

pub hit-false : (key j : Text) → (key == j) ≡ false → hit key j ≡ 0
hit-false key j h = rw h refl

module _ (e : RedisQuotaEnforcer) (t u t' u' : Text) where
  abbrev own : Keys
  own = keys_of e t u

  abbrev called : Keys
  called = keys_of e t' u'

  -- Two kinds of keys never share a name.
  pub kinds-differ :
      ((called.user_input == own.user_requests) ≡ false)
      × ((called.tenant_requests == own.user_requests) ≡ false)
      × ((called.tenant_input == own.user_requests) ≡ false)
      × ((called.user_concurrency == own.user_requests) ≡ false)
      × ((called.tenant_concurrency == own.user_requests) ≡ false)
      × ((called.user_requests == own.tenant_requests) ≡ false)
      × ((called.user_input == own.tenant_requests) ≡ false)
      × ((called.tenant_input == own.tenant_requests) ≡ false)
      × ((called.user_concurrency == own.tenant_requests) ≡ false)
      × ((called.tenant_concurrency == own.tenant_requests) ≡ false)
      × ((called.user_requests == own.user_concurrency) ≡ false)
      × ((called.user_input == own.user_concurrency) ≡ false)
      × ((called.tenant_requests == own.user_concurrency) ≡ false)
      × ((called.tenant_input == own.user_concurrency) ≡ false)
      × ((called.tenant_concurrency == own.user_concurrency) ≡ false)
      × ((called.user_requests == own.tenant_concurrency) ≡ false)
      × ((called.user_input == own.tenant_concurrency) ≡ false)
      × ((called.tenant_requests == own.tenant_concurrency) ≡ false)
      × ((called.tenant_input == own.tenant_concurrency) ≡ false)
      × ((called.user_concurrency == own.tenant_concurrency) ≡ false)
  unfolding keys_of text_beq
  kinds-differ = (
    ends-differ (e.key_prefix ++ (codes ":quota:user:" ++ (t' ++ b':' ∷ u')))
        (e.key_prefix ++ (codes ":quota:user:" ++ (t ++ b':' ∷ u))) (codes ":input_tokens")
        (codes ":requests") refl,
    simp (append_assoc, append-beq),
    simp (append_assoc, append-beq),
    simp (append_assoc, append-beq),
    simp (append_assoc, append-beq),
    simp (append_assoc, append-beq),
    simp (append_assoc, append-beq),
    ends-differ (e.key_prefix ++ (codes ":quota:tenant:" ++ t'))
        (e.key_prefix ++ (codes ":quota:tenant:" ++ t)) (codes ":input_tokens") (codes ":requests")
        refl,
    simp (append_assoc, append-beq),
    simp (append_assoc, append-beq),
    simp (append_assoc, append-beq),
    simp (append_assoc, append-beq),
    simp (append_assoc, append-beq),
    simp (append_assoc, append-beq),
    simp (append_assoc, append-beq),
    simp (append_assoc, append-beq),
    simp (append_assoc, append-beq),
    simp (append_assoc, append-beq),
    simp (append_assoc, append-beq),
    simp (append_assoc, append-beq),
  )

  pub hits-key_at : (k : Kind) → hits called (key_at k own) ≡ hit (key_at k called) (key_at k own)
  unfolding key_at
  hits-key_at user_requests = let d = kinds-differ in rw (d.0, d.1, d.2, d.3, d.4) (omega arith)
  hits-key_at tenant_requests = let d = kinds-differ in rw (d.5, d.6, d.7, d.8, d.9) (omega arith)
  hits-key_at user_concurrency =
      let d = kinds-differ in rw (d.10, d.11, d.12, d.13, d.14) (omega arith)
  hits-key_at tenant_concurrency =
      let d = kinds-differ in rw (d.15, d.16, d.17, d.18, d.19) (omega arith)

-- The part of a text before its first colon.
before-colon : (t t' x y : Text) → IsPlain t → IsPlain t' → t' ++ b':' ∷ x ≡ t ++ b':' ∷ y → t' ≡ t
before-colon t t' x y plain plain' same =
    let read =
      sym (partition-first b':' t' x plain')
      ∙ ap (partition b':') same
      ∙ partition-first b':' t y plain in
    cc (read)

module _ (e : RedisQuotaEnforcer) (t u t' u' : Text) (plain : IsPlain t) (plain' : IsPlain t') where
  -- A key of a plain tenant id names its tenant.
  pub key_at-injective :
      (k : Kind) → (key_at k (keys_of e t' u') == key_at k (keys_of e t u)) ≡ true → t' ≡ t
  unfolding key_at keys_of text_beq
  key_at-injective user_requests h =
      before-colon t t' (u' ++ codes ":requests") (u ++ codes ":requests") plain plain'
        ((text_beq_iff _ _).0 (simp (append_assoc, append-beq) at h))
  key_at-injective tenant_requests h =
      before-colon t t' (codes "requests") (codes "requests") plain plain'
        ((text_beq_iff _ _).0 (simp (append_assoc, append-beq) at h))
  key_at-injective user_concurrency h =
      before-colon t t' u' u plain plain'
        ((text_beq_iff _ _).0 (simp (append_assoc, append-beq) at h))
  key_at-injective tenant_concurrency h =
      (text_beq_iff _ _).0 (simp (append_assoc, append-beq) at h)

-- A tenant id with a colon shares its users' keys with another tenant.
pub user_requests-collide :
    (e : RedisQuotaEnforcer) (t x u : Text)
    → (keys_of e (t ++ b':' ∷ x) u).user_requests ≡ (keys_of e t (x ++ b':' ∷ u)).user_requests
unfolding keys_of
user_requests-collide e t x u = simp append_assoc
