-- ===== src/Quota/Redis/Effects.antt =====
-- What the commands and the scripts do to the number of members at a key.
use saa_s_governance_layer_r.Common.{
  ℕ, ◌+◌, ◌≤◌, ◌≡◌, refl, subst, inl, inr, true, not, ◌&&◌, List, [], ◌∷◌, Text, text_eq, ◌==◌,
  ==_iff, ==-refl, ℤ, length, length-append, length-filter-le, arith, is_empty, leb, Bool-cases,
}
use saa_s_governance_layer_r.Quota.Redis.{
  Keys, CheckArgs, cleaned, added, kept_alive, zrem_first, finish_script, heartbeat_script,
}
use saa_s_governance_layer_r.Quota.SortedSets.{Entry, SortedSets, at_most, others, holds}
use saa_s_governance_layer_r.Quota.Redis.KeyNames.{hit, hits}

length-others-holds :
    (m : Text) (es : List Entry) → holds m es ≡ true → length (others m es) + 1 ≤ length es
length-others-holds m [] h = cc
length-others-holds m (x ∷ es) h =
    ground (arith, length-others-holds m es, length-filter-le (λ e. not (e.0 == m)) es)

module _ (redis : SortedSets) where
  open redis use {Store, zrange}

  -- The number of members at a key.
  abbrev pub card : Text → Store → ℕ
  card j s = length (zrange s j)

  card-zrem : (s : Store) (k m j : Text) → card j (redis.zrem s k m) ≤ card j s
  card-zrem s k m j =
      rw (redis.zrange-zrem s k m j)
        (ground (arith, length-filter-le (λ e. not (e.0 == m)) (zrange s j)))

  card-zremrangebyscore :
      (s : Store) (k : Text) (lo : ℕ) (hi : ℤ) (j : Text)
      → card j (redis.zremrangebyscore s k lo hi) ≤ card j s
  card-zremrangebyscore s k lo hi j =
      rw (redis.zrange-zremrangebyscore s k lo hi j)
        (ground (arith, length-filter-le (λ e. not (leb lo e.1 && at_most e.1 hi)) (zrange s j)))

  card-expire : (s : Store) (k : Text) (n : ℕ) (j : Text) → card j (redis.expire s k n) ≡ card j s
  card-expire s k n j = rw (redis.zrange-expire s k n j) refl

  -- One member more than the others at the key.
  card-zadd_own :
      (s : Store) (k : Text) (n : ℕ) (m : Text)
      → card k (redis.zadd s k n m) ≡ length (others m (zrange s k)) + 1
  card-zadd_own s k n m =
      let (before, after, rest, whole) = redis.zrange-zadd s k n m in
      rw (rest, whole)
        (omega (arith, length-append before after, length-append before ((m, n) ∷ after)))

  card-zadd :
      (s : Store) (k : Text) (n : ℕ) (m j : Text) → card j (redis.zadd s k n m) ≤ card j s + hit k j
  card-zadd s k n m j = elim (Bool-cases (k == j)) [
    | inr other ↦ rw (redis.zrange-zadd_other s k n m j other, other) (omega arith)
    | inl same ↦
        subst (λ x. card x (redis.zadd s k n m) ≤ card x s + hit k x) ((==_iff k j).0 same)
          (rw (==-refl k) (
            omega
              (arith, card-zadd_own s k n m, length-filter-le (λ e. not (e.0 == m)) (zrange s k))))
  ]

  card-zadd_held :
      (s : Store) (k : Text) (n : ℕ) (m j : Text)
      → holds m (zrange s k) ≡ true
      → card j (redis.zadd s k n m) ≤ card j s
  card-zadd_held s k n m j present = elim (Bool-cases (k == j)) [
    | inr other ↦ rw (redis.zrange-zadd_other s k n m j other) (omega arith)
    | inl same ↦
        subst (λ x. card x (redis.zadd s k n m) ≤ card x s) ((==_iff k j).0 same)
          (omega (arith, card-zadd_own s k n m, length-others-holds m (zrange s k) present))
  ]

  card-zadd_xx :
      (s : Store) (k : Text) (n : ℕ) (m j : Text) → card j (redis.zadd_xx s k n m) ≤ card j s
  card-zadd_xx s k n m j =
      rw (redis.zadd_xx_lem s k n m) (elim (Bool-cases (holds m (zrange s k))) [
        | inr absent ↦ rw absent (omega arith)
        | inl present ↦ rw present (card-zadd_held s k n m j present)
      ])

  pub card-cleaned :
      (s : Store) (keys : Keys) (a : CheckArgs) (j : Text)
      → card j (cleaned redis s keys a) ≤ card j s
  unfolding cleaned
  card-cleaned s keys a j = omega (arith, card-zremrangebyscore)

  pub card-added :
      (s : Store) (keys : Keys) (a : CheckArgs) (j : Text)
      → card j (added redis s keys a) ≤ card j s + hits keys j
  unfolding added
  card-added s keys a j = omega (arith, card-zadd)

  pub card-kept_alive :
      (s : Store) (keys : Keys) (n : ℕ) (j : Text) → card j (kept_alive redis s keys n) ≡ card j s
  unfolding kept_alive
  card-kept_alive s keys n j = omega (arith, card-expire)

  card-zrem_first :
      (s : Store) (k : Text) (es : List Entry) (j : Text)
      → card j (zrem_first redis s k es) ≤ card j s
  unfolding zrem_first
  card-zrem_first s k [] j = omega arith
  card-zrem_first s k (oldest ∷ rest) j = card-zrem s k oldest.0 j

  pub card-finish_script :
      (s : Store) (uk tk rid : Text) (ttl : ℕ) (j : Text)
      → card j (finish_script redis s uk tk rid ttl) ≤ card j s
  unfolding finish_script
  card-finish_script s uk tk rid ttl j = elim (Bool-cases (is_empty rid)) [
    | inl oldest ↦ rw (oldest, finish_script) (omega (arith, card-expire, card-zrem_first))
    | inr own ↦ rw (own, finish_script) (omega (arith, card-expire, card-zrem))
  ]

  pub card-heartbeat_script :
      (s : Store) (uk tk : Text) (now : ℕ) (rid : Text) (ttl : ℕ) (j : Text)
      → card j (heartbeat_script redis s uk tk now rid ttl) ≤ card j s
  unfolding heartbeat_script
  card-heartbeat_script s uk tk now rid ttl j = omega (arith, card-expire, card-zadd_xx)

  pub card-lapse : (s : Store) (k j : Text) → card j (redis.lapse s k) ≤ card j s
  card-lapse s k j = rw (redis.zrange-lapse s k j) (ground arith)
