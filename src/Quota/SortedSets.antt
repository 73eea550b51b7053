-- ===== src/Quota/SortedSets.antt =====
-- The sorted sets of Redis: the commands that the scripts of quota_enforcer.py call, with what their
-- documentation says of them as laws about the answer of ZRANGE.
use saa_s_governance_layer_r.Common.{
  ℕ, ◌≡◌, Bool, true, false, not, ◌&&◌, List, [], ◌∷◌, ◌++◌, Text, text_eq, ◌==◌, ℤ, pos, negsuc,
  length, filter, any, leb, map, if◌then◌else◌, ◌<◌, show,
}

-- A member of a sorted set with its score.
abbrev pub Entry : Type 0
Entry = Text × ℕ

-- `n <= z` and `z <= n`
abbrev pub at_most : ℕ → ℤ → Bool
at_most n (pos m) = leb n m
at_most n (negsuc m) = false

abbrev pub at_least : ℤ → ℕ → Bool
at_least (pos m) n = leb m n
at_least (negsuc m) n = true

-- The entries of other members; whether a member has an entry.
abbrev pub others : Text → List Entry → List Entry
others m entries = filter (λ e. not (e.0 == m)) entries

abbrev pub holds : Text → List Entry → Bool
holds m entries = any (λ e. e.0 == m) entries

-- The sorted sets of a Redis server, under their keys.
-- `tostring` is that of the server's Lua, which writes a number by the format %.14g.
pub record SortedSets : Type 1 where
  pub Store : Type 0
  pub tostring : ℕ → Text
  pub tostring-show : (n : ℕ) → n < 100000000000000 → tostring n ≡ show n
  pub zadd : Store → (key : Text) → (score : ℕ) → (member : Text) → Store
  pub zadd_xx : Store → (key : Text) → (score : ℕ) → (member : Text) → Store
  pub zrem : Store → (key member : Text) → Store
  pub zremrangebyscore : Store → (key : Text) → (lo : ℕ) → (hi : ℤ) → Store
  pub expire : Store → (key : Text) → (seconds : ℕ) → Store
  -- What the server does with a key whose time to live has run out.
  pub lapse : Store → (key : Text) → Store
  pub zcard : Store → (key : Text) → ℕ
  pub zrange : Store → (key : Text) → List Entry
  pub zrangebyscore : Store → (key : Text) → (lo : ℤ) → (hi : ℕ) → List Text
  pub zcard_lem : (s : Store) (k : Text) → zcard s k ≡ length (zrange s k)
  pub zrangebyscore_lem :
      (s : Store) (k : Text) (lo : ℤ) (hi : ℕ)
      → zrangebyscore s k lo hi
        ≡ map (λ e. e.0) (filter (λ e. at_least lo e.1 && leb e.1 hi) (zrange s k))
  pub zrange-zrem :
      (s : Store) (k m j : Text)
      → zrange (zrem s k m) j ≡ (if k == j then others m (zrange s j) else zrange s j)
  pub zrange-zremrangebyscore :
      (s : Store) (k : Text) (lo : ℕ) (hi : ℤ) (j : Text)
      → zrange (zremrangebyscore s k lo hi) j ≡ (
          if k == j
          then filter (λ e. not (leb lo e.1 && at_most e.1 hi)) (zrange s j)
          else zrange s j)
  pub zrange-expire :
      (s : Store) (k : Text) (n : ℕ) (j : Text) → zrange (expire s k n) j ≡ zrange s j
  pub zrange-lapse :
      (s : Store) (k j : Text) → zrange (lapse s k) j ≡ (if k == j then [] else zrange s j)
  pub zrange-zadd_other :
      (s : Store) (k : Text) (n : ℕ) (m j : Text)
      → (k == j) ≡ false
      → zrange (zadd s k n m) j ≡ zrange s j
  -- The member's entry goes somewhere among those of the others, and replaces its old one.
  pub zrange-zadd :
      (s : Store) (k : Text) (n : ℕ) (m : Text)
      → (before after : List Entry) × (others m (zrange s k) ≡ before ++ after)
        × (zrange (zadd s k n m) k ≡ before ++ (m, n) ∷ after)
  -- `XX` only updates a member that is there.
  pub zadd_xx_lem :
      (s : Store) (k : Text) (n : ℕ) (m : Text)
      → zadd_xx s k n m ≡ (if holds m (zrange s k) then zadd s k n m else s)
