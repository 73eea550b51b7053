-- ===== src/Common/Dicts.antt =====
-- Python's `dict`: pairs in insertion order. A write to a key that is there keeps its place, and
-- `erase` is `pop(key, None)`.
use Prim.Native.Nat.{◌+◌, ◌≤◌}
use mathlib.Core.Path.{◌≡◌, refl}
use mathlib.Core.Bool.{Bool}
use mathlib.Core.Option.{Option, none, some}
use mathlib.Core.List.{List, [], ◌∷◌}
use native.Mathlib.Omega.{arith}
use saa_s_governance_layer_r.Common.Tests.{Eq, ◌==◌, ==_iff, is_some, get_or, if◌then◌else◌}
use saa_s_governance_layer_r.Common.Lists.{length}

abbrev pub Dict {ℓ κ} : Type ℓ → Type κ → Type (ℓ ⊔ κ)
Dict K V = List (K × V)

module _ {ℓ κ} {K : Type ℓ} {V : Type κ} ⦃e : Eq K⦄ where
  unfoldable pub lookup : K → Dict K V → Option V
  lookup k [] = none
  lookup k ((j, v) ∷ d) = if j == k then some v else lookup k d

  unfoldable pub insert : K → V → Dict K V → Dict K V
  insert k v [] = (k, v) ∷ []
  insert k v ((j, w) ∷ d) = if j == k then (k, v) ∷ d else (j, w) ∷ insert k v d

  unfoldable pub erase : K → Dict K V → Dict K V
  erase k [] = []
  erase k ((j, v) ∷ d) = if j == k then erase k d else (j, v) ∷ erase k d

  -- `key in d`
  abbrev pub has : K → Dict K V → Bool
  has k d = is_some (lookup k d)

  pub lookup-nil : (k : K) → ◌≡◌ {A = Option V} (lookup k []) none
  unfolding lookup
  lookup-nil k = refl

  pub lookup-insert :
      (k j : K) (v : V) (d : Dict K V)
      → lookup j (insert k v d) ≡ (if k == j then some v else lookup j d)
  unfolding lookup insert
  lookup-insert k j v [] = refl
  lookup-insert k j v ((i, w) ∷ d) =
      ground (arith, ==_iff k j, ==_iff i k, ==_iff i j, lookup-insert k j v d)

  pub lookup-erase :
      (k j : K) (d : Dict K V) → lookup j (erase k d) ≡ (if k == j then none else lookup j d)
  unfolding lookup erase
  lookup-erase k j [] = ground arith
  lookup-erase k j ((i, w) ∷ d) =
      ground (arith, ==_iff k j, ==_iff i k, ==_iff i j, lookup-erase k j d)

  -- A write adds one entry, and only at a new key.
  pub length-insert :
      (k : K) (v : V) (d : Dict K V) → length (insert k v d) ≡ length d + (if has k d then 0 else 1)
  unfolding lookup insert
  length-insert k v [] = refl
  length-insert k v ((i, w) ∷ d) = ground (arith, length-insert k v d)

  pub length-erase-le : (k : K) (d : Dict K V) → length (erase k d) ≤ length d
  unfolding erase
  length-erase-le k [] = omega arith
  length-erase-le k ((i, w) ∷ d) = ground (arith, length-erase-le k d)

  pub erase-absent : (k : K) (d : Dict K V) → lookup k d ≡ none → erase k d ≡ d
  unfolding lookup erase
  erase-absent k [] h = refl
  erase-absent k ((i, w) ∷ d) h = ground (arith, erase-absent k d)

  -- A fresh key written and removed again leaves no trace.
  pub erase-insert : (k : K) (v : V) (d : Dict K V) → lookup k d ≡ none → erase k (insert k v d) ≡ d
  unfolding lookup erase insert
  erase-insert k v [] h = ground (arith, ==_iff k k)
  erase-insert k v ((i, w) ∷ d) h = ground (arith, ==_iff k k, erase-insert k v d)

module _ {ℓ κ} {K : Type ℓ} {V : Type κ} ⦃e : Eq K⦄ where
  -- Reading a `defaultdict` after a write.
  pub get_or-insert :
      (k j : K) (v w : V) (d : Dict K V)
      → get_or (lookup j (insert k v d)) w ≡ (if k == j then v else get_or (lookup j d) w)
  get_or-insert k j v w d = ground (arith, lookup-insert k j v d)
