-- ===== src/Billing/Replay.antt =====
-- The replay memory, `_BoundedLRUSet`: its well-formedness and its answers.
use saa_s_governance_layer_r.Common.{
  ℕ, ◌+◌, ◌≤◌, ◌≡◌, refl, true, false, not, List, [], ◌∷◌, ◌++◌, Text, text_eq, ◌==◌, ==_iff,
  ==-refl, length, length-append, contains, length-filter-le, arith, Bool-cases, inl, inr,
  if◌then◌else◌,
}
use saa_s_governance_layer_r.Billing.{BoundedLruSet, evict, add_if_absent, discard, without}

-- A key occurs at most once.
abbrev pub IsUnique : List Text → Type 0
IsUnique [] = Unit
IsUnique (k ∷ ks) = (contains ks k ≡ false) × IsUnique ks

contains-append :
    (xs : List Text) (a k : Text)
    → contains (xs ++ a ∷ []) k ≡ (if a == k then true else contains xs k)
contains-append [] a k = ground arith
contains-append (x ∷ xs) a k = ground (arith, contains-append xs a k)

contains-without :
    (key k : Text) (xs : List Text)
    → contains (without key xs) k ≡ (if key == k then false else contains xs k)
contains-without key k [] = ground arith
contains-without key k (x ∷ xs) =
    ground (arith, contains-without key k xs, ==_iff x key, ==_iff x k, ==_iff key k)

IsUnique-append :
    (xs : List Text) (a : Text) → IsUnique xs → contains xs a ≡ false → IsUnique (xs ++ a ∷ [])
IsUnique-append [] a u h = (refl, tt)
IsUnique-append (x ∷ xs) a u h = (
  ground (arith, contains-append xs a x, ==_iff a x, ==_iff x a),
  IsUnique-append xs a u.1 (ground arith),
)

IsUnique-without : (key : Text) (xs : List Text) → IsUnique xs → IsUnique (without key xs)
IsUnique-without key [] u = tt
IsUnique-without key (x ∷ xs) u = elim (Bool-cases (x == key)) [
  | inl gone ↦ rw gone (IsUnique-without key xs u.1)
  | inr kept ↦ rw kept (ground (arith, contains-without key x xs), IsUnique-without key xs u.1)
]

evict-IsUnique : (n : ℕ) (xs : List Text) → IsUnique xs → IsUnique (evict n xs)
unfolding evict
evict-IsUnique n [] u = tt
evict-IsUnique n (x ∷ xs) u = ground (arith, evict-IsUnique n xs u.1)

length-evict : (n : ℕ) (xs : List Text) → length (evict n xs) ≤ n
unfolding evict
length-evict n [] = omega arith
length-evict n (x ∷ xs) = ground (arith, length-evict n xs)

length-without :
    (key : Text) (xs : List Text) → contains xs key ≡ true → length (without key xs) + 1 ≤ length xs
length-without key [] h = cc
length-without key (x ∷ xs) h =
    ground (arith, length-without key xs, length-filter-le (λ k. not (k == key)) xs)

-- The last key survives an eviction that leaves room for one.
evict-last :
    (n : ℕ) (xs : List Text) (a : Text) → 1 ≤ n → contains (evict n (xs ++ a ∷ [])) a ≡ true
unfolding evict
evict-last n [] a h = ground (arith, ==-refl a)
evict-last n (x ∷ xs) a h = ground (arith, evict-last n xs a h, contains-append xs a a, ==-refl a)

pub record IsValid (s : BoundedLruSet) : Type 0 where
  pub unique : IsUnique s.items
  pub bounded : length s.items ≤ s.max_size

-- Adding a key answers whether it was absent, and afterwards remembers it; the memory keeps its size
-- bound and holds each key once. Discarding a key forgets it, and only it.
pub add_if_absent-IsValid :
    (s : BoundedLruSet) (key : Text)
    → 1 ≤ s.max_size
    → IsValid s
    → IsValid (add_if_absent s key).0
      × ((add_if_absent s key).1 ≡ not (contains s.items key))
      × (contains (add_if_absent s key).0.items key ≡ true)
      × IsValid (discard s key)
      × ((k : Text)
          → contains (discard s key).items k ≡ (if key == k then false else contains s.items k))
unfolding add_if_absent discard
add_if_absent-IsValid s key room v = elim (Bool-cases (contains s.items key)) [
  | inl old ↦ rw old (
    record {
      unique =
          IsUnique-append (without key s.items) key (IsUnique-without key s.items v.unique)
            (ground (arith, contains-without key key s.items, ==-refl key));
      bounded = omega (
        arith,
        length-append (without key s.items) (key ∷ []),
        length-without key s.items old,
        v.bounded,
      );
    },
    refl,
    ground (arith, contains-append (without key s.items) key key, ==-refl key),
    forgotten,
    (λ k. contains-without key k s.items),
  )
  | inr new ↦ rw new (
    record {
      unique =
          evict-IsUnique s.max_size (s.items ++ key ∷ [])
            (IsUnique-append s.items key v.unique new);
      bounded = length-evict s.max_size (s.items ++ key ∷ []);
    },
    refl,
    evict-last s.max_size s.items key room,
    forgotten,
    (λ k. contains-without key k s.items),
  )
]
  where
    forgotten : IsValid (record s { items = without key s.items })
    forgotten = record {
      unique = IsUnique-without key s.items v.unique;
      bounded = omega (arith, length-filter-le (λ k. not (k == key)) s.items, v.bounded);
    }
