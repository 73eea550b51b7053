-- ===== src/Json.antt =====
-- The values that Python's `json` reads, with Python's tests on them.
use saa_s_governance_layer_r.Common.{
  ◌+◌, Bool, true, false, not, ◌||◌, ◌∷◌, Text, codes, text_eq, ◌==◌, ℤ, pos, negsuc, is_empty,
  nat_beq, show, if◌then◌else◌,
}

-- A float is given by its `repr`. The keys of an object differ.
mutual
  pub data Value : Type 0 where
    null : Value
    bool : Bool → Value
    int : ℤ → Value
    float : Text → Value
    str : Text → Value
    array : Items → Value
    object : Fields → Value

  pub data Items : Type 0 where
    nil : Items
    item : Value → Items → Items

  pub data Fields : Type 0 where
    end : Fields
    field : (key : Text) → Value → Fields → Fields

-- `d.get(key)`, where a missing key reads as `None`
unfoldable pub get : Text → Fields → Value
get key end = null
get key (field k v fs) = if k == key then v else get key fs

-- `d.get(key, default)`
unfoldable pub get_default : Text → Value → Fields → Value
get_default key d end = d
get_default key d (field k v fs) = if k == key then v else get_default key d fs

-- `bool(value)`
unfoldable pub truth : Value → Bool
truth null = false
truth (bool b) = b
truth (int (pos n)) = not (nat_beq n 0)
truth (int (negsuc n)) = true
truth (float s) = not ((s == codes "0.0") || (s == codes "-0.0"))
truth (str s) = not (is_empty s)
truth (array nil) = false
truth (array (item v vs)) = true
truth (object end) = false
truth (object (field k v fs)) = true

-- `str(n)` of an integer
unfoldable pub show_int : ℤ → Text
show_int (pos n) = show n
show_int (negsuc n) = b'-' ∷ show (n + 1)

abbrev pub show_bool : Bool → Text
show_bool true = codes "True"
show_bool false = codes "False"
