-- ===== src/Metering/Prompts.antt =====
-- metering.py, `_text_from_prompt_list`: nested prompt lists against their leaves.
use saa_s_governance_layer_r.Common.{
  ◌≡◌, refl, sym, List, [], ◌∷◌, ◌++◌, Text, codes, map, map-append,
}
use saa_s_governance_layer_r.Json.{
  Value, Items, null, bool, int, float, str, array, object, nil, item, show_int, show_bool,
}
use saa_s_governance_layer_r.Metering.{prompt_item, text_from_prompt_list}

-- What a prompt list holds at any depth, from left to right.
unfoldable mutual
  pub leaves_of : Value → List Value
  leaves_of (array vs) = leaves vs
  leaves_of null = null ∷ []
  leaves_of (bool b) = bool b ∷ []
  leaves_of (int n) = int n ∷ []
  leaves_of (float s) = float s ∷ []
  leaves_of (str s) = str s ∷ []
  leaves_of (object fs) = object fs ∷ []

  pub leaves : Items → List Value
  leaves nil = []
  leaves (item v vs) = leaves_of v ++ leaves vs

-- The text of one of them.
unfoldable pub leaf_text : (dumps : Value → Text) → Value → Text
leaf_text dumps (str s) = s
leaf_text dumps (int n) = codes "token_id:" ++ show_int n
leaf_text dumps (bool b) = codes "token_id:" ++ show_bool b
leaf_text dumps v = dumps v

module _ (dumps str_of : Value → Text) where
  mutual
    unfolding text_from_prompt_list leaves leaf_text

    prompt_item-leaves_of :
        (v : Value) → prompt_item dumps str_of v ≡ map (leaf_text dumps) (leaves_of v)
    prompt_item-leaves_of (array vs) = leaves_lem vs
    prompt_item-leaves_of null = refl
    prompt_item-leaves_of (bool b) = refl
    prompt_item-leaves_of (int n) = refl
    prompt_item-leaves_of (float s) = refl
    prompt_item-leaves_of (str s) = refl
    prompt_item-leaves_of (object fs) = refl

    leaves_lem :
        (vs : Items) → text_from_prompt_list dumps str_of vs ≡ map (leaf_text dumps) (leaves vs)
    leaves_lem nil = refl
    leaves_lem (item v vs) =
        rw (prompt_item-leaves_of v, leaves_lem vs)
          (sym (map-append (leaf_text dumps) (leaves_of v) (leaves vs)))

  -- The texts of a prompt list, however it is nested, are those of the values at its leaves, one for
  -- each and in order.
  pub text_from_prompt_list-leaves :
      (vs : Items) → text_from_prompt_list dumps str_of vs ≡ map (leaf_text dumps) (leaves vs)
  text_from_prompt_list-leaves vs = leaves_lem vs
