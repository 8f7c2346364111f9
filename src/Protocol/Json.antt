-- ===== src/Protocol/Json.antt =====
-- JSON values as serde_json holds them, and `canonical_json_value` of
-- crates/lockrail-protocol/src/lib.rs. A number is held as its text.
use Prim.Native.Nat.{compare, Ordering}
use lockrail.Prelude.{Bool, [], ◌∷◌}
use lockrail.Prelude.Text.{Text}

mutual
  pub data Json : Type 0 where
    null : Json
    bool : Bool → Json
    number : Text → Json
    string : Text → Json
    array : Items → Json
    object : Fields → Json

  pub data Items : Type 0 where
    nil : Items
    cons : Json → Items → Items

  pub data Fields : Type 0 where
    end : Fields
    field : Text → Json → Fields → Fields

-- The order of `String`: byte by byte.
abbrev then_by : Ordering → Ordering → Ordering
then_by Ordering.eq o = o
then_by Ordering.lt o = Ordering.lt
then_by Ordering.gt o = Ordering.gt

pub compare_text : Text → Text → Ordering
compare_text [] [] = Ordering.eq
compare_text [] (d ∷ t) = Ordering.lt
compare_text (c ∷ s) [] = Ordering.gt
compare_text (c ∷ s) (d ∷ t) = then_by (compare c d) (compare_text s t)

-- `map_insert` is serde_json's `Map::insert`; a new map is empty.
module _ (map_insert : Text → Json → Fields → Fields) where
  mutual
    pub canonical_json_value : Json → Json
    canonical_json_value null = null
    canonical_json_value (bool b) = bool b
    canonical_json_value (number n) = number n
    canonical_json_value (string s) = string s
    canonical_json_value (array xs) = array (canonical_items xs)
    canonical_json_value (object fs) = object (canonical_fields fs end)

    pub canonical_items : Items → Items
    canonical_items nil = nil
    canonical_items (cons x xs) = cons (canonical_json_value x) (canonical_items xs)

    -- The loop over the map; `sorted` is the map that it fills.
    pub canonical_fields : Fields → Fields → Fields
    canonical_fields end sorted = sorted
    canonical_fields (field k v fs) sorted =
        canonical_fields fs (map_insert k (canonical_json_value v) sorted)
