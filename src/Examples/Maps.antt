-- ===== src/Examples/Maps.antt =====
-- kludf.py at concrete maps.
use knot_link_sdk.Base.{◌≡◌, ◌↔◌, [], ◌∷◌, codes}
use knot_link_sdk.KvMap.{KvMap, serialize, deserialize}
use knot_link_sdk.KvMap.Laws.{deserialize-serialize_iff}
use knot_link_sdk.KvMap.RoundTrip.{IsWritable}

-- {"a": "1", "b": "x=y"}
abbrev two_items : KvMap
two_items = (codes "a", codes "1") ∷ (codes "b", codes "x=y") ∷ []

deserialize-serialize_iff_example :
    (deserialize [] (serialize two_items) ≡ two_items) ↔ IsWritable two_items
deserialize-serialize_iff_example = deserialize-serialize_iff [] two_items
