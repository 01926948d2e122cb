-- ===== src/KvMap.antt =====
-- knotlink-sdk-python/knotlink/knotlink/kludf.py: KLKVMap, a dict of texts.
pub mod RoundTrip
pub mod Laws
pub mod Dicts
use knot_link_sdk.Base.{
  ℕ, zero, suc, Bool, Option, none, some, List, [], ◌∷◌, ◌++◌, seq_eq, if◌then◌else◌,
}
use knot_link_sdk.Text.Search.{Seq, cut, split}

-- The items of a dict, in the order in which their keys came in.
abbrev pub KvMap : Type 0
KvMap = List (Seq × Seq)

abbrev pub semicolon : ℕ
semicolon = b';'

abbrev pub equals : ℕ
equals = b'='

-- `f"{key}={value}"`
abbrev pub pair_text : Seq → Seq → Seq
pair_text key value = key ++ (equals ∷ value)

-- `";".join(…)` over the items
pub serialize : KvMap → Seq
serialize [] = []
serialize ((key, value) ∷ []) = pair_text key value
serialize ((key, value) ∷ item ∷ items) =
    pair_text key value ++ (semicolon ∷ serialize (item ∷ items))

-- `self[key] = value`: a key that is there keeps its place.
pub set_item : KvMap → Seq → Seq → KvMap
set_item [] key value = (key, value) ∷ []
set_item ((k, v) ∷ items) key value =
    let rest = set_item items key value in
    if seq_eq k key then (k, value) ∷ items else (k, v) ∷ rest

-- The round of `deserialize` for one pair: a text without "=" is skipped.
pub read_pair : KvMap → Seq → KvMap
read_pair items pair = elim (cut (equals ∷ []) pair) [
  | none ↦ items
  | some (key, value) ↦ set_item items key value
]

pub read_pairs : KvMap → List Seq → KvMap
read_pairs items [] = items
read_pairs items (pair ∷ pairs) = read_pairs (read_pair items pair) pairs

-- What was in the map is cleared first.
pub deserialize : KvMap → Seq → KvMap
deserialize items text = read_pairs [] (split (semicolon ∷ []) text)

-- `get(key, defaultVal)`
pub get : KvMap → Seq → Seq → Seq
get [] key default_val = default_val
get ((k, v) ∷ items) key default_val =
    let rest = get items key default_val in if seq_eq k key then v else rest
