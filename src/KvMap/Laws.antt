-- ===== src/KvMap/Laws.antt =====
-- kludf.py: which maps survive `serialize` and `deserialize`.
use knot_link_sdk.Base.{
  ◌≡◌, ◌≢◌, ◌↔◌, refl, subst, sym, inl, inr, List, [], ◌∷◌, arith, seq_eq, seq_eq_iff,
  if◌then◌else◌, All, All-append_left, All-append_right, Bool-cases, Option-cases,
}
use knot_link_sdk.Text.Search.{Seq, cut, split}
use knot_link_sdk.Text.Search.Laws.{Lacks, cut_sound, cut-Lacks_part}
use knot_link_sdk.Text.Search.Splits.{split-Lacks}
use knot_link_sdk.KvMap.{
  KvMap, semicolon, equals, serialize, set_item, read_pair, read_pairs, deserialize, get,
}
use knot_link_sdk.KvMap.RoundTrip.{
  IsFresh, IsWritable, read_pair-none, read_pair-some, deserialize-serialize,
}

-- `set_item` keeps a writable map writable.
IsFresh-set_item :
    (items : KvMap) (key value k : Seq)
    → IsFresh k items
    → key ≢ k
    → IsFresh k (set_item items key value)
unfolding set_item
IsFresh-set_item [] key value k f h = (h, tt)
IsFresh-set_item ((k', v') ∷ items) key value k (f, fs) h = elim (Bool-cases (seq_eq k' key)) [
  | inl same ↦ rw same (f, fs)
  | inr differ ↦ rw differ (f, IsFresh-set_item items key value k fs h)
]

set_item-IsWritable :
    (items : KvMap) (key value : Seq)
    → Lacks semicolon key
    → Lacks equals key
    → Lacks semicolon value
    → IsWritable items
    → IsWritable (set_item items key value)
unfolding set_item
set_item-IsWritable [] key value hk he hv w = (hk, he, hv, tt, tt)
set_item-IsWritable ((k, v) ∷ items) key value hk he hv (ik, ie, iv, f, w) =
    elim (Bool-cases (seq_eq k key)) [
      | inl same ↦ rw same (ik, ie, hv, f, w)
      | inr differ ↦ rw differ (
        ik,
        ie,
        iv,
        IsFresh-set_item items key value k f (λ e. cc (differ, (seq_eq_iff k key).1 (sym e))),
        set_item-IsWritable items key value hk he hv w,
      )
    ]

read_pair-IsWritable :
    (items : KvMap) (pair : Seq)
    → Lacks semicolon pair
    → IsWritable items
    → IsWritable (read_pair items pair)
read_pair-IsWritable items pair h w = elim (Option-cases (cut (equals ∷ []) pair)) [
  | inl skipped ↦ rw (read_pair-none items pair skipped) w
  | inr ((key, value), found) ↦
      let whole = subst (Lacks semicolon) (cut_sound equals [] pair key value found) h in
      rw (read_pair-some items pair key value found) (
        set_item-IsWritable items key value (All-append_left _ key (equals ∷ value) whole)
          (cut-Lacks_part equals pair key value found)
          (All-append_right _ key (equals ∷ value) whole).1 w)
]

read_pairs-IsWritable :
    (items : KvMap) (pairs : List Seq)
    → All (Lacks semicolon) pairs
    → IsWritable items
    → IsWritable (read_pairs items pairs)
unfolding read_pairs
read_pairs-IsWritable items [] _ w = w
read_pairs-IsWritable items (pair ∷ pairs) (h, hs) w =
    read_pairs-IsWritable (read_pair items pair) pairs hs (read_pair-IsWritable items pair h w)

-- Whatever text is read, the map that comes out is writable.
pub deserialize-IsWritable : (before : KvMap) (text : Seq) → IsWritable (deserialize before text)
unfolding deserialize
deserialize-IsWritable before text =
    read_pairs-IsWritable [] (split (semicolon ∷ []) text) (split-Lacks semicolon text) tt

-- `deserialize` gives a serialized map back, in its order and whatever was in the map before, if
-- and only if its keys are distinct, no key holds ";" or "=", and no value holds ";".
pub deserialize-serialize_iff :
    (before items : KvMap) → (deserialize before (serialize items) ≡ items) ↔ IsWritable items
deserialize-serialize_iff before items = (
  λ e. subst IsWritable e (deserialize-IsWritable before (serialize items)),
  deserialize-serialize before items,
)

-- The map that `deserialize` makes of any text comes back when it is serialized and read again,
-- whatever was in the maps before.
pub deserialize_normal :
    (before before' : KvMap) (text : Seq)
    → deserialize before (serialize (deserialize before' text)) ≡ deserialize before' text
deserialize_normal before before' text =
    deserialize-serialize before (deserialize before' text) (deserialize-IsWritable before' text)

-- After an item is set, `get` gives the new value for its key, and for any other key what it gave
-- before.
pub get-set_item :
    (items : KvMap) (key value k default_val : Seq)
    → get (set_item items key value) k default_val
      ≡ (if seq_eq key k then value else get items k default_val)
unfolding get set_item
get-set_item [] key value k default_val = refl
get-set_item ((k', v') ∷ items) key value k default_val = ground (
  arith,
  get-set_item items key value k default_val,
  seq_eq_iff k' key,
  seq_eq_iff k' k,
  seq_eq_iff key k,
)
