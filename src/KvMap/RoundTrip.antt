-- ===== src/KvMap/RoundTrip.antt =====
-- kludf.py: `deserialize` reads what `serialize` wrote.
use knot_link_sdk.Base.{
  ◌≡◌, ◌≢◌, refl, ap, sym, ◌∙◌, none, some, List, [], ◌∷◌, ◌++◌, append_assoc, append-nil, arith,
  seq_eq-ne, if_false, All, All-append,
}
use knot_link_sdk.Text.Search.{Seq, cut, split}
use knot_link_sdk.Text.Search.Laws.{Lacks, cut-append, cut-nil, cut-Lacks}
use knot_link_sdk.Text.Search.Splits.{split-none, split-some}
use knot_link_sdk.KvMap.{
  KvMap, semicolon, equals, pair_text, serialize, set_item, read_pair, read_pairs, deserialize,
}

abbrev pub IsFresh : Seq → KvMap → Type 0
IsFresh key = All (λ item. item.0 ≢ key)

-- The keys are distinct, as in every dict; no key holds ";" or "=", and no value holds ";".
abbrev pub IsWritable : KvMap → Type 0
IsWritable [] = Unit
IsWritable ((key, value) ∷ items) =
    Lacks semicolon key
    × Lacks equals key
    × Lacks semicolon value
    × IsFresh key items
    × IsWritable items

abbrev pairs_of : KvMap → List Seq
pairs_of [] = []
pairs_of ((key, value) ∷ items) = pair_text key value ∷ pairs_of items

pair-Lacks :
    (key value : Seq)
    → Lacks semicolon key
    → Lacks semicolon value
    → Lacks semicolon (pair_text key value)
pair-Lacks key value hk hv = All-append _ key (equals ∷ value) hk (omega arith, hv)

-- The parts of a serialized map are the texts of its pairs.
split-serialize :
    (item : Seq × Seq) (items : KvMap)
    → IsWritable (item ∷ items)
    → split (semicolon ∷ []) (serialize (item ∷ items)) ≡ pairs_of (item ∷ items)
unfolding serialize
split-serialize (key, value) [] (hk, he, hv, f, w) =
    split-none semicolon [] (pair_text key value)
      (cut-Lacks semicolon [] _ (pair-Lacks key value hk hv))
split-serialize (key, value) (next ∷ items) (hk, he, hv, f, w) =
    split-some semicolon [] _ (pair_text key value) (serialize (next ∷ items)) (
      cut-append semicolon [] (pair_text key value) (serialize (next ∷ items))
        (pair-Lacks key value hk hv))
    ∙ ap (λ ps. pair_text key value ∷ ps) (split-serialize next items w)

set_item-new :
    (items : KvMap) (key value : Seq)
    → IsFresh key items
    → set_item items key value ≡ items ++ (key, value) ∷ []
unfolding set_item
set_item-new [] key value _ = refl
set_item-new ((k, v) ∷ items) key value (h, hs) =
    if_false _ _ (seq_eq-ne k key h) ∙ ap (λ r. (k, v) ∷ r) (set_item-new items key value hs)

-- The two branches of a round.
pub read_pair-none :
    (items : KvMap) (pair : Seq) → cut (equals ∷ []) pair ≡ none → read_pair items pair ≡ items
unfolding read_pair
read_pair-none items pair e = ground arith

pub read_pair-some :
    (items : KvMap) (pair key value : Seq)
    → cut (equals ∷ []) pair ≡ some (key, value)
    → read_pair items pair ≡ set_item items key value
unfolding read_pair
read_pair-some items pair key value e = ground arith

read_pair-pair_text :
    (items : KvMap) (key value : Seq)
    → Lacks equals key
    → read_pair items (pair_text key value) ≡ set_item items key value
read_pair-pair_text items key value h =
    read_pair-some items (pair_text key value) key value (cut-append equals [] key value h)

-- No key of `items` is one of `done`.
abbrev AllFresh : KvMap → KvMap → Type 0
AllFresh done = All (λ (item : Seq × Seq). IsFresh item.0 done)

AllFresh-append :
    (done : KvMap) (key value : Seq) (items : KvMap)
    → AllFresh done items
    → IsFresh key items
    → AllFresh (done ++ (key, value) ∷ []) items
AllFresh-append done key value [] _ _ = tt
AllFresh-append done key value ((k, v) ∷ items) (f, fs) (h, hs) = (
  All-append (λ item. item.0 ≢ k) done ((key, value) ∷ []) f ((λ e. h (sym e)), tt),
  AllFresh-append done key value items fs hs,
)

-- Pairs with new and distinct keys are appended.
read_pairs-pairs_of :
    (done items : KvMap)
    → AllFresh done items
    → IsWritable items
    → read_pairs done (pairs_of items) ≡ done ++ items
unfolding read_pairs
read_pairs-pairs_of done [] _ _ = sym (append-nil done)
read_pairs-pairs_of done ((key, value) ∷ items) (f, fs) (hk, he, hv, new, w) =
    ap (λ d. read_pairs d (pairs_of items))
      (read_pair-pair_text done key value he ∙ set_item-new done key value f)
    ∙ read_pairs-pairs_of (done ++ (key, value) ∷ []) items
        (AllFresh-append done key value items fs new) w
    ∙ append_assoc done ((key, value) ∷ []) items

AllFresh-nil : (items : KvMap) → AllFresh [] items
AllFresh-nil [] = tt
AllFresh-nil (item ∷ items) = (tt, AllFresh-nil items)

-- Reading what was written gives the map back, in its order, whatever was in the map before.
pub deserialize-serialize :
    (before items : KvMap) → IsWritable items → deserialize before (serialize items) ≡ items
unfolding deserialize serialize read_pairs
deserialize-serialize before [] w =
    ap (read_pairs []) (split-none semicolon [] [] (cut-nil (semicolon ∷ [])))
    ∙ read_pair-none [] [] (cut-nil (equals ∷ []))
deserialize-serialize before (item ∷ items) w =
    ap (read_pairs []) (split-serialize item items w)
    ∙ read_pairs-pairs_of [] (item ∷ items) (AllFresh-nil (item ∷ items)) w
