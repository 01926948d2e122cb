-- ===== src/KvMap/Dicts.antt =====
-- kludf.py: KLKVMap as a dict, which `==` compares without regard to the order of its items.
use mathlib.Core.List.{Perm, Permᴰ}
use mathlib.Core.Logic.{∥∥₁_elim}
use mathlib.Core.Quot
use mathlib.Core.Quot.{Quot, Quot-set}
use knot_link_sdk.Base.{
  ◌≡◌, ◌≢◌, refl, ap, sym, ◌∙◌, subst, ◌∷◌, arith, seq_eq, seq_eq_iff, if◌then◌else◌,
}
use knot_link_sdk.Text.Search.{Seq}
use knot_link_sdk.KvMap.{KvMap, serialize, set_item, deserialize, get}
use knot_link_sdk.KvMap.RoundTrip.{IsFresh, IsWritable, deserialize-serialize}
use knot_link_sdk.KvMap.Laws.{get-set_item}

-- Two maps have the same keys with the same values.
abbrev pub SameItems : KvMap → KvMap → Type 0
SameItems m n = (key default_val : Seq) → get m key default_val ≡ get n key default_val

abbrev pub Dict : Type 0
Dict = Quot SameItems

-- `self[key] = value`, on the dict.
pub assign : Seq → Seq → Dict → Dict
assign key value =
    Quot.lift Quot-set (λ m. Quot.mk (set_item m key value))
      (λ m n h. Quot.sound (λ k d. simp (get-set_item, h)))

IsFresh-perm : (key : Seq) {m n : KvMap} → Permᴰ m n → IsFresh key m → IsFresh key n
IsFresh-perm key Permᴰ.nil h = tt
IsFresh-perm key (Permᴰ.cons e p) (h, hs) =
    (subst (λ item. item.0 ≢ key) e h, IsFresh-perm key p hs)
IsFresh-perm key (Permᴰ.swap e f) (h, (g, hs)) =
    (subst (λ item. item.0 ≢ key) f g, (subst (λ item. item.0 ≢ key) e h, hs))
IsFresh-perm key (Permᴰ.trans p q) h = IsFresh-perm key q (IsFresh-perm key p h)

IsWritable-perm : {m n : KvMap} → Permᴰ m n → IsWritable m → IsWritable n
IsWritable-perm Permᴰ.nil w = tt
IsWritable-perm (Permᴰ.cons {a} {b} {l₁} {l₂} e p) (hk, he, hv, f, w) =
    subst (λ item. IsWritable (item ∷ l₂)) e (hk, he, hv, IsFresh-perm a.0 p f, IsWritable-perm p w)
IsWritable-perm (Permᴰ.swap {a} {b} {a'} {b'} {l} e f) (hk, he, hv, (g, gs), (ik, ie, iv, fs, w)) =
    subst (λ item. IsWritable (item ∷ b' ∷ l)) f
      (subst (λ item. IsWritable (b ∷ item ∷ l)) e
        (ik, ie, iv, ((λ same. g (sym same)), fs), (hk, he, hv, gs, w)))
IsWritable-perm (Permᴰ.trans p q) w = IsWritable-perm q (IsWritable-perm p w)

get_swap :
    (a b : Seq × Seq) (l : KvMap) (k d : Seq)
    → b.0 ≢ a.0
    → get (a ∷ b ∷ l) k d ≡ get (b ∷ a ∷ l) k d
unfolding get
get_swap a b l k d h = ground (arith, seq_eq_iff a.0 k, seq_eq_iff b.0 k)

get_cons :
    (a : Seq × Seq) (m n : KvMap) (k d : Seq)
    → get m k d ≡ get n k d
    → get (a ∷ m) k d ≡ get (a ∷ n) k d
unfolding get
get_cons a m n k d e = ap (λ rest. if seq_eq a.0 k then a.1 else rest) e

get-perm : {m n : KvMap} → Permᴰ m n → IsWritable m → SameItems m n
get-perm Permᴰ.nil w k d = refl
get-perm (Permᴰ.cons {a} {b} {l₁} {l₂} e p) (hk, he, hv, f, w) k d =
    get_cons a l₁ l₂ k d (get-perm p w k d) ∙ ap (λ item. get (item ∷ l₂) k d) e
get-perm (Permᴰ.swap {a} {b} {a'} {b'} {l} e f) (hk, he, hv, (g, gs), w) k d =
    get_swap a b l k d g
    ∙ ap (λ item. get (b ∷ item ∷ l) k d) e
    ∙ ap (λ item. get (item ∷ b' ∷ l) k d) f
get-perm (Permᴰ.trans p q) w k d = get-perm p w k d ∙ get-perm q (IsWritable-perm p w) k d

same_dict :
    {m n : KvMap}
    → Permᴰ m n
    → IsWritable m
    → (before before' : KvMap)
    → ◌≡◌ {A = Dict}
        (Quot.mk (deserialize before (serialize m)))
        (Quot.mk (deserialize before' (serialize n)))
same_dict {m} {n} p w before before' =
    ap (λ x. Quot.mk x) (deserialize-serialize before m w)
    ∙ Quot.sound (get-perm p w)
    ∙ ap (λ x. Quot.mk x) (sym (deserialize-serialize before' n (IsWritable-perm p w)))

-- If a map can be written (distinct keys, no key with ";" or "=", no value with ";"), then two
-- maps that hold its items in any order are, serialized and read again, equal as dicts, whatever
-- was in the maps before.
pub deserialize-serialize_perm :
    (before before' m n : KvMap)
    → Perm m n
    → IsWritable m
    → ◌≡◌ {A = Dict}
        (Quot.mk (deserialize before (serialize m)))
        (Quot.mk (deserialize before' (serialize n)))
deserialize-serialize_perm before before' m n p w =
    ∥∥₁_elim p (Quot-set _ _) (λ q. same_dict q w before before')

-- Assignments to two different keys commute on the dict.
pub assign_comm :
    (k v k' v' : Seq) (m : Dict)
    → k ≢ k'
    → assign k v (assign k' v' m) ≡ assign k' v' (assign k v m)
unfolding assign
assign_comm k v k' v' m differ =
    Quot.ind {β = λ d. assign k v (assign k' v' d) ≡ assign k' v' (assign k v d)}
      (λ d. Quot-set _ _) (λ items. Quot.sound (λ key d. swapped items key d)) m
  where
    swapped :
        (items : KvMap)
        → SameItems (set_item (set_item items k' v') k v) (set_item (set_item items k v) k' v')
    swapped items key d = simp get-set_item (ground (arith, seq_eq_iff k key, seq_eq_iff k' key))
