-- ===== src/Text/Utf8/Scalars.antt =====
-- Decoding gives code points that have an encoding, whatever the bytes are.
use knot_link_sdk.Base.{
  ℕ, Bool, zero, suc, ◌+◌, ◌*◌, ◌%◌, ◌-◌, ◌<◌, ◌≤◌, ◌≡◌, refl, true, false, ◌&&◌, inl, inr, ◌⊎◌,
  Option, none, some, [], ◌∷◌, ◌++◌, map, ltb, leb, ◌==◌, if◌then◌else◌, arith, All, Bool-cases,
  subst,
}
use mathlib.Core.Option
use knot_link_sdk.Text.Utf8.{
  Text, Bytes, is_scalar, encode_point, encode, Pending, Lead, ascii, malformed, open_at, lead,
  Points, begin, follow, scan, or_replacement, decode_replace, all_points, decode,
}

-- A text that has an encoding.
abbrev pub IsScalar : ℕ → Type 0
IsScalar p = is_scalar p ≡ true

abbrev pub IsEncodable : Text → Type 0
IsEncodable = All IsScalar

-- The bits so far, with this many bytes to come, spell no surrogate and nothing beyond the last plane.
Spells : ℕ → ℕ → Type 0
Spells zero v = IsScalar v
Spells (suc zero) v = (v < 0x360) ⊎ ((0x380 ≤ v) × (v < 0x4400))
Spells (suc (suc zero)) v = (0x10 ≤ v) × (v < 0x110)
Spells (suc (suc (suc n))) v = ⊥

Continues : Pending → Type 0
Continues p = (b : ℕ) → p.low ≤ b → b ≤ p.high → Spells p.missing (p.bits * 64 + b % 64)

Leads : Lead → Type 0
Leads (ascii p) = p < 0x80
Leads malformed = Unit
Leads (open_at p) = Continues p

-- A lead of three bytes that is neither the first nor the one of the surrogates.
three_bytes :
    (b c : ℕ)
    → 0xe1 ≤ b
    → b < 0xf0
    → b == 0xed ≡ false
    → 0x80 ≤ c
    → c ≤ 0xbf
    → Spells 1 ((b - 0xe0) * 64 + c % 64)
unfolding Spells
three_bytes b c low high other lo hi = elim (Bool-cases (ltb b 0xed)) [
  | inl below ↦ inl (ground arith)
  | inr above ↦ inr (ground arith)
]

-- The ranges of the leads leave out the surrogates, and what is beyond the last plane.
lead-Leads : (b : ℕ) → Leads (lead b)
unfolding lead Leads Continues Spells
lead-Leads b = elim (Bool-cases (ltb b 0x80)) [
  | inl e0 ↦ rw e0 (ground arith)
  | inr e0 ↦ rw e0 (elim (Bool-cases (ltb b 0xc2)) [
    | inl e1 ↦ rw e1 (tt)
    | inr e1 ↦ rw e1 (elim (Bool-cases (ltb b 0xe0)) [
      | inl e2 ↦ rw e2 (λ c lo hi. ground arith)
      | inr e2 ↦ rw e2 (elim (Bool-cases (ltb b 0xe1)) [
        | inl e3 ↦ rw e3 (λ c lo hi. inl (ground arith))
        | inr e3 ↦ rw e3 (elim (Bool-cases (b == 0xed)) [
          | inl e4 ↦ rw e4 (λ c lo hi. inl (ground arith))
          | inr e4 ↦ rw e4 (elim (Bool-cases (ltb b 0xf0)) [
            | inl e5 ↦ rw e5 (λ c lo hi. three_bytes b c (ground arith) (ground arith) e4 lo hi)
            | inr e5 ↦ rw e5 (elim (Bool-cases (ltb b 0xf1)) [
              | inl e6 ↦ rw e6 (λ c lo hi. ground arith)
              | inr e6 ↦ rw e6 (elim (Bool-cases (ltb b 0xf4)) [
                | inl e7 ↦ rw e7 (λ c lo hi. ground arith)
                | inr e7 ↦ rw e7 (elim (Bool-cases (ltb b 0xf5)) [
                  | inl e8 ↦ rw e8 (λ c lo hi. ground arith)
                  | inr e8 ↦ rw e8 (tt)
                ])
              ])
            ])
          ])
        ])
      ])
    ])
  ])
]

-- What a scan yields: faults, and points that have an encoding.
abbrev Yields : Option ℕ → Type 0
Yields none = Unit
Yields (some p) = IsScalar p

abbrev Waits : Option Pending → Type 0
Waits none = Unit
Waits (some p) = Continues p

-- With more bytes to come, any of them goes on.
Spells-next :
    (missing v : ℕ)
    → Spells (suc missing) v
    → Continues (record { missing = missing; bits = v; low = 0x80; high = 0xbf })
unfolding Spells Continues
Spells-next zero v (inl h) b lo hi = ground arith
Spells-next zero v (inr h) b lo hi = ground arith
Spells-next (suc zero) v h b lo hi = inr (ground arith)
Spells-next (suc (suc n)) v h b lo hi = absurd h

module _ (again : Option Pending → Points)
    (goes_on : (s : Option Pending) → Waits s → All Yields (again s)) where
  begin-Yields : (l : Lead) → Leads l → All Yields (begin l again)
  unfolding begin Leads
  begin-Yields (ascii p) h = (ground arith, goes_on none tt)
  begin-Yields malformed h = (tt, goes_on none tt)
  begin-Yields (open_at pending) h = goes_on (some pending) h

  follow-Yields : (missing v : ℕ) → Spells missing v → All Yields (follow missing v again)
  unfolding follow Spells
  follow-Yields zero v h = (h, goes_on none tt)
  follow-Yields (suc missing) v h =
      goes_on (some (record { missing = missing; bits = v; low = 0x80; high = 0xbf }))
        (Spells-next missing v h)

if-Yields :
    (test : Bool) (xs ys : Points)
    → (test ≡ true → All Yields xs)
    → (test ≡ false → All Yields ys)
    → All Yields (if test then xs else ys)
if-Yields true xs ys hx hy = hx refl
if-Yields false xs ys hx hy = hy refl

in_range :
    (p : Pending) (b : ℕ)
    → Continues p
    → leb p.low b && leb b p.high ≡ true
    → Spells p.missing (p.bits * 64 + b % 64)
unfolding Continues
in_range p b w e = w b (ground arith) (ground arith)

scan-Yields : (s : Option Pending) (bytes : Bytes) → Waits s → All Yields (scan s bytes)
unfolding scan
scan-Yields none [] w = tt
scan-Yields (some p) [] w = (tt, tt)
scan-Yields none (b ∷ bytes) w =
    begin-Yields (λ s. scan s bytes) (λ s w'. scan-Yields s bytes w') (lead b) (lead-Leads b)
scan-Yields (some p) (b ∷ bytes) w =
    let again = λ (s : Option Pending). scan s bytes in
    let goes_on = λ (s : Option Pending) (w' : Waits s). scan-Yields s bytes w' in
    if-Yields _ _ _
      (λ e. follow-Yields again goes_on p.missing (p.bits * 64 + b % 64) (in_range p b w e))
      (λ e. (tt, begin-Yields again goes_on (lead b) (lead-Leads b)))

replaced : (points : Points) → All Yields points → IsEncodable (map or_replacement points)
replaced [] _ = tt
replaced (none ∷ points) (_, h) = (refl, replaced points h)
replaced (some p ∷ points) (y, h) = (y, replaced points h)

-- The texts that `decode` with "replace" gives.
pub decode_replace-IsEncodable : (bytes : Bytes) → IsEncodable (decode_replace bytes)
unfolding decode_replace
decode_replace-IsEncodable bytes = replaced (scan none bytes) (scan-Yields none bytes tt)

Decoded : Option Text → Type 0
Decoded none = Unit
Decoded (some s) = IsEncodable s

with_point :
    (p : ℕ) (s : Option Text) → IsScalar p → Decoded s → Decoded (Option.map (λ t. p ∷ t) s)
unfolding Decoded
with_point p none y h = tt
with_point p (some s) y h = (y, h)

all_points-Decoded : (points : Points) → All Yields points → Decoded (all_points points)
unfolding Decoded
all_points-Decoded [] _ = tt
all_points-Decoded (none ∷ points) _ = tt
all_points-Decoded (some p ∷ points) (y, h) =
    with_point p (all_points points) y (all_points-Decoded points h)

-- And those that `decode` with "strict" gives.
pub decode-IsEncodable : (bytes : Bytes) (s : Text) → decode bytes ≡ some s → IsEncodable s
unfolding decode Decoded
decode-IsEncodable bytes s e =
    subst Decoded e (all_points-Decoded (scan none bytes) (scan-Yields none bytes tt))

-- An encodable text is encoded.
pub encode-IsEncodable : (s : Text) → IsEncodable s → (bytes : Bytes) × (encode s ≡ some bytes)
unfolding encode
encode-IsEncodable [] _ = ([], refl)
encode-IsEncodable (p ∷ s) (y, h) =
    let (bytes, e) = encode-IsEncodable s h in (encode_point p ++ bytes, rw (y, e) refl)
