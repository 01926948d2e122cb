-- ===== src/Text/Utf8/RoundTrip.antt =====
-- The codec "utf-8": decoding what was encoded.
use mathlib.Core.Option.{some-injective}
use knot_link_sdk.Base.{
  ℕ, ◌==◌, ◌+◌, ◌/◌, ◌≡◌, ◌≤◌, ◌<◌, refl, ap, ◌∙◌, inl, inr, true, ◌&&◌, none, some, [], ◌∷◌, ◌++◌,
  arith, ltb, leb, if◌then◌else◌, Bool-cases, Option-cases, subst, map,
}
use knot_link_sdk.Text.Utf8.{
  Text, Bytes, tail_byte, is_scalar, encode_point, encode, Pending, open_at, lead, begin, follow,
  scan, decode_replace, decode, all_points, or_replacement,
}

module _ (p : ℕ) (rest : Bytes) where
  scan-ascii : p < 0x80 → scan none (p ∷ rest) ≡ some p ∷ scan none rest
  unfolding scan begin lead
  scan-ascii h = ground arith

  lead2 :
      0x80 ≤ p
      → p < 0x800
      → lead (0xc0 + p / 64)
        ≡ open_at (record { missing = 0; bits = p / 64; low = 0x80; high = 0xbf })
  unfolding lead
  lead2 lo hi = ground arith

  scan2 :
      0x80 ≤ p
      → p < 0x800
      → scan none ((0xc0 + p / 64) ∷ tail_byte p ∷ rest) ≡ some p ∷ scan none rest
  unfolding scan begin follow
  scan2 lo hi = rw (lead2 lo hi) (ground arith)

  -- The lead bytes of three, with the range that each sets for the byte behind it.
  lead3 :
      0x800 ≤ p
      → p < 0x10000
      → is_scalar p ≡ true
      → (pending : Pending) × (lead (0xe0 + p / 4096) ≡ open_at pending)
        × (pending.missing ≡ 1)
        × (pending.bits ≡ p / 4096)
        × (leb pending.low (tail_byte (p / 64)) && leb (tail_byte (p / 64)) pending.high ≡ true)
  unfolding lead
  lead3 lo hi ok = (
    record {
      missing = 1;
      bits = p / 4096;
      low = if p / 4096 == 0 then 0xa0 else 0x80;
      high = if p / 4096 == 13 then 0x9f else 0xbf;
    },
    ground arith,
    refl,
    refl,
    ground arith,
  )

  scan3 :
      0x800 ≤ p
      → p < 0x10000
      → is_scalar p ≡ true
      → scan none ((0xe0 + p / 4096) ∷ tail_byte (p / 64) ∷ tail_byte p ∷ rest)
        ≡ some p ∷ scan none rest
  unfolding scan begin follow
  scan3 lo hi ok = let (pending, e, m, b, r) = lead3 lo hi ok in rw e (rw (m, r) (ground arith))

  lead4 :
      0x10000 ≤ p
      → p < 0x110000
      → (pending : Pending) × (lead (0xf0 + p / 262144) ≡ open_at pending)
        × (pending.missing ≡ 2)
        × (pending.bits ≡ p / 262144)
        × (leb pending.low (tail_byte (p / 4096)) && leb (tail_byte (p / 4096)) pending.high ≡ true)
  unfolding lead
  lead4 lo hi = (
    record {
      missing = 2;
      bits = p / 262144;
      low = if p / 262144 == 0 then 0x90 else 0x80;
      high = if p / 262144 == 4 then 0x8f else 0xbf;
    },
    ground arith,
    refl,
    refl,
    ground arith,
  )

  scan4 :
      0x10000 ≤ p
      → p < 0x110000
      → scan none
          ((0xf0 + p / 262144) ∷ tail_byte (p / 4096) ∷ tail_byte (p / 64) ∷ tail_byte p ∷ rest)
        ≡ some p ∷ scan none rest
  unfolding scan begin follow
  scan4 lo hi = let (pending, e, m, b, r) = lead4 lo hi in rw e (rw (m, r) (ground arith))

  -- The bytes of one code point are read as that code point, whatever follows.
  pub scan-encode_point :
      is_scalar p ≡ true → scan none (encode_point p ++ rest) ≡ some p ∷ scan none rest
  unfolding encode_point
  scan-encode_point ok = elim (Bool-cases (ltb p 0x80)) [
    | inl one ↦ rw one (scan-ascii (ground arith))
    | inr more ↦ rw more (elim (Bool-cases (ltb p 0x800)) [
      | inl two ↦ rw two (scan2 (ground arith) (ground arith))
      | inr more' ↦ rw more' (elim (Bool-cases (ltb p 0x10000)) [
        | inl three ↦ rw three (scan3 (ground arith) (ground arith) ok)
        | inr four ↦ rw four (scan4 (ground arith) (ground arith))
      ])
    ])
  ]

-- An encoding of a text that is not empty: its first code point has one, and the rest has one.
pub encode_cons :
    (p : ℕ) (s : Text) (bytes : Bytes)
    → encode (p ∷ s) ≡ some bytes
    → (is_scalar p ≡ true)
      × (rest : Bytes) × (encode s ≡ some rest)
      × (encode_point p ++ rest ≡ bytes)
unfolding encode
encode_cons p s bytes e = elim (Option-cases (encode s)) [
  | inl fails ↦ absurd (ground arith)
  | inr (rest, found) ↦ (ground arith, rest, found, ground arith)
]

-- The bytes of a text are read as its code points.
scan-encode :
    (s : Text) (bytes : Bytes) → encode s ≡ some bytes → scan none bytes ≡ map (λ p. some p) s
scan-encode [] bytes e =
    unfold scan encode in subst (λ b. scan none b ≡ []) (some-injective [] bytes e) refl
scan-encode (p ∷ s) bytes e =
    let (ok, rest, found, split) = encode_cons p s bytes e in
    rw (← split)
      (scan-encode_point p rest ok ∙ ap (λ points. some p ∷ points) (scan-encode s rest found))

all_points-map : (s : Text) → all_points (map (λ p. some p) s) ≡ some s
all_points-map [] = refl
all_points-map (p ∷ s) = rw (all_points-map s)

replaced-map : (s : Text) → map or_replacement (map (λ p. some p) s) ≡ s
replaced-map [] = refl
replaced-map (p ∷ s) = rw (replaced-map s)

-- Decoding what was encoded gives the text back, in both modes.
pub decode-encode :
    (s : Text) (bytes : Bytes)
    → encode s ≡ some bytes
    → (decode bytes ≡ some s) × (decode_replace bytes ≡ s)
unfolding decode decode_replace
decode-encode s bytes e =
    let points = scan-encode s bytes e in (rw points (all_points-map s), rw points (replaced-map s))
