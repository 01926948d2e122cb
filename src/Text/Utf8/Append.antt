-- ===== src/Text/Utf8/Append.antt =====
-- Texts put together before they are encoded, and bytes that no text brings in.
use mathlib.Core.Option.{some-injective}
use knot_link_sdk.Base.{
  ℕ, ◌≡◌, ◌≢◌, ap, sym, subst, ◌∙◌, true, Bool-cases, inl, inr, some, [], ◌∷◌, ◌++◌, ltb, arith,
  append_assoc, All-append,
}
use knot_link_sdk.Text.Utf8.{Text, Bytes, is_scalar, encode, encode_point}
use knot_link_sdk.Text.Utf8.RoundTrip.{encode_cons}
use knot_link_sdk.Text.Search.Laws.{Lacks}

-- No byte of a code point from 128 on is the ASCII character.
encode_point-Lacks : (c p : ℕ) → ltb c 0x80 ≡ true → p ≢ c → Lacks c (encode_point p)
unfolding encode_point
encode_point-Lacks c p ascii h = elim (Bool-cases (ltb p 0x80)) [
  | inl one ↦ rw one (h, tt)
  | inr not_one ↦ elim (Bool-cases (ltb p 0x800)) [
    | inl two ↦ rw (not_one, two) (ground arith, (ground arith, tt))
    | inr not_two ↦ elim (Bool-cases (ltb p 0x10000)) [
      | inl three ↦ rw (not_one, not_two, three) (ground arith, (ground arith, (ground arith, tt)))
      | inr four ↦
          rw (not_one, not_two, four)
            (ground arith, (ground arith, (ground arith, (ground arith, tt))))
    ]
  ]
]

pub encode-Lacks :
    (c : ℕ) (s : Text) (bytes : Bytes)
    → ltb c 0x80 ≡ true
    → encode s ≡ some bytes
    → Lacks c s
    → Lacks c bytes
encode-Lacks c [] bytes ascii e _ =
    unfold encode in subst (λ b. Lacks c b) (some-injective [] bytes e) tt
encode-Lacks c (p ∷ s) bytes ascii e (hp, hs) =
    let (_, rest, found, split) = encode_cons p s bytes e in
    subst (λ b. Lacks c b) split
      (All-append (λ x. x ≢ c) (encode_point p) rest (encode_point-Lacks c p ascii hp)
        (encode-Lacks c s rest ascii found hs))

pub encode-append :
    (s t : Text) (sb tb : Bytes)
    → encode s ≡ some sb
    → encode t ≡ some tb
    → encode (s ++ t) ≡ some (sb ++ tb)
encode-append [] t sb tb es et =
    unfold encode in subst (λ b. encode t ≡ some (b ++ tb)) (some-injective [] sb es) et
encode-append (p ∷ s) t sb tb es et =
    let (scalar, rest, found, split) = encode_cons p s sb es in
    put_together p (s ++ t) (rest ++ tb) scalar (encode-append s t rest tb found et)
    ∙ ap (λ b. some b) (sym (append_assoc (encode_point p) rest tb) ∙ ap (λ b. b ++ tb) split)
  where
    put_together :
        (p : ℕ) (s : Text) (bytes : Bytes)
        → is_scalar p ≡ true
        → encode s ≡ some bytes
        → encode (p ∷ s) ≡ some (encode_point p ++ bytes)
    put_together p s bytes scalar e = unfold encode in rw (e, scalar)
