-- ===== src/Wire/Header.antt =====
-- The length field: `struct.pack` and `struct.unpack` undo one another.
use knot_link_sdk.Base.{ℕ, ◌+◌, ◌^◌, ◌<◌, ◌≡◌, [], ◌∷◌, arith, length}
use knot_link_sdk.Wire.{Bytes, IsByte, pack_u32, unpack_u32, frame}

-- Reading a length field gives the number that was written.
pub unpack_u32-pack_u32 : (n : ℕ) → n < 2 ^ 32 → unpack_u32 (pack_u32 n) ≡ n
unfolding unpack_u32 pack_u32
unpack_u32-pack_u32 n h = omega arith

-- Four bytes are the length field of the number that they spell.
pub pack_u32-unpack_u32 :
    (a b c d : ℕ)
    → IsByte a
    → IsByte b
    → IsByte c
    → IsByte d
    → pack_u32 (unpack_u32 (a ∷ b ∷ c ∷ d ∷ [])) ≡ a ∷ b ∷ c ∷ d ∷ []
unfolding unpack_u32 pack_u32
pack_u32-unpack_u32 a b c d ha hb hc hd = ground arith

pub length-frame : (msg : Bytes) → length (frame msg) ≡ 8 + length msg
unfolding frame pack_u32
length-frame msg = omega arith
