-- ===== src/Text/Utf8.antt =====
-- Python's codec "utf-8": `str.encode` with errors="strict", and `bytes.decode` with "strict" and with
-- "replace".
pub mod RoundTrip
pub mod Append
pub mod Scalars
use mathlib.Core.Option
use knot_link_sdk.Base.{
  ℕ, zero, suc, map, ◌==◌, ◌||◌, ◌+◌, ◌-◌, ◌*◌, ◌/◌, ◌%◌, Bool, ◌&&◌, Option, none, some, List, [],
  ◌∷◌, ◌++◌, ltb, leb, if◌then◌else◌,
}

abbrev pub Text : Type 0
Text = List ℕ

abbrev pub Bytes : Type 0
Bytes = List ℕ

-- Code points that have no encoding: the surrogates. (A `str` holds none from 0x110000 on.)
abbrev pub is_scalar : ℕ → Bool
is_scalar p = ltb p 0xd800 || (leb 0xe000 p && ltb p 0x110000)

abbrev tail_byte : ℕ → ℕ
tail_byte n = 0x80 + n % 64

unfoldable pub encode_point : ℕ → Bytes
encode_point p =
    if ltb p 0x80
    then p ∷ []
    else if ltb p 0x800
    then (0xc0 + p / 64) ∷ tail_byte p ∷ []
    else if ltb p 0x10000
    then (0xe0 + p / 4096) ∷ tail_byte (p / 64) ∷ tail_byte p ∷ []
    else (0xf0 + p / 262144) ∷ tail_byte (p / 4096) ∷ tail_byte (p / 64) ∷ tail_byte p ∷ []

-- `s.encode("utf-8")`; `none` is `UnicodeEncodeError`.
unfoldable pub encode : Text → Option Bytes
encode [] = some []
encode (p ∷ s) =
    let rest = encode s in
    if is_scalar p then Option.map (λ bytes. encode_point p ++ bytes) rest else none

-- A sequence under way: how many bytes are missing, the bits so far, and the range of the next byte.
pub record Pending : Type 0 where
  pub missing : ℕ
  pub bits : ℕ
  pub low : ℕ
  pub high : ℕ

-- What a byte does where no sequence is under way: a code point, a fault, or a new sequence.
pub data Lead : Type 0 where
  ascii : ℕ → Lead
  malformed : Lead
  open_at : Pending → Lead

pub lead : ℕ → Lead
lead b =
    if ltb b 0x80
    then ascii b
    else if ltb b 0xc2
    then malformed
    else if ltb b 0xe0
    then open_at (record { missing = 0; bits = b - 0xc0; low = 0x80; high = 0xbf })
    else if ltb b 0xe1
    then open_at (record { missing = 1; bits = 0; low = 0xa0; high = 0xbf })
    else if b == 0xed
    then open_at (record { missing = 1; bits = 0xd; low = 0x80; high = 0x9f })
    else if ltb b 0xf0
    then open_at (record { missing = 1; bits = b - 0xe0; low = 0x80; high = 0xbf })
    else if ltb b 0xf1
    then open_at (record { missing = 2; bits = 0; low = 0x90; high = 0xbf })
    else if ltb b 0xf4
    then open_at (record { missing = 2; bits = b - 0xf0; low = 0x80; high = 0xbf })
    else if ltb b 0xf5
    then open_at (record { missing = 2; bits = 4; low = 0x80; high = 0x8f })
    else malformed

-- The code points that the bytes spell, `none` for each fault: one for a sequence that breaks off,
-- and one for a byte that can begin nothing.
abbrev pub Points : Type 0
Points = List (Option ℕ)

pub begin : Lead → (Option Pending → Points) → Points
begin (ascii p) again = some p ∷ again none
begin malformed again = none ∷ again none
begin (open_at pending) again = again (some pending)

-- A byte in the range goes on with the sequence.
pub follow : ℕ → ℕ → (Option Pending → Points) → Points
follow zero bits again = some bits ∷ again none
follow (suc missing) bits again =
    again (some (record { missing = missing; bits = bits; low = 0x80; high = 0xbf }))

pub scan : Option Pending → Bytes → Points
scan none [] = []
scan (some p) [] = none ∷ []
scan none (b ∷ bytes) = begin (lead b) (λ s. scan s bytes)
scan (some p) (b ∷ bytes) =
    if leb p.low b && leb b p.high
    then follow p.missing (p.bits * 64 + b % 64) (λ s. scan s bytes)
    else none ∷ begin (lead b) (λ s. scan s bytes)

-- U+FFFD
abbrev pub replacement : ℕ
replacement = 0xfffd

abbrev pub or_replacement : Option ℕ → ℕ
or_replacement none = replacement
or_replacement (some p) = p

-- `b.decode("utf-8", errors="replace")`
pub decode_replace : Bytes → Text
unfolding scan
decode_replace bytes = map or_replacement (scan none bytes)

abbrev pub all_points : Points → Option Text
all_points [] = some []
all_points (none ∷ points) = none
all_points (some p ∷ points) = Option.map (λ s. p ∷ s) (all_points points)

-- `b.decode("utf-8")`; `none` is `UnicodeDecodeError`.
pub decode : Bytes → Option Text
unfolding scan
decode bytes = all_points (scan none bytes)
