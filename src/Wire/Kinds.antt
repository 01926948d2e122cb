-- ===== src/Wire/Kinds.antt =====
-- The buffers from which a round takes nothing, described without the code that recognises them.
use knot_link_sdk.Base.{
  ℕ, ◌+◌, ◌≤◌, ◌<◌, ◌≡◌, ◌≢◌, refl, ◌⊎◌, inl, inr, true, false, [], ◌∷◌, ◌++◌, arith, length, All,
  seq_eq, seq_eq_sound, seq_eq_iff,
}
use knot_link_sdk.Wire.{
  Bytes, IsByte, magic, magic_len, header_len, max_msg_size, pack_u32, unpack_u32, incomplete,
  bad_magic, bad_length, next_message,
}
use knot_link_sdk.Wire.Header.{pack_u32-unpack_u32}
use knot_link_sdk.Wire.Scanning.{with_header, next_message-with_header, next_message_short}

-- The receiver waits: no whole header, or a good header with a part of its body.
abbrev pub IsWaiting : Bytes → Type 0
IsWaiting left =
    (length left < header_len)
    ⊎ ((len : ℕ) × (part : Bytes) × (left ≡ (magic ++ pack_u32 len) ++ part)
        × (0 < len)
        × (len ≤ max_msg_size)
        × (length part < len))

-- A whole header that no sender writes: another magic number, or the length 0 or one above the limit.
abbrev pub IsMalformed : Bytes → Type 0
IsMalformed left =
    (head field part : Bytes) × (left ≡ (head ++ field) ++ part)
    × (length head ≡ magic_len)
    × (length field ≡ 4)
    × ((head ≢ magic)
        ⊎ ((head ≡ magic) × ((unpack_u32 field ≡ 0) ⊎ (max_msg_size < unpack_u32 field))))

module _ (a b c d e f g h : ℕ) (part : Bytes) where
  abbrev len : ℕ
  len = unpack_u32 (e ∷ f ∷ g ∷ h ∷ [])

  abbrev head : Bytes
  head = a ∷ b ∷ c ∷ d ∷ []

  waits :
      next_message (with_header a b c d e f g h part) ≡ incomplete
      → (seq_eq head magic ≡ true) × (0 < len) × (len ≤ max_msg_size) × (length part < len)
  waits eq = ground (arith, next_message-with_header a b c d e f g h part)

  refuses_magic :
      next_message (with_header a b c d e f g h part) ≡ bad_magic → seq_eq head magic ≡ false
  refuses_magic eq = ground (arith, next_message-with_header a b c d e f g h part)

  refuses_length :
      (n : ℕ)
      → next_message (with_header a b c d e f g h part) ≡ bad_length n
      → (seq_eq head magic ≡ true) × ((len ≡ 0) ⊎ (max_msg_size < len))
  refuses_length n eq = ground (arith, next_message-with_header a b c d e f g h part)

pub next_message-incomplete :
    (buffer : Bytes) → All IsByte buffer → next_message buffer ≡ incomplete → IsWaiting buffer
next_message-incomplete (a ∷ b ∷ c ∷ d ∷ e ∷ f ∷ g ∷ h ∷ part)
      (_, (_, (_, (_, (be, (bf, (bg, (bh, _)))))))) eq =
    let (same, positive, fits, short) = waits a b c d e f g h part eq in
    inr (
      unpack_u32 (e ∷ f ∷ g ∷ h ∷ []),
      part,
      cc (seq_eq_sound (a ∷ b ∷ c ∷ d ∷ []) magic same, pack_u32-unpack_u32 e f g h be bf bg bh),
      positive,
      fits,
      short,
    )
next_message-incomplete buffer _ eq = inl (omega arith)

pub next_message-bad_magic : (buffer : Bytes) → next_message buffer ≡ bad_magic → IsMalformed buffer
next_message-bad_magic (a ∷ b ∷ c ∷ d ∷ e ∷ f ∷ g ∷ h ∷ part) eq = (
  a ∷ b ∷ c ∷ d ∷ [],
  e ∷ f ∷ g ∷ h ∷ [],
  part,
  refl,
  refl,
  refl,
  inl (λ same.
      cc (refuses_magic a b c d e f g h part eq, (seq_eq_iff (a ∷ b ∷ c ∷ d ∷ []) magic).1 same)),
)
next_message-bad_magic buffer eq = cc (next_message_short buffer (omega arith))

pub next_message-bad_length :
    (buffer : Bytes) (n : ℕ) → next_message buffer ≡ bad_length n → IsMalformed buffer
next_message-bad_length (a ∷ b ∷ c ∷ d ∷ e ∷ f ∷ g ∷ h ∷ part) n eq =
    let (same, wrong) = refuses_length a b c d e f g h part n eq in
    (
      a ∷ b ∷ c ∷ d ∷ [],
      e ∷ f ∷ g ∷ h ∷ [],
      part,
      refl,
      refl,
      refl,
      inr (seq_eq_sound (a ∷ b ∷ c ∷ d ∷ []) magic same, wrong),
    )
next_message-bad_length buffer n eq = cc (next_message_short buffer (omega arith))

-- Bytes that come behind a malformed header do not mend it.
pub next_message-append_bad_magic :
    (buffer more : Bytes)
    → next_message buffer ≡ bad_magic
    → next_message (buffer ++ more) ≡ bad_magic
next_message-append_bad_magic (a ∷ b ∷ c ∷ d ∷ e ∷ f ∷ g ∷ h ∷ part) more eq =
    rw (
      next_message-with_header a b c d e f g h (part ++ more),
      refuses_magic a b c d e f g h part eq,
    )
next_message-append_bad_magic buffer more eq = cc (next_message_short buffer (omega arith))

pub next_message-append_bad_length :
    (buffer more : Bytes) (n : ℕ)
    → next_message buffer ≡ bad_length n
    → next_message (buffer ++ more) ≡ bad_length n
next_message-append_bad_length (a ∷ b ∷ c ∷ d ∷ e ∷ f ∷ g ∷ h ∷ part) more n eq = ground (
  arith,
  next_message-with_header a b c d e f g h part,
  next_message-with_header a b c d e f g h (part ++ more),
)
next_message-append_bad_length buffer more n eq = cc (next_message_short buffer (omega arith))

-- A buffer that waits is shorter than the longest frame.
pub next_message-incomplete_short :
    (buffer : Bytes) → next_message buffer ≡ incomplete → length buffer < header_len + max_msg_size
next_message-incomplete_short (a ∷ b ∷ c ∷ d ∷ e ∷ f ∷ g ∷ h ∷ part) eq =
    omega (arith, waits a b c d e f g h part eq)
next_message-incomplete_short buffer eq = omega arith
