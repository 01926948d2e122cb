-- ===== src/Wire/Scanning.antt =====
-- One round of the receiver's loop, on a buffer that is long enough to hold a header.
use knot_link_sdk.Base.{
  ℕ, suc, ◌+◌, ◌≤◌, ◌<◌, ◌≡◌, ap, true, All, refl, ◌⊎◌, inl, inr, [], ◌∷◌, ◌++◌, ◌||◌, arith, ltb,
  ◌==◌, if◌then◌else◌, seq_eq, seq_eq_sound, length, take, drop, length-append, take-append,
  drop-append, take-append_le, drop-append_le, take-append-drop, length-take,
}
use knot_link_sdk.Wire.{
  Bytes, IsByte, magic, header_len, frame, pack_u32, IsSendable, max_msg_size, unpack_u32, Scan,
  incomplete, bad_magic, bad_length, message, next_message,
}
use knot_link_sdk.Wire.Header.{unpack_u32-pack_u32, pack_u32-unpack_u32}

-- What a round makes of the header's eight bytes and of what follows them.
abbrev pub scan_body : ℕ → Bytes → Scan
scan_body len rest =
    if len == 0 || ltb max_msg_size len
    then bad_length len
    else if ltb (length rest) len
    then incomplete
    else message (take len rest) (drop len rest)

past_header : (n : ℕ) → header_len + n ≡ suc (suc (suc (suc (suc (suc (suc (suc n)))))))
past_header n = omega arith

module _ (a b c d e f g h : ℕ) (rest : Bytes) where
  abbrev pub with_header : Bytes
  with_header = a ∷ b ∷ c ∷ d ∷ e ∷ f ∷ g ∷ h ∷ rest

  pub next_message-with_header : next_message with_header ≡ (
      if seq_eq (a ∷ b ∷ c ∷ d ∷ []) magic
      then scan_body (unpack_u32 (e ∷ f ∷ g ∷ h ∷ [])) rest
      else bad_magic)
  unfolding next_message
  next_message-with_header = rw past_header (ground arith)

pub header_cases :
    (b : Bytes)
    → (length b < 8)
      ⊎ ((a0 a1 a2 a3 a4 a5 a6 a7 : ℕ) × (rest : Bytes) × (b
            ≡ with_header a0 a1 a2 a3 a4 a5 a6 a7 rest))
header_cases (a ∷ b ∷ c ∷ d ∷ e ∷ f ∷ g ∷ h ∷ rest) = inr (a, b, c, d, e, f, g, h, rest, refl)
header_cases _ = inl (omega arith)

-- A round at a short buffer waits for the rest of the header.
pub next_message_short : (b : Bytes) → length b < 8 → next_message b ≡ incomplete
unfolding next_message
next_message_short b h = ground arith

take_whole : (xs ys : Bytes) {n : ℕ} → n ≡ length xs → take n (xs ++ ys) ≡ xs
take_whole xs ys e = rw e (take-append xs ys)

drop_whole : (xs ys : Bytes) {n : ℕ} → n ≡ length xs → drop n (xs ++ ys) ≡ ys
drop_whole xs ys e = rw e (drop-append xs ys)

scan_body-append :
    (msg rest : Bytes) → IsSendable msg → scan_body (length msg) (msg ++ rest) ≡ message msg rest
scan_body-append msg rest s =
    ground (arith, take-append msg rest, drop-append msg rest, length-append msg rest)

-- A frame at the head of the buffer is taken off it, whatever follows.
pub next_message-frame :
    (msg rest : Bytes) → IsSendable msg → next_message (frame msg ++ rest) ≡ message msg rest
unfolding frame pack_u32 seq_eq
next_message-frame msg rest s =
    rw next_message-with_header (rw (fold_back) (scan_body-append msg rest s))
  where
    fold_back : unpack_u32 (pack_u32 (length msg)) ≡ length msg
    fold_back = unpack_u32-pack_u32 (length msg) (omega arith)

scan_body-more :
    (len : ℕ) (rest more msg left : Bytes)
    → scan_body len rest ≡ message msg left
    → scan_body len (rest ++ more) ≡ message msg (left ++ more)
scan_body-more len rest more msg left e =
    ground
      (arith, take-append_le len rest more, drop-append_le len rest more, length-append rest more)

scan_body_sound :
    (len : ℕ) (rest msg left : Bytes)
    → scan_body len rest ≡ message msg left
    → (len ≡ length msg) × (rest ≡ msg ++ left) × IsSendable msg
scan_body_sound len rest msg left e =
    ground (arith, take-append-drop len rest, length-take len rest)

-- A round that takes a message has checked the magic number, and has read the length.
module _ (a b c d e f g h : ℕ) (rest : Bytes) {msg left : Bytes} where
  taken :
      next_message (with_header a b c d e f g h rest) ≡ message msg left
      → (seq_eq (a ∷ b ∷ c ∷ d ∷ []) magic ≡ true)
        × (scan_body (unpack_u32 (e ∷ f ∷ g ∷ h ∷ [])) rest ≡ message msg left)
  taken eq = ground (arith, next_message-with_header a b c d e f g h rest)

-- A message that is found in a buffer of bytes has from 1 byte to 16 MB, and the buffer is its
-- frame with the bytes that are left behind it.
pub next_message_sound :
    (buffer msg left : Bytes)
    → All IsByte buffer
    → next_message buffer ≡ message msg left
    → (buffer ≡ frame msg ++ left) × IsSendable msg
unfolding frame
next_message_sound (a ∷ b ∷ c ∷ d ∷ e ∷ f ∷ g ∷ h ∷ rest) msg left
      (_, (_, (_, (_, (be, (bf, (bg, (bh, _)))))))) eq =
    let (same, body) = taken a b c d e f g h rest eq in
    let (len, split, sendable) =
      scan_body_sound (unpack_u32 (e ∷ f ∷ g ∷ h ∷ [])) rest msg left body in
    (
      cc (
        seq_eq_sound (a ∷ b ∷ c ∷ d ∷ []) magic same,
        pack_u32-unpack_u32 e f g h be bf bg bh,
        len,
        split,
      ),
      sendable,
    )
next_message_sound buffer msg left bytes eq = cc (next_message_short buffer (omega arith))

-- Bytes that come behind a whole frame do not change what the round takes.
pub next_message-append :
    (buffer more msg left : Bytes)
    → next_message buffer ≡ message msg left
    → next_message (buffer ++ more) ≡ message msg (left ++ more)
next_message-append (a ∷ b ∷ c ∷ d ∷ e ∷ f ∷ g ∷ h ∷ rest) more msg left eq =
    let (same, body) = taken a b c d e f g h rest eq in
    rw (next_message-with_header a b c d e f g h (rest ++ more), same)
      (scan_body-more (unpack_u32 (e ∷ f ∷ g ∷ h ∷ [])) rest more msg left body)
next_message-append buffer more msg left eq = cc (next_message_short buffer (omega arith))

-- A round that takes a message takes at least nine bytes.
pub next_message_shrinks :
    (buffer msg left : Bytes)
    → next_message buffer ≡ message msg left
    → length left + 9 ≤ length buffer
next_message_shrinks (a ∷ b ∷ c ∷ d ∷ e ∷ f ∷ g ∷ h ∷ rest) msg left eq =
    let (same, body) = taken a b c d e f g h rest eq in
    let (len, split, sendable) =
      scan_body_sound (unpack_u32 (e ∷ f ∷ g ∷ h ∷ [])) rest msg left body in
    omega (arith, ap length split, length-append msg left)
next_message_shrinks buffer msg left eq = cc (next_message_short buffer (omega arith))
