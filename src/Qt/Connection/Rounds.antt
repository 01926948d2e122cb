-- ===== src/Qt/Connection/Rounds.antt =====
-- tcpclient.py of the PyQt variant, `_processBuffer`: the rounds of its loop, and that they come to an
-- end even where slots call the client back.
use knot_link_sdk.Base.{
  ℕ, zero, suc, ◌≤◌, ◌<◌, ◌≡◌, refl, ap, ◌∙◌, ◌⊎◌, inl, inr, arith, length, seq_eq, Bool-cases,
}
use knot_link_sdk.Wire.{
  Bytes, Scan, incomplete, bad_magic, bad_length, message, next_message, heartbeat_response,
}
use knot_link_sdk.Wire.Scanning.{next_message_shrinks}
use knot_link_sdk.Qt.{Toolkit}
use knot_link_sdk.Qt.Connection.{
  received_data, QtClient, Slots, with_buffer, disconnect_from_host, process_message, process_round,
  process_rounds, process_buffer,
}

-- The slots of a message add no bytes to the buffer: they may read from the client, send, and
-- disconnect.
abbrev pub AddsNothing : {qt : Toolkit} {S : Type 0} → Slots qt S → Type 0
AddsNothing {qt} {S} slots =
    (msg : Bytes) (c : QtClient qt S)
    → length (slots (received_data msg) c).buffer ≤ length c.buffer

module _ (qt : Toolkit) {S : Type 0} (slots : Slots qt S) where
  scan_cases :
      (s : Scan)
      → ((msg left : Bytes) × (s ≡ message msg left))
        ⊎ ((f g : QtClient qt S → QtClient qt S)
            → process_round qt slots f s ≡ process_round qt slots g s)
  unfolding process_round
  scan_cases incomplete = inr (λ f g. refl)
  scan_cases bad_magic = inr (λ f g. refl)
  scan_cases (bad_length n) = inr (λ f g. refl)
  scan_cases (message msg left) = inl (msg, left, refl)

  process_message-le :
      AddsNothing slots
      → (msg : Bytes) (c : QtClient qt S)
      → length (process_message qt slots msg c).buffer ≤ length c.buffer
  unfolding process_message
  process_message-le adds msg c = elim (Bool-cases (seq_eq msg heartbeat_response)) [
    | inl e ↦ rw e (omega arith)
    | inr e ↦ rw e (adds msg c)
  ]

  enough_rounds :
      AddsNothing slots
      → (n m : ℕ) (c : QtClient qt S) → length c.buffer < n
      → length c.buffer < m
      → process_rounds qt slots n c ≡ process_rounds qt slots m c
  unfolding process_rounds process_round
  enough_rounds adds zero m c hn hm = absurd (omega arith)
  enough_rounds adds (suc n) zero c hn hm = absurd (omega arith)
  enough_rounds adds (suc n) (suc m) c hn hm = elim (scan_cases (next_message c.buffer)) [
    | inl (msg, left, e) ↦
        let shorter = next_message_shrinks c.buffer msg left e in
        let no_more = process_message-le adds msg (with_buffer left c) in
        rw e (
          enough_rounds adds n m (process_message qt slots msg (with_buffer left c)) (omega arith)
            (omega arith))
    | inr same ↦ ap (λ f. f c) (same (process_rounds qt slots n) (process_rounds qt slots m))
  ]

  -- If what the slots of a message do adds no bytes to the buffer (they may send, disconnect
  -- and change all else), the loop of `_processBuffer` is one round and then, if that took a
  -- message, the whole loop again: the rounds that the model allows never run out.
  pub process_buffer-process_round :
      (c : QtClient qt S)
      → AddsNothing slots
      → process_buffer qt slots c
        ≡ process_round qt slots (process_buffer qt slots) (next_message c.buffer) c
  unfolding process_buffer process_rounds process_round
  process_buffer-process_round c adds = elim (scan_cases (next_message c.buffer)) [
    | inl (msg, left, e) ↦
        let shorter = next_message_shrinks c.buffer msg left e in
        let c' = process_message qt slots msg (with_buffer left c) in
        let no_more = process_message-le adds msg (with_buffer left c) in
        rw e (
          enough_rounds adds (length c.buffer) (suc (length c'.buffer)) c' (omega arith)
            (omega arith))
    | inr same ↦
        ap (λ f. f c) (same (process_rounds qt slots (length c.buffer)) (process_buffer qt slots))
  ]

  module _ (adds : AddsNothing slots) (c : QtClient qt S) where
    -- The kinds of a round, by what is at the head of the buffer.
    pub process_buffer-message :
        (msg left : Bytes)
        → next_message c.buffer ≡ message msg left
        → process_buffer qt slots c
          ≡ process_buffer qt slots (process_message qt slots msg (with_buffer left c))
    unfolding process_round
    process_buffer-message msg left e = process_buffer-process_round c adds ∙ (rw e)

    pub process_buffer-incomplete :
        next_message c.buffer ≡ incomplete → process_buffer qt slots c ≡ c
    unfolding process_round
    process_buffer-incomplete e = process_buffer-process_round c adds ∙ (rw e)

    pub process_buffer-bad_magic :
        next_message c.buffer ≡ bad_magic
        → process_buffer qt slots c ≡ disconnect_from_host qt slots c
    unfolding process_round
    process_buffer-bad_magic e = process_buffer-process_round c adds ∙ (rw e)

    pub process_buffer-bad_length :
        (len : ℕ)
        → next_message c.buffer ≡ bad_length len
        → process_buffer qt slots c ≡ disconnect_from_host qt slots c
    unfolding process_round
    process_buffer-bad_length len e = process_buffer-process_round c adds ∙ (rw e)
