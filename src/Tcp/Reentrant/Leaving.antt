-- ===== src/Tcp/Reentrant/Leaving.antt =====
-- `receive_data` with a callback that calls methods and returns: it gets every message of the chunk, also
-- those behind the one on which it disconnects.
use knot_link_sdk.Base.{
  ℕ, ◌≡◌, refl, ap, ◌∙◌, true, false, List, [], ◌∷◌, ◌++◌, append_assoc, length, All, seq_eq,
  if◌then◌else◌, if_true, arith, Bool-cases, inl, inr,
}
use knot_link_sdk.Exec.{ok, continue, handle}
use knot_link_sdk.Wire.{Bytes, IsSendable, frame, heartbeat_response, incomplete, next_message}
use knot_link_sdk.Wire.Scanning.{next_message-frame}
use knot_link_sdk.Tcp.{
  TcpClient, disconnect, cancel_timer, Client, Recv, chunk, go_on, with_buffer, receive_error,
  receive_next,
}
use knot_link_sdk.Tcp.Frames.{frames}
use knot_link_sdk.Tcp.Reentrant.{
  Handler, process_message_by, process_buffer_by, receive_chunk_by, receive_data_by,
}
use knot_link_sdk.Tcp.Reentrant.Rounds.{
  AddsNothing, process_buffer-message, process_buffer-incomplete,
}

-- The callback returns, does `step`, and neither reads nor writes the buffer.
pub record Acts {S : Type 0} (handler : Handler S) (step : Bytes → Client S → Client S)
    : Type 0 where
  pub returns : (msg : Bytes) (c : Client S) → handler msg c ≡ (ok tt, step msg c)
  pub ignores :
      (msg b : Bytes) (c : Client S) → step msg (with_buffer b c) ≡ with_buffer b (step msg c)

pub disconnect-with_buffer :
    {S : Type 0} (b : Bytes) (t : TcpClient S)
    → disconnect (record t { buffer = b }) ≡ record (disconnect t) { buffer = b }
unfolding disconnect cancel_timer
disconnect-with_buffer b t = ground arith

module _ {S : Type 0} (step : Bytes → Client S → Client S) where
  abbrev pub act : Bytes → Client S → Client S
  act msg c = if seq_eq msg heartbeat_response then c else step msg c

  -- The client after these messages.
  abbrev pub acted : List Bytes → Client S → Client S
  acted [] c = c
  acted (msg ∷ msgs) c = acted msgs (act msg c)

  module _ (handler : Handler S) (acts : Acts handler step) where
    buffer-handler : (msg : Bytes) (c : Client S) → (handler msg c).1.tcp.buffer ≡ c.tcp.buffer
    buffer-handler msg c =
        ap (λ p. p.1.tcp.buffer) (acts.returns msg c)
        ∙ ap (λ d. d.tcp.buffer) (acts.ignores msg c.tcp.buffer c)

    acts-AddsNothing : AddsNothing handler
    acts-AddsNothing = record { no_more = λ msg c. omega (arith, ap length (buffer-handler msg c)) }

    process_message_by-acts :
        (msg b : Bytes) (c : Client S)
        → process_message_by handler msg (with_buffer b c) ≡ (ok tt, with_buffer b (act msg c))
    unfolding process_message_by
    process_message_by-acts msg b c = elim (Bool-cases (seq_eq msg heartbeat_response)) [
      | inl e ↦ rw e refl
      | inr e ↦
          rw e (acts.returns msg (with_buffer b c) ∙ ap (λ d. (ok tt, d)) (acts.ignores msg b c))
    ]

    process_buffer_by-acted :
        (msgs : List Bytes) (part : Bytes) (c : Client S)
        → All IsSendable msgs
        → next_message part ≡ incomplete
        → process_buffer_by handler (with_buffer (frames msgs ++ part) c)
          ≡ (ok tt, with_buffer part (acted msgs c))
    process_buffer_by-acted [] part c _ waits =
        process_buffer-incomplete handler acts-AddsNothing (with_buffer part c) waits
    process_buffer_by-acted (msg ∷ msgs) part c (s, ss) waits =
        let more = frames msgs ++ part in
        rw append_assoc (
          process_buffer-message handler acts-AddsNothing (with_buffer (frame msg ++ more) c) msg
            more (next_message-frame msg more s)
          ∙ ap (λ p. continue p.0 (λ _. process_buffer_by handler) p.1)
              (process_message_by-acts msg more c)
          ∙ process_buffer_by-acted msgs part (act msg c) ss waits)

    receive_data_by-off :
        (events : List Recv) (c : Client S)
        → c.tcp.connected ≡ false
        → receive_data_by handler events c ≡ (ok tt, c)
    unfolding receive_data_by
    receive_data_by-off [] c off = refl
    receive_data_by-off (event ∷ events) c off = rw off refl

    -- One chunk, and then the rest.
    pub receive_data_by-acted :
        (x : ℕ) (xs : Bytes) (msgs : List Bytes) (part : Bytes) (events : List Recv) (c : Client S)
        → c.tcp.connected ≡ true
        → c.tcp.buffer ++ x ∷ xs ≡ frames msgs ++ part
        → All IsSendable msgs
        → next_message part ≡ incomplete
        → receive_data_by handler (chunk (x ∷ xs) ∷ events) c
          ≡ receive_data_by handler events (with_buffer part (acted msgs c))
    unfolding receive_data_by receive_chunk_by receive_next
    receive_data_by-acted x xs msgs part events c on stream ss waits =
        if_true _ _ on
        ∙ ap
            (λ b.
              let p = process_buffer_by handler (with_buffer b c) in
              let q = continue p.0 (λ _ d. (ok go_on, d)) p.1 in
              let (r, d) = handle q.0 receive_error q.1 in
              continue r (receive_next (receive_data_by handler events)) d)
            stream
        ∙ ap
            (λ p.
              let q = continue p.0 (λ _ d. (ok go_on, d)) p.1 in
              let (r, d) = handle q.0 receive_error q.1 in
              continue r (receive_next (receive_data_by handler events)) d)
            (process_buffer_by-acted msgs part c ss waits)

    -- If the callback has disconnected in the chunk, the rest is not read.
    pub receive_data_by-left :
        (x : ℕ) (xs : Bytes) (msgs : List Bytes) (part : Bytes) (events : List Recv) (c : Client S)
        → c.tcp.connected ≡ true
        → c.tcp.buffer ++ x ∷ xs ≡ frames msgs ++ part
        → All IsSendable msgs
        → next_message part ≡ incomplete
        → (acted msgs c).tcp.connected ≡ false
        → receive_data_by handler (chunk (x ∷ xs) ∷ events) c
          ≡ (ok tt, with_buffer part (acted msgs c))
    receive_data_by-left x xs msgs part events c on stream ss waits off =
        receive_data_by-acted x xs msgs part events c on stream ss waits
        ∙ receive_data_by-off events (with_buffer part (acted msgs c)) off
