-- ===== src/Tcp/Returns.antt =====
-- tcpclient.py, `receive_data`: a callback that returns while its object satisfies an invariant.
use knot_link_sdk.Base.{
  ℕ, ◌≡◌, ◌≢◌, refl, ap, sym, ◌∙◌, inl, inr, true, some, List, [], ◌∷◌, ◌++◌, append-nil,
  append_assoc, arith, map, concat, All, seq_eq, Bool-cases,
}
use knot_link_sdk.Exec.{ok, continue}
use knot_link_sdk.Wire.{Bytes, IsSendable, frame, heartbeat_response, incomplete, next_message}
use knot_link_sdk.Wire.Scanning.{next_message-frame, next_message_short}
use knot_link_sdk.Tcp.{
  Callback, Client, chunk, process_message, handle_received_data, process_buffer, with_buffer,
  receive_data,
}
use knot_link_sdk.Tcp.Rounds.{process_buffer-message, process_buffer-incomplete}
use knot_link_sdk.Tcp.Frames.{frames, consume, consumed}
use knot_link_sdk.Tcp.Receive.{finish, receive_data-chunk, receive_data-chunks}

-- On the messages of `Q`, where the invariant `P` holds, the callback returns, does `step`, and keeps
-- the invariant.
pub record Returns {S : Type 0} (P : S → Type 0) (Q : Bytes → Type 0) (callback : Callback S)
    (step : Bytes → S → S) : Type 0 where
  pub returns :
      (msg : Bytes) (host : S) → Q msg → P host → callback msg host ≡ (ok tt, step msg host)
  pub keeps : (msg : Bytes) (host : S) → Q msg → P host → P (step msg host)

-- Where `Q` is no condition.
pub no_condition : (msgs : List Bytes) → All (λ _. Unit {0}) msgs
no_condition [] = tt
no_condition (msg ∷ msgs) = (tt, no_condition msgs)

module _ {S : Type 0} (P : S → Type 0) (Q : Bytes → Type 0) (callback : Callback S)
    (step : Bytes → S → S) (r : Returns P Q callback step) where
  consume-keeps : (msg : Bytes) (host : S) → Q msg → P host → P (consume step msg host)
  consume-keeps msg host q h = elim (Bool-cases (seq_eq msg heartbeat_response)) [
    | inl e ↦ rw e h
    | inr e ↦ rw e (r.keeps msg host q h)
  ]

  process_message-returns :
      (msg : Bytes) (c : Client S)
      → c.tcp.received_data_callback ≡ some callback
      → Q msg
      → P c.host
      → process_message msg c ≡ (ok tt, record c { host = consume step msg c.host })
  unfolding process_message handle_received_data
  process_message-returns msg c set q h = ground (arith, r.returns msg c.host q h)

  -- Frames at the head of the buffer are handed over, and the loop goes on behind them.
  pub drain :
      (msgs : List Bytes) (rest : Bytes) (c : Client S)
      → c.tcp.received_data_callback ≡ some callback
      → P c.host
      → All IsSendable msgs
      → All Q msgs
      → (process_buffer (with_buffer (frames msgs ++ rest) c)
          ≡ process_buffer (record (with_buffer rest c) { host = consumed step msgs c.host }))
        × P (consumed step msgs c.host)
  drain [] rest c set h _ _ = (refl, h)
  drain (msg ∷ msgs) rest c set h (s, ss) (q, qs) =
      let more = frames msgs ++ rest in
      let (later, still) =
        drain msgs rest (record c { host = consume step msg c.host }) set
          (consume-keeps msg c.host q h) ss qs in
      (
        rw append_assoc (
            process_buffer-message (with_buffer (frame msg ++ more) c) msg more
              (next_message-frame msg more s)
            ∙ ap (λ x. continue x.0 (λ _. process_buffer) x.1)
                (process_message-returns msg (with_buffer more c) set q h)
            ∙ later),
        still,
      )

  drain_whole :
      (msgs : List Bytes) (part : Bytes) (c : Client S)
      → c.tcp.received_data_callback ≡ some callback
      → P c.host
      → All IsSendable msgs
      → All Q msgs
      → next_message part ≡ incomplete
      → process_buffer (with_buffer (frames msgs ++ part) c)
        ≡ (ok tt, record (with_buffer part c) { host = consumed step msgs c.host })
  drain_whole msgs part c set h s qs waits =
      (drain msgs part c set h s qs).0
      ∙ process_buffer-incomplete (record (with_buffer part c) { host = consumed step msgs c.host })
          waits

  -- One event, on a buffer that need not be empty.
  pub receive_data-event :
      (x : ℕ) (xs : Bytes) (msgs : List Bytes) (part : Bytes) (c : Client S)
      → c.tcp.connected ≡ true
      → c.tcp.received_data_callback ≡ some callback
      → P c.host
      → All IsSendable msgs
      → All Q msgs
      → next_message part ≡ incomplete
      → c.tcp.buffer ++ x ∷ xs ≡ frames msgs ++ part
      → receive_data (chunk (x ∷ xs) ∷ []) c
        ≡ (ok tt, record (with_buffer part c) { host = consumed step msgs c.host })
  unfolding receive_data
  receive_data-event x xs msgs part c on set h s qs waits stream =
      receive_data-chunk x xs [] c on
      ∙ ap (λ b. finish [] (process_buffer (with_buffer b c))) stream
      ∙ ap (λ p. finish [] p) (drain_whole msgs part c set h s qs waits)

  -- The stream of these messages and of a part of one more, in any chunks, is received, and the
  -- callback gets the messages.
  pub receive_data-partial :
      (x : ℕ) (xs : Bytes) (chunks msgs : List Bytes) (part : Bytes) (c : Client S)
      → c.tcp.connected ≡ true
      → c.tcp.received_data_callback ≡ some callback
      → c.tcp.buffer ≡ []
      → P c.host
      → All (λ piece. piece ≢ []) chunks
      → All IsSendable msgs
      → All Q msgs
      → next_message part ≡ incomplete
      → (x ∷ xs) ++ concat chunks ≡ frames msgs ++ part
      → ((receive_data (chunk (x ∷ xs) ∷ map chunk chunks) c).0 ≡ ok tt)
        × ((receive_data (chunk (x ∷ xs) ∷ map chunk chunks) c).1.host ≡ consumed step msgs c.host)
  receive_data-partial x xs chunks msgs part c on set empty h full s qs waits stream =
      let same = receive_data-chunks x xs chunks c on full in
      let whole =
        receive_data-event x (xs ++ concat chunks) msgs part c on set h s qs waits
          (ap (λ b. b ++ (x ∷ (xs ++ concat chunks))) empty ∙ stream) in
      (same.0 ∙ ap (λ p. p.0) whole, ap (λ d. d.host) same.1 ∙ ap (λ p. p.1.host) whole)

  -- Without such a part.
  pub receive_data-returns :
      (x : ℕ) (xs : Bytes) (chunks msgs : List Bytes) (c : Client S)
      → c.tcp.connected ≡ true
      → c.tcp.received_data_callback ≡ some callback
      → c.tcp.buffer ≡ []
      → P c.host
      → All (λ piece. piece ≢ []) chunks
      → All IsSendable msgs
      → All Q msgs
      → (x ∷ xs) ++ concat chunks ≡ frames msgs
      → ((receive_data (chunk (x ∷ xs) ∷ map chunk chunks) c).0 ≡ ok tt)
        × ((receive_data (chunk (x ∷ xs) ∷ map chunk chunks) c).1.host ≡ consumed step msgs c.host)
  receive_data-returns x xs chunks msgs c on set empty h full s qs stream =
      receive_data-partial x xs chunks msgs [] c on set empty h full s qs
        (next_message_short [] (omega arith)) (stream ∙ sym (append-nil (frames msgs)))
