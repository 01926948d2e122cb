-- ===== src/Tcp/Frames.antt =====
-- tcpclient.py, `_process_buffer`: the messages that it takes from the stream are those whose frames
-- the stream holds. In this file the callback returns, `step` being what it does to its object.
use knot_link_sdk.Base.{
  ◌≡◌, refl, ◌∙◌, some, List, [], ◌∷◌, ◌++◌, append_assoc, arith, All, seq_eq, if◌then◌else◌,
}
use knot_link_sdk.Exec.{ok}
use knot_link_sdk.Wire.{Bytes, IsSendable, frame, heartbeat_response, message, next_message}
use knot_link_sdk.Wire.Scanning.{next_message-frame}
use knot_link_sdk.Tcp.{
  Callback, Client, handle_received_data, process_message, process_buffer, with_buffer,
}
use knot_link_sdk.Tcp.Rounds.{process_buffer-message}

-- The stream that a sender of these messages writes.
abbrev pub frames : List Bytes → Bytes
frames [] = []
frames (msg ∷ msgs) = frame msg ++ frames msgs

module _ {S : Type 0} (step : Bytes → S → S) where
  abbrev pub returning : Callback S
  returning msg host = (ok tt, step msg host)

  -- The object after these messages: heartbeat responses do not reach it.
  abbrev pub consume : Bytes → S → S
  consume msg host = if seq_eq msg heartbeat_response then host else step msg host

  abbrev pub consumed : List Bytes → S → S
  consumed [] host = host
  consumed (msg ∷ msgs) host = consumed msgs (consume msg host)

  process_message-returning :
      (msg : Bytes) (c : Client S)
      → c.tcp.received_data_callback ≡ some returning
      → process_message msg c ≡ (ok tt, record c { host = consume msg c.host })
  unfolding process_message handle_received_data
  process_message-returning msg c e = ground arith

  -- The loop goes on from the state after the message.
  pub process_buffer-taken :
      (c : Client S) (msg left : Bytes)
      → c.tcp.received_data_callback ≡ some returning
      → next_message c.tcp.buffer ≡ message msg left
      → process_buffer c
        ≡ process_buffer (record (with_buffer left c) { host = consume msg c.host })
  process_buffer-taken c msg left e scan =
      process_buffer-message c msg left scan
      ∙ rw (process_message-returning msg (with_buffer left c) e)

  -- If the callback returns, the frames of any messages of 1 byte to 16 MB at the head of the
  -- buffer are handed over in their order, heartbeat responses left out, and the loop goes on
  -- with the bytes behind them.
  pub process_buffer-frames :
      (msgs : List Bytes) (rest : Bytes) (c : Client S)
      → c.tcp.received_data_callback ≡ some returning
      → All IsSendable msgs
      → process_buffer (with_buffer (frames msgs ++ rest) c)
        ≡ process_buffer (record (with_buffer rest c) { host = consumed msgs c.host })
  process_buffer-frames [] rest c e s = refl
  process_buffer-frames (msg ∷ msgs) rest c e (s, ss) = rw append_assoc (
      process_buffer-taken (with_buffer (frame msg ++ (frames msgs ++ rest)) c) msg
        (frames msgs ++ rest) e (next_message-frame msg (frames msgs ++ rest) s)
      ∙ process_buffer-frames msgs rest (record c { host = consume msg c.host }) e ss)
