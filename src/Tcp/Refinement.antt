-- ===== src/Tcp/Refinement.antt =====
-- tcpclient.py, `_process_buffer`, against a description of the stream that does not use its code.
use knot_link_sdk.Base.{
  ℕ, zero, suc, ◌<◌, ◌≡◌, refl, ap, ◌∙◌, ◌⊎◌, inl, inr, true, false, some, List, [], ◌∷◌, ◌++◌,
  append_assoc, arith, length, All, All-append_right,
}
use knot_link_sdk.Exec.{ok}
use knot_link_sdk.Wire.{
  Bytes, IsByte, IsSendable, frame, Scan, incomplete, bad_magic, bad_length, message, next_message,
}
use knot_link_sdk.Wire.Scanning.{next_message_sound, next_message_shrinks}
use knot_link_sdk.Wire.Kinds.{
  IsWaiting, IsMalformed, next_message-incomplete, next_message-bad_magic, next_message-bad_length,
}
use knot_link_sdk.Tcp.{Client, process_buffer, with_buffer, refuse}
use knot_link_sdk.Tcp.Rounds.{
  process_buffer-incomplete, process_buffer-bad_magic, process_buffer-bad_length,
}
use knot_link_sdk.Tcp.Frames.{frames, returning, consume, consumed, process_buffer-taken}

-- From `c` to `c'` the messages `msgs` were handed over: they are the whole frames at the head of the
-- buffer, all of them, and what is left either waits for more or is malformed. In the latter case,
-- and in no other, the client disconnects and closes its socket.
pub record Parsed {S : Type 0} (step : Bytes → S → S) (c c' : Client S) : Type 0 where
  pub msgs : List Bytes
  pub left : Bytes
  pub split : c.tcp.buffer ≡ frames msgs ++ left
  pub sendable : All IsSendable msgs
  pub handed : c'.host ≡ consumed step msgs c.host
  pub kept : c'.tcp.buffer ≡ left
  pub ending :
      (IsWaiting left
        × (c'.tcp.connected ≡ c.tcp.connected)
        × (c'.tcp.tcp_socket ≡ c.tcp.tcp_socket))
      ⊎ (IsMalformed left × (c'.tcp.connected ≡ false) × (c'.tcp.tcp_socket.closed ≡ true))

module _ {S : Type 0} (step : Bytes → S → S) where
  abbrev Goal : Client S → Type 0
  Goal c = (c' : Client S) × (process_buffer c ≡ (ok tt, c')) × Parsed step c c'

  refused :
      (c : Client S) → IsMalformed c.tcp.buffer → process_buffer c ≡ (ok tt, refuse c) → Goal c
  unfolding refuse
  refused c bad e = (
    refuse c,
    e,
    record {
      msgs = [];
      left = c.tcp.buffer;
      split = refl;
      sendable = tt;
      handed = refl;
      kept = refl;
      ending = inr (bad, refl, refl);
    },
  )

  module _ (c : Client S) (msg rest : Bytes) where
    abbrev after : Client S
    after = record (with_buffer rest c) { host = consume step msg c.host }

    prepend :
        c.tcp.buffer ≡ frame msg ++ rest
        → IsSendable msg
        → process_buffer c ≡ process_buffer after
        → Goal after
        → Goal c
    prepend split s e (c', e', p) = (
      c',
      e ∙ e',
      record {
        msgs = msg ∷ p.msgs;
        left = p.left;
        split =
            rw (append_assoc (frame msg) (frames p.msgs) p.left)
              (split ∙ ap (λ b. frame msg ++ b) p.split);
        sendable = (s, p.sendable);
        handed = p.handed;
        kept = p.kept;
        ending = p.ending;
      },
    )

  module _ (c : Client S) (set : c.tcp.received_data_callback ≡ some (returning step))
      (bytes : All IsByte c.tcp.buffer) where
    parse_scan :
        ((c1 : Client S)
          → length c1.tcp.buffer < length c.tcp.buffer
          → c1.tcp.received_data_callback ≡ some (returning step)
          → All IsByte c1.tcp.buffer
          → Goal c1)
        → (s : Scan) → next_message c.tcp.buffer ≡ s
        → Goal c
    parse_scan ih incomplete e = (
      c,
      process_buffer-incomplete c e,
      record {
        msgs = [];
        left = c.tcp.buffer;
        split = refl;
        sendable = tt;
        handed = refl;
        kept = refl;
        ending = inl (next_message-incomplete c.tcp.buffer bytes e, refl, refl);
      },
    )
    parse_scan ih bad_magic e =
        refused c (next_message-bad_magic c.tcp.buffer e) (process_buffer-bad_magic c e)
    parse_scan ih (bad_length n) e =
        refused c (next_message-bad_length c.tcp.buffer n e) (process_buffer-bad_length c n e)
    parse_scan ih (message msg rest) e =
        let (split, s) = next_message_sound c.tcp.buffer msg rest bytes e in
        let shorter = next_message_shrinks c.tcp.buffer msg rest e in
        prepend c msg rest split s (process_buffer-taken step c msg rest set e) (
          ih (after c msg rest) (omega arith) set
            (All-append_right IsByte (frame msg) rest (rw split at bytes)))

  parse :
      (n : ℕ) (c : Client S)
      → length c.tcp.buffer < n
      → c.tcp.received_data_callback ≡ some (returning step)
      → All IsByte c.tcp.buffer
      → Goal c
  parse zero c h set bytes = absurd (omega arith)
  parse (suc n) c h set bytes =
      parse_scan c set bytes (λ c1 shorter. parse n c1 (omega arith)) (next_message c.tcp.buffer)
        refl

  -- If the callback returns and the buffer holds bytes, the loop of `_process_buffer` returns
  -- without an exception, in a state that stands to the old one as `Parsed` says: the messages
  -- handed over are those of all the whole frames at the head of the buffer, in order,
  -- heartbeat responses left out, and what is left waits for more bytes with the connection as
  -- it was, or is malformed and the client is disconnected with its socket closed.
  pub process_buffer-Parsed :
      (c : Client S)
      → c.tcp.received_data_callback ≡ some (returning step)
      → All IsByte c.tcp.buffer
      → (c' : Client S) × (process_buffer c ≡ (ok tt, c')) × Parsed step c c'
  process_buffer-Parsed c = parse (suc (length c.tcp.buffer)) c (omega arith)
