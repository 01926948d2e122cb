-- ===== src/Tcp/Chunks.antt =====
-- tcpclient.py, `_process_buffer` and `receive_data`: how the stream is cut into chunks by `recv` makes
-- no difference, whatever the callback does.
use knot_link_sdk.Base.{ℕ, zero, suc, ◌<◌, ◌≡◌, refl, ◌++◌, arith, length}
use knot_link_sdk.Exec.{Result, ok, raised, continue}
use knot_link_sdk.Wire.{Bytes, Scan, incomplete, bad_magic, bad_length, message, next_message}
use knot_link_sdk.Wire.Scanning.{next_message-append, next_message_shrinks}
use knot_link_sdk.Wire.Kinds.{next_message-append_bad_magic, next_message-append_bad_length}
use knot_link_sdk.Tcp.{Client, process_message, process_buffer, with_buffer, refuse}
use knot_link_sdk.Tcp.Rounds.{
  tcp-process_message, process_buffer-message, process_buffer-incomplete, process_buffer-bad_magic,
  process_buffer-bad_length,
}

module _ {S : Type 0} where
  -- More bytes arrive.
  abbrev pub extend : Bytes → Client S → Client S
  extend more c = with_buffer (c.tcp.buffer ++ more) c

  -- After a run that waits for more, the loop is entered again with the new bytes; after any other
  -- they stay where they are.
  abbrev resume : Bytes → Scan → Client S → Result (Unit {0}) × Client S
  resume more incomplete c = process_buffer (extend more c)
  resume more bad_magic c = (ok tt, extend more c)
  resume more (bad_length n) c = (ok tt, extend more c)
  resume more (message msg left) c = (ok tt, extend more c)

  abbrev pub rejoin : Bytes → Result (Unit {0}) × Client S → Result (Unit {0}) × Client S
  rejoin more (ok _, c) = resume more (next_message c.tcp.buffer) c
  rejoin more (raised e, c) = (raised e, extend more c)

  process_message-extend :
      (msg more : Bytes) (c : Client S)
      → process_message msg (extend more c)
        ≡ ((process_message msg c).0, extend more (process_message msg c).1)
  unfolding process_message
  process_message-extend msg more c = ground arith

  after_message :
      (more : Bytes) (r : Result (Unit {0})) (c : Client S)
      → process_buffer (extend more c) ≡ rejoin more (process_buffer c)
      → continue r (λ _. process_buffer) (extend more c)
        ≡ rejoin more (continue r (λ _. process_buffer) c)
  after_message more (ok _) c ih = ih
  after_message more (raised e) c ih = refl

  module _ (more : Bytes) (c : Client S) where
    extend_scan :
        ((c' : Client S)
          → length c'.tcp.buffer < length c.tcp.buffer
          → process_buffer (extend more c') ≡ rejoin more (process_buffer c'))
        → (s : Scan) → next_message c.tcp.buffer ≡ s
        → process_buffer (extend more c) ≡ rejoin more (process_buffer c)
    unfolding refuse
    extend_scan ih incomplete e = rw (process_buffer-incomplete c e, e)
    extend_scan ih bad_magic e = rw (
      process_buffer-bad_magic c e,
      e,
      process_buffer-bad_magic (extend more c) (next_message-append_bad_magic c.tcp.buffer more e),
    )
    extend_scan ih (bad_length n) e = rw (
      process_buffer-bad_length c n e,
      e,
      process_buffer-bad_length (extend more c) n
          (next_message-append_bad_length c.tcp.buffer more n e),
    )
    extend_scan ih (message msg left) e =
        let c1 = with_buffer left c in
        let shorter = next_message_shrinks c.tcp.buffer msg left e in
        rw
          (
            process_buffer-message c msg left e,
            process_buffer-message (extend more c) msg (left ++ more)
                (next_message-append c.tcp.buffer more msg left e),
            process_message-extend msg more c1,
          )
          (after_message more (process_message msg c1).0 (process_message msg c1).1
            (ih (process_message msg c1).1 (rw (tcp-process_message msg c1) (omega arith))))

  extend_rounds :
      (n : ℕ) (more : Bytes) (c : Client S)
      → length c.tcp.buffer < n
      → process_buffer (extend more c) ≡ rejoin more (process_buffer c)
  extend_rounds zero more c h = absurd (omega arith)
  extend_rounds (suc n) more c h =
      extend_scan more c (λ c' shorter. extend_rounds n more c' (omega arith))
        (next_message c.tcp.buffer) refl

  -- To process a buffer with more bytes behind it is to process the buffer and then, if that
  -- run ended waiting for more, to process what it left with the bytes behind it; if it ended
  -- otherwise, the bytes stay in the buffer.
  pub process_buffer-extend :
      (more : Bytes) (c : Client S)
      → process_buffer (extend more c) ≡ rejoin more (process_buffer c)
  process_buffer-extend more c = extend_rounds (suc (length c.tcp.buffer)) more c (omega arith)
