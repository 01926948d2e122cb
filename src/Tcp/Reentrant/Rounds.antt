-- ===== src/Tcp/Reentrant/Rounds.antt =====
-- `_process_buffer` with a callback that calls methods: the rounds of its loop come to an end.
use knot_link_sdk.Base.{
  ℕ, zero, suc, ◌≤◌, ◌<◌, ◌≡◌, refl, ap, ◌∙◌, arith, length, seq_eq, Bool-cases, inl, inr,
}
use knot_link_sdk.Exec.{Result, ok, raised, Exec, continue, ◌>>◌}
use knot_link_sdk.Wire.{
  Bytes, heartbeat_response, Scan, incomplete, bad_magic, bad_length, message, next_message,
}
use knot_link_sdk.Wire.Scanning.{next_message_shrinks}
use knot_link_sdk.Tcp.{Client, with_buffer}
use knot_link_sdk.Tcp.Reentrant.{
  Handler, process_message_by, process_round_by, process_rounds_by, process_buffer_by,
}

-- The callback puts no bytes into the buffer.
pub record AddsNothing {S : Type 0} (handler : Handler S) : Type 0 where
  pub no_more :
      (msg : Bytes) (c : Client S) → length (handler msg c).1.tcp.buffer ≤ length c.tcp.buffer

module _ {S : Type 0} (handler : Handler S) (adds_nothing : AddsNothing handler) where
  message-no_more :
      (msg : Bytes) (c : Client S)
      → length (process_message_by handler msg c).1.tcp.buffer ≤ length c.tcp.buffer
  unfolding process_message_by
  message-no_more msg c = elim (Bool-cases (seq_eq msg heartbeat_response)) [
    | inl e ↦ rw e (omega arith)
    | inr e ↦ rw e (adds_nothing.no_more msg c)
  ]

  again_same :
      (r : Result (Unit {0})) (f g : Exec (Client S) (Unit {0})) (c : Client S)
      → f c ≡ g c
      → continue r (λ _. f) c ≡ continue r (λ _. g) c
  again_same (ok _) f g c e = e
  again_same (raised x) f g c e = refl

  -- Two continuations that agree on short buffers agree after a message.
  round_same :
      (c : Client S) (f g : Exec (Client S) (Unit {0}))
      → ((d : Client S) → length d.tcp.buffer < length c.tcp.buffer → f d ≡ g d)
      → (s : Scan) → next_message c.tcp.buffer ≡ s
      → process_round_by handler f s c ≡ process_round_by handler g s c
  unfolding process_round_by
  round_same c f g same incomplete e = refl
  round_same c f g same bad_magic e = refl
  round_same c f g same (bad_length n) e = refl
  round_same c f g same (message msg left) e =
      let shorter = next_message_shrinks c.tcp.buffer msg left e in
      let d = process_message_by handler msg (with_buffer left c) in
      again_same d.0 f g d.1
        (same d.1 (omega (arith, shorter, message-no_more msg (with_buffer left c))))

  enough_rounds :
      (n m : ℕ) (c : Client S)
      → length c.tcp.buffer < n
      → length c.tcp.buffer < m
      → process_rounds_by handler n c ≡ process_rounds_by handler m c
  unfolding process_rounds_by
  enough_rounds zero m c hn hm = absurd (omega arith)
  enough_rounds (suc n) zero c hn hm = absurd (omega arith)
  enough_rounds (suc n) (suc m) c hn hm =
      round_same c (process_rounds_by handler n) (process_rounds_by handler m)
        (λ d less. enough_rounds n m d (omega arith) (omega arith)) (next_message c.tcp.buffer) refl

  -- The loop is one round and then, if that took a message, the whole loop again.
  pub process_buffer-process_round :
      (c : Client S)
      → process_buffer_by handler c
        ≡ process_round_by handler (process_buffer_by handler) (next_message c.tcp.buffer) c
  unfolding process_buffer_by process_rounds_by
  process_buffer-process_round c =
      round_same c (process_rounds_by handler (length c.tcp.buffer)) (process_buffer_by handler)
        (λ d less.
          enough_rounds (length c.tcp.buffer) (suc (length d.tcp.buffer)) d less (omega arith))
        (next_message c.tcp.buffer) refl

  pub process_buffer-message :
      (c : Client S) (msg left : Bytes)
      → next_message c.tcp.buffer ≡ message msg left
      → process_buffer_by handler c
        ≡ (process_message_by handler msg >> process_buffer_by handler) (with_buffer left c)
  unfolding process_round_by
  process_buffer-message c msg left e =
      process_buffer-process_round c
      ∙ ap (λ s. process_round_by handler (process_buffer_by handler) s c) e

  pub process_buffer-incomplete :
      (c : Client S)
      → next_message c.tcp.buffer ≡ incomplete
      → process_buffer_by handler c ≡ (ok tt, c)
  unfolding process_round_by
  process_buffer-incomplete c e =
      process_buffer-process_round c
      ∙ ap (λ s. process_round_by handler (process_buffer_by handler) s c) e
