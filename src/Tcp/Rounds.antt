-- ===== src/Tcp/Rounds.antt =====
-- tcpclient.py, `_process_buffer`: the rounds of its loop, and that they come to an end.
use knot_link_sdk.Base.{ℕ, zero, suc, ◌<◌, ◌≡◌, refl, ap, ◌∙◌, ◌⊎◌, inl, inr, arith, length}
use knot_link_sdk.Exec.{Result, ok, raised, Exec, continue, ◌>>◌}
use knot_link_sdk.Wire.{Bytes, Scan, incomplete, bad_magic, bad_length, message, next_message}
use knot_link_sdk.Wire.Scanning.{next_message_shrinks}
use knot_link_sdk.Tcp.{
  Client, process_message, refuse, process_round, process_rounds, process_buffer, with_buffer,
}

module _ {S : Type 0} where
  -- The callback works on its own object: the client is as it was.
  pub tcp-process_message : (msg : Bytes) (c : Client S) → (process_message msg c).1.tcp ≡ c.tcp
  unfolding process_message
  tcp-process_message msg c = ground arith

  continue_again :
      (r : Result (Unit {0})) (f g : Exec (Client S) (Unit {0})) (c : Client S)
      → f c ≡ g c
      → continue r (λ _. f) c ≡ continue r (λ _. g) c
  continue_again (ok _) f g c e = e
  continue_again (raised x) f g c e = refl

  -- Two continuations that agree where the buffer is `left` agree after a message.
  process_message-again :
      (msg left : Bytes) (f g : Exec (Client S) (Unit {0}))
      → ((c : Client S) → c.tcp.buffer ≡ left → f c ≡ g c)
      → (c : Client S) → c.tcp.buffer ≡ left
      → (process_message msg >> f) c ≡ (process_message msg >> g) c
  process_message-again msg left f g same c e =
      continue_again (process_message msg c).0 f g (process_message msg c).1
        (same (process_message msg c).1 (ap (λ t. t.buffer) (tcp-process_message msg c) ∙ e))

  scan_cases :
      (s : Scan)
      → ((msg left : Bytes) × (s ≡ message msg left))
        ⊎ ((f g : Exec (Client S) (Unit {0})) → process_round f s ≡ process_round g s)
  unfolding process_round
  scan_cases incomplete = inr (λ f g. refl)
  scan_cases bad_magic = inr (λ f g. refl)
  scan_cases (bad_length n) = inr (λ f g. refl)
  scan_cases (message msg left) = inl (msg, left, refl)

  enough_rounds :
      (n m : ℕ) (c : Client S)
      → length c.tcp.buffer < n
      → length c.tcp.buffer < m
      → process_rounds n c ≡ process_rounds m c
  unfolding process_rounds process_round
  enough_rounds zero m c hn hm = absurd (omega arith)
  enough_rounds (suc n) zero c hn hm = absurd (omega arith)
  enough_rounds (suc n) (suc m) c hn hm = elim (scan_cases (next_message c.tcp.buffer)) [
    | inl (msg, left, e) ↦ rw e (
        process_message-again msg left (process_rounds n) (process_rounds m)
          (λ c' at_left.
            let shorter = next_message_shrinks c.tcp.buffer msg left e in
            enough_rounds n m c' (rw at_left (omega arith)) (rw at_left (omega arith)))
          (with_buffer left c) refl)
    | inr same ↦ ap (λ f. f c) (same (process_rounds n) (process_rounds m))
  ]

  -- The loop of `_process_buffer` is one round and then, if that took a message whose callback
  -- returned, the whole loop again: the rounds that the model allows never run out.
  pub process_buffer_lem :
      (c : Client S) → process_buffer c ≡ process_round process_buffer (next_message c.tcp.buffer) c
  unfolding process_buffer process_rounds process_round
  process_buffer_lem c = elim (scan_cases (next_message c.tcp.buffer)) [
    | inl (msg, left, e) ↦ rw e (
        process_message-again msg left (process_rounds (length c.tcp.buffer)) process_buffer
          (λ c' at_left.
            let shorter = next_message_shrinks c.tcp.buffer msg left e in
            enough_rounds (length c.tcp.buffer) (suc (length c'.tcp.buffer)) c'
              (rw at_left (omega arith)) (omega arith))
          (with_buffer left c) refl)
    | inr same ↦ ap (λ f. f c) (same (process_rounds (length c.tcp.buffer)) process_buffer)
  ]

  -- The three kinds of a round, by what is at the head of the buffer.
  pub process_buffer-message :
      (c : Client S) (msg left : Bytes)
      → next_message c.tcp.buffer ≡ message msg left
      → process_buffer c ≡ (process_message msg >> process_buffer) (with_buffer left c)
  unfolding process_round
  process_buffer-message c msg left e = process_buffer_lem c ∙ (rw e)

  pub process_buffer-incomplete :
      (c : Client S) → next_message c.tcp.buffer ≡ incomplete → process_buffer c ≡ (ok tt, c)
  unfolding process_round
  process_buffer-incomplete c e = process_buffer_lem c ∙ (rw e)

  pub process_buffer-bad_magic :
      (c : Client S) → next_message c.tcp.buffer ≡ bad_magic → process_buffer c ≡ (ok tt, refuse c)
  unfolding process_round
  process_buffer-bad_magic c e = process_buffer_lem c ∙ (rw e)

  pub process_buffer-bad_length :
      (c : Client S) (len : ℕ)
      → next_message c.tcp.buffer ≡ bad_length len
      → process_buffer c ≡ (ok tt, refuse c)
  unfolding process_round
  process_buffer-bad_length c len e = process_buffer_lem c ∙ (rw e)
