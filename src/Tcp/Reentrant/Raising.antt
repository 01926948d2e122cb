-- ===== src/Tcp/Reentrant/Raising.antt =====
-- `receive_data` with a callback that calls methods and raises a socket error, as TimeoutError is one.
use knot_link_sdk.Base.{
  ℕ, ◌≡◌, refl, ap, sym, subst, ◌∙◌, true, false, List, ◌∷◌, ◌++◌, length, seq_eq, if_true,
  Bool-cases, inl, inr,
}
use knot_link_sdk.Exec.{Exc, is_socket_error, Result, ok, raised, Exec, continue, handle}
use knot_link_sdk.Wire.{Bytes, IsSendable, frame, heartbeat_response}
use knot_link_sdk.Wire.Scanning.{next_message-frame}
use knot_link_sdk.Tcp.{Client, Recv, chunk, go_on, with_buffer, receive_error, receive_next}
use knot_link_sdk.Tcp.Reentrant.{
  Handler, process_message_by, process_round_by, process_rounds_by, process_buffer_by,
  receive_chunk_by, receive_data_by,
}

-- The thread has returned and the client is not connected.
pub record IsDown {S : Type 0} (host : S) (end : Result (Unit {0}) × Client S) : Type 0 where
  pub returned : end.0 ≡ ok tt
  pub hosts : end.1.host ≡ host
  pub off : end.1.tcp.connected ≡ false

module _ {S : Type 0} (handler : Handler S) where
  process_message_by-raises :
      (msg : Bytes) (e : Exc) (c d : Client S)
      → seq_eq msg heartbeat_response ≡ false
      → handler msg c ≡ (raised e, d)
      → process_message_by handler msg c ≡ (raised e, d)
  unfolding process_message_by
  process_message_by-raises msg e c d no_beat raises = rw no_beat raises

  process_buffer_by-raises :
      (msg rest : Bytes) (e : Exc) (c d : Client S)
      → IsSendable msg
      → seq_eq msg heartbeat_response ≡ false
      → handler msg (with_buffer rest c) ≡ (raised e, d)
      → process_buffer_by handler (with_buffer (frame msg ++ rest) c) ≡ (raised e, d)
  unfolding process_buffer_by process_rounds_by process_round_by
  process_buffer_by-raises msg rest e c d s no_beat raises =
      let n = length (frame msg ++ rest) in
      ap
        (λ scan.
          process_round_by handler (process_rounds_by handler n) scan
            (with_buffer (frame msg ++ rest) c))
        (next_message-frame msg rest s)
      ∙ ap
          (λ (p : Result (Unit {0}) × Client S).
            continue p.0 (λ _. process_rounds_by handler n) p.1)
          (process_message_by-raises msg e (with_buffer rest c) d no_beat raises)

  stopped :
      (e : Exc) (again : Exec (Client S) (Unit {0})) (d : Client S)
      → is_socket_error e ≡ true
      → IsDown d.host (let (r, d') = receive_error e d in continue r (receive_next again) d')
  unfolding receive_error receive_next
  stopped e again d socket = elim (Bool-cases d.tcp.connected) [
    | inl on ↦ rw (socket, on) (record { returned = refl; hosts = refl; off = refl })
    | inr off ↦ rw (socket, off) (record { returned = refl; hosts = refl; off = refl })
  ]

  -- What follows the loop over the buffer.
  abbrev ended : List Recv → Result (Unit {0}) × Client S → Result (Unit {0}) × Client S
  ended events p =
      let q = continue p.0 (λ _ d. (ok go_on, d)) p.1 in
      let (r, d) = handle q.0 receive_error q.1 in
      continue r (receive_next (receive_data_by handler events)) d

  -- The callback raises a socket error on the first message.
  pub receive_data_by-IsDown :
      (x : ℕ) (xs msg rest : Bytes) (events : List Recv) (e : Exc) (c d : Client S)
      → c.tcp.connected ≡ true
      → c.tcp.buffer ++ x ∷ xs ≡ frame msg ++ rest
      → IsSendable msg
      → seq_eq msg heartbeat_response ≡ false
      → is_socket_error e ≡ true
      → handler msg (with_buffer rest c) ≡ (raised e, d)
      → IsDown d.host (receive_data_by handler (chunk (x ∷ xs) ∷ events) c)
  unfolding receive_data_by receive_chunk_by
  receive_data_by-IsDown x xs msg rest events e c d on stream s no_beat socket raises =
      subst (IsDown d.host)
        (sym (
          if_true _ _ on
          ∙ ap (λ b. ended events (process_buffer_by handler (with_buffer b c))) stream
          ∙ ap (ended events) (process_buffer_by-raises msg rest e c d s no_beat raises)))
        (stopped e (receive_data_by handler events) d socket)
