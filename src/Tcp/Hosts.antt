-- ===== src/Tcp/Hosts.antt =====
-- tcpclient.py, `receive_data`: an invariant of the callback's object that the callback keeps, also when it
-- raises, holds after any events.
use knot_link_sdk.Base.{
  ℕ, zero, suc, ◌≡◌, refl, true, false, inl, inr, some, List, [], ◌∷◌, ◌++◌, arith, length, seq_eq,
  if◌then◌else◌, Bool, Bool-cases,
}
use knot_link_sdk.Exec.{is_socket_error, Result, ok, raised, Exec, continue, handle, pure}
use knot_link_sdk.Wire.{
  Bytes, heartbeat_response, Scan, incomplete, bad_magic, bad_length, message, next_message,
}
use knot_link_sdk.Tcp.{
  Callback, Client, Recv, chunk, failure, interrupted, Flow, go_on, stop, refuse, with_buffer,
  handle_received_data, process_message, process_round, process_rounds, process_buffer,
  receive_chunk, receive_error, receive_next, receive_data, disconnect, cancel_timer,
}

module _ {S : Type 0} (P : S → Type 0) (callback : Callback S)
    (keeps : (msg : Bytes) (host : S) → P host → P (callback msg host).1) where
  -- The callback is registered, and its object satisfies the invariant.
  pub record Hosts (c : Client S) : Type 0 where
    pub set : c.tcp.received_data_callback ≡ some callback
    pub holds : P c.host

  continue-Hosts :
      {A B : Type 0} (r : Result A) (f : A → Exec (Client S) B) (c : Client S)
      → Hosts c
      → ((a : A) (d : Client S) → Hosts d → Hosts (f a d).1)
      → Hosts (continue r f c).1
  continue-Hosts (ok a) f c h go = go a c h
  continue-Hosts (raised e) f c h go = h

  process_message-Hosts : (msg : Bytes) (c : Client S) → Hosts c → Hosts (process_message msg c).1
  unfolding process_message handle_received_data
  process_message-Hosts msg c h = elim (Bool-cases (seq_eq msg heartbeat_response)) [
    | inl e ↦ rw e h
    | inr e ↦ rw (e, h.set) (record { set = refl; holds = keeps msg c.host h.holds })
  ]

  process_round-Hosts :
      (again : Exec (Client S) (Unit {0}))
      → ((d : Client S) → Hosts d → Hosts (again d).1)
      → (s : Scan) (c : Client S) → Hosts c
      → Hosts (process_round again s c).1
  unfolding process_round refuse
  process_round-Hosts again go incomplete c h = h
  process_round-Hosts again go bad_magic c h = record { set = h.set; holds = h.holds }
  process_round-Hosts again go (bad_length n) c h = record { set = h.set; holds = h.holds }
  process_round-Hosts again go (message msg left) c h =
      let d = process_message msg (with_buffer left c) in
      continue-Hosts d.0 (λ _. again) d.1
        (process_message-Hosts msg (with_buffer left c) (record { set = h.set; holds = h.holds }))
        (λ _ e he. go e he)

  process_rounds-Hosts : (n : ℕ) (c : Client S) → Hosts c → Hosts (process_rounds n c).1
  unfolding process_rounds
  process_rounds-Hosts zero c h = h
  process_rounds-Hosts (suc n) c h =
      process_round-Hosts (process_rounds n) (process_rounds-Hosts n) (next_message c.tcp.buffer) c
        h

  disconnect-Hosts : (c : Client S) → Hosts c → Hosts (record c { tcp = disconnect c.tcp })
  unfolding disconnect cancel_timer
  disconnect-Hosts c h = record { set = ground (arith, h.set); holds = h.holds }

  receive_chunk-Hosts : (event : Recv) (c : Client S) → Hosts c → Hosts (receive_chunk event c).1
  unfolding receive_chunk process_buffer
  receive_chunk-Hosts (chunk []) c h = record { set = h.set; holds = h.holds }
  receive_chunk-Hosts (chunk (b ∷ bs)) c h =
      let d = with_buffer (c.tcp.buffer ++ b ∷ bs) c in
      let p = process_rounds (suc (length d.tcp.buffer)) d in
      continue-Hosts p.0 (λ _. pure go_on) p.1
        (process_rounds-Hosts (suc (length d.tcp.buffer)) d
          (record { set = h.set; holds = h.holds }))
        (λ _ e he. he)
  receive_chunk-Hosts failure c h = h
  receive_chunk-Hosts interrupted c h = disconnect-Hosts c h

  if-Hosts :
      {A : Type 0} (test : Bool) (p q : Result A × Client S)
      → Hosts p.1
      → Hosts q.1
      → Hosts (if test then p else q).1
  if-Hosts true p q hp hq = hp
  if-Hosts false p q hp hq = hq

  handled-Hosts : (r : Result Flow) (c : Client S) → Hosts c → Hosts (handle r receive_error c).1
  unfolding receive_error
  handled-Hosts (ok f) c h = h
  handled-Hosts (raised e) c h =
      if-Hosts (is_socket_error e) _ _
        (if-Hosts c.tcp.connected _ _ (record { set = h.set; holds = h.holds }) h) h

  next-Hosts :
      (again : Exec (Client S) (Unit {0}))
      → ((d : Client S) → Hosts d → Hosts (again d).1)
      → (flow : Flow) (d : Client S) → Hosts d
      → Hosts (receive_next again flow d).1
  unfolding receive_next
  next-Hosts again go go_on d h = go d h
  next-Hosts again go stop d h = h

  pub receive_data-Hosts :
      (events : List Recv) (c : Client S) → Hosts c → Hosts (receive_data events c).1
  unfolding receive_data
  receive_data-Hosts [] c h = h
  receive_data-Hosts (event ∷ events) c h =
      let p = receive_chunk event c in
      let q = handle p.0 receive_error p.1 in
      if-Hosts c.tcp.connected _ _
        (continue-Hosts q.0 (receive_next (receive_data events)) q.1
          (handled-Hosts p.0 p.1 (receive_chunk-Hosts event c h))
          (next-Hosts (receive_data events) (receive_data-Hosts events)))
        h
