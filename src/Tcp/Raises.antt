-- ===== src/Tcp/Raises.antt =====
-- tcpclient.py, `receive_data`: a callback that returns on some messages and raises on the next one.
use knot_link_sdk.Base.{
  ℕ, ◌≡◌, ◌≢◌, refl, ap, ◌∙◌, true, false, not, some, List, [], ◌∷◌, ◌++◌, arith, map, concat, All,
  seq_eq, if◌then◌else◌,
}
use knot_link_sdk.Exec.{Exc, is_socket_error, Result, ok, raised, continue}
use knot_link_sdk.Wire.{Bytes, IsSendable, frame, heartbeat_response}
use knot_link_sdk.Wire.Scanning.{next_message-frame}
use knot_link_sdk.Tcp.{
  Callback, Client, chunk, process_message, handle_received_data, process_buffer, with_buffer,
  receive_data,
}
use knot_link_sdk.Tcp.Rounds.{process_buffer-message}
use knot_link_sdk.Tcp.Frames.{frames, consumed}
use knot_link_sdk.Tcp.Receive.{finish, receive_data-chunk, receive_data-chunks}
use knot_link_sdk.Tcp.Returns.{Returns, drain}

-- The reading thread after an exception that the callback raised, its object being `host` then: a
-- socket error ends it quietly and leaves the client not connected; any other exception escapes, and
-- the client still counts as connected.
pub record IsStopped {S : Type 0} (e : Exc) (host : S) (end : Result (Unit {0}) × Client S)
    : Type 0 where
  pub result : end.0 ≡ (if is_socket_error e then ok tt else raised e)
  pub hosts : end.1.host ≡ host
  pub connection : end.1.tcp.connected ≡ not (is_socket_error e)

module _ {S : Type 0} (P : S → Type 0) (Q : Bytes → Type 0) (callback : Callback S)
    (step : Bytes → S → S) (r : Returns P Q callback step) where
  process_message-raises :
      (msg : Bytes) (e : Exc) (host : S) (c : Client S)
      → c.tcp.received_data_callback ≡ some callback
      → seq_eq msg heartbeat_response ≡ false
      → callback msg c.host ≡ (raised e, host)
      → process_message msg c ≡ (raised e, record c { host = host })
  unfolding process_message handle_received_data
  process_message-raises msg e host c set no_beat raises = rw (no_beat, set, raises) refl

  -- What the loop leaves when the callback raises behind `msgs`.
  abbrev pub broken : Exc → S → Bytes → Client S → Result (Unit {0}) × Client S
  broken e host rest c = (raised e, record (with_buffer rest c) { host = host })

  process_buffer-raises :
      (msgs : List Bytes) (msg rest : Bytes) (e : Exc) (host : S) (c : Client S)
      → c.tcp.received_data_callback ≡ some callback
      → P c.host
      → All IsSendable msgs
      → All Q msgs
      → IsSendable msg
      → seq_eq msg heartbeat_response ≡ false
      → callback msg (consumed step msgs c.host) ≡ (raised e, host)
      → process_buffer (with_buffer (frames msgs ++ (frame msg ++ rest)) c) ≡ broken e host rest c
  process_buffer-raises msgs msg rest e host c set h ss qs s no_beat raises =
      let d = record c { host = consumed step msgs c.host } in
      (drain P Q callback step r msgs (frame msg ++ rest) c set h ss qs).0
      ∙ process_buffer-message (with_buffer (frame msg ++ rest) d) msg rest
          (next_message-frame msg rest s)
      ∙ ap (λ x. continue x.0 (λ _. process_buffer) x.1)
          (process_message-raises msg e host (with_buffer rest d) set no_beat raises)

  finish-IsStopped :
      (e : Exc) (host : S) (rest : Bytes) (c : Client S)
      → c.tcp.connected ≡ true
      → IsStopped e host (finish [] (broken e host rest c))
  finish-IsStopped e host rest c on = record {
    result = ground (arith, on);
    hosts = ground (arith, on);
    connection = ground (arith, on);
  }

  pub receive_data-raises :
      (x : ℕ) (xs : Bytes) (chunks msgs : List Bytes) (msg rest : Bytes) (e : Exc) (host : S)
      (c : Client S)
      → c.tcp.connected ≡ true
      → c.tcp.received_data_callback ≡ some callback
      → c.tcp.buffer ≡ []
      → P c.host
      → All (λ piece. piece ≢ []) chunks
      → All IsSendable msgs
      → All Q msgs
      → IsSendable msg
      → seq_eq msg heartbeat_response ≡ false
      → callback msg (consumed step msgs c.host) ≡ (raised e, host)
      → (x ∷ xs) ++ concat chunks ≡ frames msgs ++ (frame msg ++ rest)
      → IsStopped e host (receive_data (chunk (x ∷ xs) ∷ map chunk chunks) c)
  receive_data-raises x xs chunks msgs msg rest e host c on set empty h full ss qs s no_beat raises
        stream =
      let same = receive_data-chunks x xs chunks c on full in
      let whole =
        receive_data-chunk x (xs ++ concat chunks) [] c on
        ∙ ap (λ b. finish [] (process_buffer (with_buffer (b ++ (x ∷ (xs ++ concat chunks))) c)))
            empty
        ∙ ap (λ b. finish [] (process_buffer (with_buffer b c))) stream
        ∙ ap (finish [])
            (process_buffer-raises msgs msg rest e host c set h ss qs s no_beat raises) in
      let stops = finish-IsStopped e host rest c on in
      record {
        result = same.0 ∙ ap (λ p. p.0) whole ∙ stops.result;
        hosts = ap (λ d. d.host) same.1 ∙ ap (λ p. p.1.host) whole ∙ stops.hosts;
        connection =
            ap (λ d. d.tcp.connected) same.1 ∙ ap (λ p. p.1.tcp.connected) whole ∙ stops.connection;
      }
