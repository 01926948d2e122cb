-- ===== src/Tcp.antt =====
-- knotlink-sdk-python/knotlink/knotlink/tcpclient.py: the state of a TcpClient and its operations.
-- The laws are in the modules below this one.
pub mod Net
pub mod Rounds
pub mod Frames
pub mod Refinement
pub mod Chunks
pub mod Endings
pub mod Receive
pub mod Delivery
pub mod Returns
pub mod Raises
pub mod Transfer
pub mod Splits
pub mod Hosts
pub mod Race
pub mod Writers
pub mod Reentrant
pub mod Memory
pub mod Failures
pub mod Sending
pub mod Streams
pub mod Invariant
pub mod Effects
pub mod Calls
pub mod Final
pub mod Soundness
pub mod Starting
use knot_link_sdk.Base.{
  ℕ, zero, suc, Bool, true, false, Option, none, some, List, [], ◌∷◌, ◌++◌, ltb, ◌==◌,
  if◌then◌else◌, seq_eq, length,
}
use knot_link_sdk.Exec.{
  Exc, value_error, os_error, is_socket_error, Result, ok, raised, Exec, pure, raise, ◌>>=◌, ◌>>◌,
  catch,
}
use knot_link_sdk.Wire.{
  Bytes, max_msg_size, heartbeat, heartbeat_response, frame, Scan, incomplete, bad_magic,
  bad_length, message, next_message,
}
use Net.{Socket, sendall, close, connect}

abbrev pub Callback : Type 0 → Type 0
Callback S = Bytes → Exec S (Unit {0})

-- `S` is the state of the object that registers the callback. A running timer has a number:
-- `heart_beat_timer` names the last one made, and `running` those that have neither fired nor been
-- cancelled. `connected` is `_connected_event`.
pub record TcpClient (S : Type 0) : Type 0 where
  pub tcp_socket : Socket
  pub heart_beat_timer : Option ℕ
  pub running : List ℕ
  pub timers_made : ℕ
  pub connected : Bool
  pub received_data_callback : Option (Callback S)
  pub buffer : Bytes
  pub server : Option (Bytes × ℕ)

-- The client together with the state that its callback works on.
pub record Client (S : Type 0) : Type 0 where
  pub tcp : TcpClient S
  pub host : S

-- What the socket brings to the thread in `recv`: bytes (none at the end of the stream), an error, or
-- an error because another thread has called `disconnect` in the meantime.
pub data Recv : Type 0 where
  chunk : Bytes → Recv
  failure interrupted : Recv

-- Whether a round of the loop of `receive_data` ends in `break`.
pub data Flow : Type 0 where
  go_on stop : Flow

-- The identity of a timer against `heart_beat_timer.cancel()`.
without : ℕ → List ℕ → List ℕ
without n [] = []
without n (m ∷ ms) = let rest = without n ms in if m == n then rest else m ∷ rest

-- `__init__`; `socket` is the new socket, with what its calls will meet
abbrev pub init : {S : Type 0} → Socket → TcpClient S
init socket = record {
  tcp_socket = socket;
  heart_beat_timer = none;
  running = [];
  timers_made = 0;
  connected = false;
  received_data_callback = none;
  buffer = [];
  server = none;
}

module _ {S : Type 0} where
  -- An operation of the socket, as one of the client.
  abbrev pub on_socket : {A : Type 0} → Exec Socket A → Exec (TcpClient S) A
  on_socket m t = let (r, s) = m t.tcp_socket in (r, record t { tcp_socket = s })

  pub start_heart_beat : TcpClient S → TcpClient S
  start_heart_beat t =
      if t.connected
      then record t {
        heart_beat_timer = some t.timers_made;
        running = t.timers_made ∷ t.running;
        timers_made = suc t.timers_made;
      }
      else t

  pub connect_to_server : Bytes → ℕ → Exec (TcpClient S) (Unit {0})
  connect_to_server ip port t =
      catch (on_socket connect >> λ t'. (ok tt, start_heart_beat (record t' { connected = true })))
        (λ e. if is_socket_error e then pure tt else raise e)
        (record t { server = some (ip, port) })

  unfoldable pub write_with_length_prefix : Bytes → Exec (TcpClient S) (Unit {0})
  write_with_length_prefix data_ t =
      if t.connected
      then catch
          (if ltb max_msg_size (length data_)
            then raise value_error
            else on_socket (sendall (frame data_)))
          (λ e t'.
            if is_socket_error e then (ok tt, record t' { connected = false }) else (raised e, t'))
          t
      else (ok tt, t)

  unfoldable pub send_data : Bytes → Exec (TcpClient S) (Unit {0})
  send_data = write_with_length_prefix

  pub send_heart_beat : Exec (TcpClient S) (Unit {0})
  send_heart_beat t =
      if t.connected
      then (write_with_length_prefix heartbeat >> λ t'. (ok tt, start_heart_beat t')) t
      else (ok tt, t)

  pub cancel_timer : Option ℕ → TcpClient S → TcpClient S
  unfolding without
  cancel_timer none t = t
  cancel_timer (some timer) t = record t {
    heart_beat_timer = none;
    running = without timer t.running;
  }

  -- A timer fires: it is not running any more, and its function is `send_heart_beat`.
  pub fire : ℕ → Exec (TcpClient S) (Unit {0})
  unfolding without
  fire timer t = send_heart_beat (record t { running = without timer t.running })

  -- `disconnect`: the current timer is cancelled, the socket closed.
  pub disconnect : TcpClient S → TcpClient S
  disconnect t =
      let t' = record t { connected = false } in
      let t'' = cancel_timer t'.heart_beat_timer t' in
      record t'' { tcp_socket = close t''.tcp_socket }

  unfoldable pub handle_received_data : Bytes → Exec (Client S) (Unit {0})
  handle_received_data data_ c = elim c.tcp.received_data_callback [
    | none ↦ (ok tt, c)
    | some callback ↦ let (r, host') = callback data_ c.host in (r, record c { host = host' })
  ]

  -- The branches of `_process_buffer` that disconnect.
  unfoldable pub refuse : Client S → Client S
  refuse c = record c {
    tcp = record c.tcp { connected = false; tcp_socket = close c.tcp.tcp_socket };
  }

  abbrev pub with_buffer : Bytes → Client S → Client S
  with_buffer b c = record c { tcp = record c.tcp { buffer = b } }

  unfoldable pub process_message : Bytes → Exec (Client S) (Unit {0})
  unfolding handle_received_data
  process_message msg = if seq_eq msg heartbeat_response then pure tt else handle_received_data msg

  -- One round of the loop of `_process_buffer`; `again` is the rest of the loop.
  unfoldable pub process_round : Exec (Client S) (Unit {0}) → Scan → Exec (Client S) (Unit {0})
  process_round again incomplete c = (ok tt, c)
  process_round again bad_magic c = (ok tt, refuse c)
  process_round again (bad_length len) c = (ok tt, refuse c)
  process_round again (message msg left) c = (process_message msg >> again) (with_buffer left c)

  -- With no round left the loop stops: `process_buffer_lem` says that this does not happen.
  unfoldable pub process_rounds : ℕ → Exec (Client S) (Unit {0})
  process_rounds zero c = (ok tt, c)
  process_rounds (suc rounds) c =
      process_round (process_rounds rounds) (next_message c.tcp.buffer) c

  -- `_process_buffer`: each round takes a byte at least.
  unfoldable pub process_buffer : Exec (Client S) (Unit {0})
  process_buffer c = process_rounds (suc (length c.tcp.buffer)) c

  abbrev pub set_connected : Bool → Client S → Client S
  set_connected b c = record c { tcp = record c.tcp { connected = b } }

  -- The body of the loop of `receive_data`: what is read from the socket, and then `break` or not.
  unfoldable pub receive_chunk : Recv → Exec (Client S) Flow
  receive_chunk (chunk []) c = (ok stop, set_connected false c)
  receive_chunk (chunk bytes) c =
      (process_buffer >> pure go_on) (with_buffer (c.tcp.buffer ++ bytes) c)
  receive_chunk failure c = (raised os_error, c)
  receive_chunk interrupted c = (raised os_error, record c { tcp = disconnect c.tcp })

  -- `except socket.error as e`
  unfoldable pub receive_error : Exc → Exec (Client S) Flow
  receive_error e c =
      if is_socket_error e
      then (if c.tcp.connected then (ok stop, set_connected false c) else (ok stop, c))
      else (raised e, c)

  unfoldable pub receive_next : Exec (Client S) (Unit {0}) → Flow → Exec (Client S) (Unit {0})
  receive_next again stop = pure tt
  receive_next again go_on = again

  -- `receive_data`, over what the socket brings. When that is at an end the thread waits in `recv`,
  -- or it has left the loop.
  unfoldable pub receive_data : List Recv → Exec (Client S) (Unit {0})
  receive_data [] c = (ok tt, c)
  receive_data (event ∷ events) c =
      if c.tcp.connected
      then (catch (receive_chunk event) receive_error >>= receive_next (receive_data events)) c
      else (ok tt, c)
