-- ===== src/Tcp/Reentrant.antt =====
-- tcpclient.py, `receive_data` with a callback that may itself call the client's methods: it works on the
-- client with its object, and not, as in the parent module, on its object only.
pub mod Rounds
pub mod Agreement
pub mod Leaving
pub mod Raising
use knot_link_sdk.Base.{ℕ, zero, suc, false, List, [], ◌∷◌, ◌++◌, if◌then◌else◌, seq_eq, length}
use knot_link_sdk.Exec.{os_error, ok, raised, Exec, pure, ◌>>=◌, ◌>>◌, catch}
use knot_link_sdk.Wire.{
  Bytes, heartbeat_response, Scan, incomplete, bad_magic, bad_length, message, next_message,
}
use knot_link_sdk.Tcp.{
  Client, Recv, chunk, failure, interrupted, Flow, go_on, stop, refuse, with_buffer, set_connected,
  receive_error, receive_next, disconnect,
}

-- What `self.received_data_callback(data)` does.
abbrev pub Handler : Type 0 → Type 0
Handler S = Bytes → Exec (Client S) (Unit {0})

module _ {S : Type 0} (handler : Handler S) where
  unfoldable pub process_message_by : Bytes → Exec (Client S) (Unit {0})
  process_message_by msg = if seq_eq msg heartbeat_response then pure tt else handler msg

  unfoldable pub process_round_by : Exec (Client S) (Unit {0}) → Scan → Exec (Client S) (Unit {0})
  process_round_by again incomplete c = (ok tt, c)
  process_round_by again bad_magic c = (ok tt, refuse c)
  process_round_by again (bad_length len) c = (ok tt, refuse c)
  process_round_by again (message msg left) c =
      (process_message_by msg >> again) (with_buffer left c)

  unfoldable pub process_rounds_by : ℕ → Exec (Client S) (Unit {0})
  process_rounds_by zero c = (ok tt, c)
  process_rounds_by (suc rounds) c =
      process_round_by (process_rounds_by rounds) (next_message c.tcp.buffer) c

  -- `_process_buffer`: a round more than the buffer has bytes is enough, as the methods add none.
  unfoldable pub process_buffer_by : Exec (Client S) (Unit {0})
  process_buffer_by c = process_rounds_by (suc (length c.tcp.buffer)) c

  unfoldable pub receive_chunk_by : Recv → Exec (Client S) Flow
  receive_chunk_by (chunk []) c = (ok stop, set_connected false c)
  receive_chunk_by (chunk bytes) c =
      (process_buffer_by >> pure go_on) (with_buffer (c.tcp.buffer ++ bytes) c)
  receive_chunk_by failure c = (raised os_error, c)
  receive_chunk_by interrupted c = (raised os_error, record c { tcp = disconnect c.tcp })

  unfoldable pub receive_data_by : List Recv → Exec (Client S) (Unit {0})
  receive_data_by [] c = (ok tt, c)
  receive_data_by (event ∷ events) c =
      if c.tcp.connected
      then (catch (receive_chunk_by event) receive_error >>= receive_next (receive_data_by events))
          c
      else (ok tt, c)
