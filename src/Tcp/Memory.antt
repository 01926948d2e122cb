-- ===== src/Tcp/Memory.antt =====
-- tcpclient.py, `receive_data`: the receive buffer stays bounded.
use knot_link_sdk.Base.{
  ℕ, ◌+◌, ◌≤◌, ◌<◌, ◌≡◌, ap, inl, inr, List, [], ◌∷◌, arith, length, length-append, All, Bool-cases,
}
use knot_link_sdk.Exec.{Result, ok, raised}
use knot_link_sdk.Wire.{header_len, max_msg_size}
use knot_link_sdk.Wire.Kinds.{next_message-incomplete_short}
use knot_link_sdk.Tcp.{
  Client, Recv, chunk, failure, interrupted, process_buffer, receive_chunk, receive_error,
  receive_next, receive_data, disconnect, cancel_timer,
}
use knot_link_sdk.Tcp.Chunks.{extend}
use knot_link_sdk.Tcp.Endings.{Ends, process_buffer-Ends}
use knot_link_sdk.Tcp.Receive.{finish, receive_data-chunk, receive_data-off}

-- `recv(4096)` brings at most 4096 bytes.
abbrev pub recv_size : ℕ
recv_size = 4096

abbrev pub IsRecv : Recv → Type 0
IsRecv (chunk bytes) = length bytes ≤ recv_size
IsRecv failure = Unit
IsRecv interrupted = Unit

-- The longest frame.
abbrev pub frame_limit : ℕ
frame_limit = header_len + max_msg_size

module _ {S : Type 0} where
  buffer-disconnect : (c : Client S) → (disconnect c.tcp).buffer ≡ c.tcp.buffer
  unfolding disconnect cancel_timer
  buffer-disconnect c = ground arith

  -- The events at which the loop ends leave the buffer alone.
  buffer-eof :
      (events : List Recv) (c : Client S)
      → (receive_data (chunk [] ∷ events) c).1.tcp.buffer ≡ c.tcp.buffer
  unfolding receive_data receive_chunk receive_error receive_next
  buffer-eof events c = ground arith

  buffer-failure :
      (events : List Recv) (c : Client S)
      → (receive_data (failure ∷ events) c).1.tcp.buffer ≡ c.tcp.buffer
  unfolding receive_data receive_chunk receive_error receive_next
  buffer-failure events c = ground arith

  buffer-interrupted :
      (events : List Recv) (c : Client S)
      → (receive_data (interrupted ∷ events) c).1.tcp.buffer ≡ c.tcp.buffer
  unfolding receive_data receive_chunk receive_error receive_next
  buffer-interrupted events c = ground (arith, buffer-disconnect c)

  finish_bound :
      (events : List Recv) (t : Client S) (r : Result (Unit {0})) (c : Client S)
      → Ends t.tcp r c.tcp
      → length t.tcp.buffer < frame_limit + recv_size
      → ((c' : Client S)
          → length c'.tcp.buffer < frame_limit
          → length (receive_data events c').1.tcp.buffer < frame_limit + recv_size)
      → length (finish events (r, c)).1.tcp.buffer < frame_limit + recv_size
  finish_bound events t (raised e) c (_, le) h ih = ground arith
  finish_bound events t (ok _) c (inl (waits, _), _) h ih =
      ih c (next_message-incomplete_short c.tcp.buffer waits)
  finish_bound events t (ok _) c (inr (_, same), le) h ih =
      rw (receive_data-off events c (ap (λ u. u.connected) same)) (omega arith)

  -- From a buffer shorter than the longest frame, chunks of at most 4096 bytes never leave a
  -- buffer as long as the longest frame and one chunk together, whatever else happens and
  -- whatever the callback does.
  pub buffer-receive_data :
      (events : List Recv) (c : Client S)
      → length c.tcp.buffer < frame_limit
      → All IsRecv events
      → length (receive_data events c).1.tcp.buffer < frame_limit + recv_size
  buffer-receive_data [] c h _ = unfold receive_data in omega arith
  buffer-receive_data (failure ∷ events) c h _ = rw (buffer-failure events c) (omega arith)
  buffer-receive_data (interrupted ∷ events) c h _ = rw (buffer-interrupted events c) (omega arith)
  buffer-receive_data (chunk [] ∷ events) c h _ = rw (buffer-eof events c) (omega arith)
  buffer-receive_data (chunk (b ∷ bs) ∷ events) c h (small, rest) =
      elim (Bool-cases c.tcp.connected) [
        | inr off ↦ rw (receive_data-off (chunk (b ∷ bs) ∷ events) c off) (omega arith)
        | inl on ↦
            let p = process_buffer (extend (b ∷ bs) c) in
            rw (receive_data-chunk b bs events c on) (
              finish_bound events (extend (b ∷ bs) c) p.0 p.1
                (process_buffer-Ends (extend (b ∷ bs) c))
                (omega (arith, length-append c.tcp.buffer (b ∷ bs)))
                (λ c' short. buffer-receive_data events c' short rest))
      ]
