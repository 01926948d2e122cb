-- ===== src/Tcp/Writers.antt =====
-- tcpclient.py, `_write_with_length_prefix` in two threads, such as a heartbeat's and the program's. It calls
-- `sendall` without the lock, and `sendall` hands its bytes to the system in parts, between which the other
-- thread may do the same.
pub mod Order
pub mod Torn
use knot_link_sdk.Base.{ℕ, List, [], ◌∷◌, ◌++◌, take, drop}
use knot_link_sdk.Wire.{Bytes, frame}

-- What the socket has taken, and what each thread has still to send.
pub record Writers : Type 0 where
  pub sent : Bytes
  pub first : Bytes
  pub second : Bytes

-- Both threads have built the frame of their message, `prefix + data`.
abbrev pub writing_both : Bytes → Bytes → Bytes → Writers
writing_both sent data_ other = record { sent = sent; first = frame data_; second = frame other }

-- The next call of the system takes at most so many bytes of one thread.
pub data Part : Type 0 where
  first_sends second_sends : ℕ → Part

abbrev pub send_part : Part → Writers → Writers
send_part (first_sends n) w = record w { sent = w.sent ++ take n w.first; first = drop n w.first }
send_part (second_sends n) w = record w {
  sent = w.sent ++ take n w.second;
  second = drop n w.second;
}

abbrev pub send_parts : List Part → Writers → Writers
send_parts [] w = w
send_parts (part ∷ parts) w = send_parts parts (send_part part w)
