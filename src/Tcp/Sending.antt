-- ===== src/Tcp/Sending.antt =====
-- tcpclient.py, `send_data`: its outcomes, and the stream that the socket has taken.
use knot_link_sdk.Base.{
  ℕ, ◌≤◌, ◌<◌, ◌≡◌, refl, ap, inl, inr, true, false, Option, none, some, List, [], ◌∷◌, ◌++◌, arith,
  ltb, length, take, Bool-cases,
}
use knot_link_sdk.Exec.{value_error, Result, ok, raised}
use knot_link_sdk.Wire.{Bytes, max_msg_size, frame}
use knot_link_sdk.Tcp.{TcpClient, send_data, write_with_length_prefix}
use knot_link_sdk.Tcp.Net.{sendall}

module _ {S : Type 0} where
  -- The socket has taken these bytes more, and its coming calls meet `faults`.
  abbrev pub taken : TcpClient S → Bytes → List (Option ℕ) → TcpClient S
  taken t bytes faults = record t {
    tcp_socket = record t.tcp_socket { sent = t.tcp_socket.sent ++ bytes; faults = faults };
  }

  -- The outcomes of `send_data` on a connected client.
  pub data Sent (data_ : Bytes) (t : TcpClient S) (r : Result (Unit {0})) (t' : TcpClient S)
      : Type 0 where
    -- `ValueError`, and nothing has changed
    too_long : max_msg_size < length data_ → r ≡ raised value_error → t' ≡ t → Sent data_ t r t'
    -- the whole frame has gone out
    whole :
        (faults : List (Option ℕ))
        → length data_ ≤ max_msg_size
        → r ≡ ok tt
        → t' ≡ taken t (frame data_) faults
        → Sent data_ t r t'
    -- the socket failed after a part of the frame
    broken :
        (n : ℕ) (faults : List (Option ℕ))
        → length data_ ≤ max_msg_size
        → r ≡ ok tt
        → t' ≡ record (taken t (take n (frame data_)) faults) { connected = false }
        → Sent data_ t r t'
    -- the socket had been closed
    dead :
        t.tcp_socket.closed ≡ true
        → length data_ ≤ max_msg_size
        → r ≡ ok tt
        → t' ≡ record t { connected = false }
        → Sent data_ t r t'

  module _ (data_ : Bytes) (t : TcpClient S) where
    abbrev result : Result (Unit {0}) × TcpClient S
    result = send_data data_ t

    -- A client that is not connected sends nothing, and raises nothing.
    pub send_data-off : t.connected ≡ false → send_data data_ t ≡ (ok tt, t)
    unfolding send_data write_with_length_prefix
    send_data-off off = ground arith

    send_long :
        t.connected ≡ true
        → ltb max_msg_size (length data_) ≡ true
        → send_data data_ t ≡ (raised value_error, t)
    unfolding send_data write_with_length_prefix
    send_long on long = ground arith

    send_dead :
        t.connected ≡ true
        → ltb max_msg_size (length data_) ≡ false
        → t.tcp_socket.closed ≡ true
        → send_data data_ t ≡ (ok tt, record t { connected = false })
    unfolding send_data write_with_length_prefix sendall
    send_dead on fits shut = ground arith

    send_open :
        t.connected ≡ true
        → ltb max_msg_size (length data_) ≡ false
        → t.tcp_socket.closed ≡ false
        → (faults : List (Option ℕ)) → t.tcp_socket.faults ≡ faults
        → Sent data_ t (send_data data_ t).0 (send_data data_ t).1
    unfolding send_data write_with_length_prefix sendall
    send_open on fits shut [] e = whole [] (ground arith) (ground arith) (ground arith)
    send_open on fits shut (none ∷ faults) e =
        whole faults (ground arith) (ground arith) (ground arith)
    send_open on fits shut (some n ∷ faults) e =
        broken n faults (ground arith) (ground arith) (ground arith)

    -- On a connected client `send_data` ends in one of four ways: ValueError with nothing
    -- changed, for more than 16 MB; the whole frame sent; a part of the frame sent and the
    -- client disconnected, without an exception; or nothing sent and the client disconnected,
    -- where the socket was closed.
    pub send_data-Sent :
        t.connected ≡ true → Sent data_ t (send_data data_ t).0 (send_data data_ t).1
    send_data-Sent on = elim (Bool-cases (ltb max_msg_size (length data_))) [
      | inl long ↦
          let e = send_long on long in too_long (ground arith) (ap (λ p. p.0) e) (ap (λ p. p.1) e)
      | inr fits ↦ elim (Bool-cases t.tcp_socket.closed) [
        | inl shut ↦
            let e = send_dead on fits shut in
            dead shut (ground arith) (ap (λ p. p.0) e) (ap (λ p. p.1) e)
        | inr up ↦ send_open on fits up t.tcp_socket.faults refl
      ]
    ]

Sent-returns :
    {S : Type 0} (data_ : Bytes) (t : TcpClient S) (r : Result (Unit {0})) (t' : TcpClient S)
    → length data_ ≤ max_msg_size
    → Sent data_ t r t'
    → r ≡ ok tt
Sent-returns data_ t r t' fits (too_long long _ _) = absurd (omega arith)
Sent-returns data_ t r t' fits (whole _ _ e _) = e
Sent-returns data_ t r t' fits (broken _ _ _ e _) = e
Sent-returns data_ t r t' fits (dead _ _ e _) = e

-- A message within the limit raises nothing, whatever the socket meets.
pub send_data_returns :
    {S : Type 0} (data_ : Bytes) (t : TcpClient S)
    → length data_ ≤ max_msg_size
    → (send_data data_ t).0 ≡ ok tt
send_data_returns data_ t fits = elim (Bool-cases t.connected) [
  | inl on ↦ Sent-returns data_ t _ _ fits (send_data-Sent data_ t on)
  | inr off ↦ ap (λ p. p.0) (send_data-off data_ t off)
]
