-- ===== src/Tcp/Failures.antt =====
-- tcpclient.py, `receive_data`: what ends the reading thread, and in which state.
use knot_link_sdk.Base.{◌≡◌, ap, inl, inr, true, false, List, [], ◌∷◌, arith, Bool-cases}
use knot_link_sdk.Exec.{Exc, is_socket_error, Result, ok, raised}
use knot_link_sdk.Tcp.{
  Client, Recv, chunk, failure, interrupted, process_buffer, receive_chunk, receive_error,
  receive_next, receive_data, set_connected, disconnect, cancel_timer,
}
use knot_link_sdk.Tcp.Chunks.{extend}
use knot_link_sdk.Tcp.Endings.{Ends, process_buffer-Ends}
use knot_link_sdk.Tcp.Receive.{finish, receive_data-chunk, receive_data-off}

module _ {S : Type 0} where
  pub connected-disconnect : (c : Client S) → (disconnect c.tcp).connected ≡ false
  unfolding disconnect cancel_timer
  connected-disconnect c = ground arith

  -- On a connected client, the end of the stream and a socket error end the loop with
  -- `connected` false and all else as it was, and an error caused by `disconnect` ends it in
  -- the state that `disconnect` left, in each case without an exception and without reading a
  -- later event.
  pub receive_data-eof :
      (events : List Recv) (c : Client S)
      → c.tcp.connected ≡ true
      → (receive_data (chunk [] ∷ events) c ≡ (ok tt, set_connected false c))
        × (receive_data (failure ∷ events) c ≡ (ok tt, set_connected false c))
        × (receive_data (interrupted ∷ events) c ≡ (ok tt, record c { tcp = disconnect c.tcp }))
  unfolding receive_data receive_chunk receive_error receive_next
  receive_data-eof events c on =
      (ground arith, ground arith, ground (arith, connected-disconnect c))

  -- What the thread lets through, and the state that it leaves behind.
  abbrev pub Escapes : Exc → Client S → Type 0
  Escapes e c = (is_socket_error e ≡ false) × (c.tcp.connected ≡ true)

  finish-Escapes :
      (events : List Recv) (t : Client S) (r : Result (Unit {0})) (c : Client S) (e : Exc)
      (c' : Client S)
      → t.tcp.connected ≡ true
      → Ends t.tcp r c.tcp
      → ((d : Client S) → receive_data events d ≡ (raised e, c') → Escapes e c')
      → finish events (r, c) ≡ (raised e, c')
      → Escapes e c'
  finish-Escapes events t (raised x) c e c' on (same, _) ih eq =
      ground (arith, ap (λ u. u.connected) same)
  finish-Escapes events t (ok _) c e c' on ends ih eq = ih c eq

  Escapes-on :
      (event : Recv) (events : List Recv) (c : Client S) (e : Exc) (c' : Client S)
      → c.tcp.connected ≡ true
      → ((d : Client S) → receive_data events d ≡ (raised e, c') → Escapes e c')
      → receive_data (event ∷ events) c ≡ (raised e, c')
      → Escapes e c'
  Escapes-on (chunk []) events c e c' on ih eq = cc (receive_data-eof events c on).0
  Escapes-on failure events c e c' on ih eq = cc (receive_data-eof events c on).1
  Escapes-on interrupted events c e c' on ih eq = cc (receive_data-eof events c on).2
  Escapes-on (chunk (b ∷ bs)) events c e c' on ih eq =
      let t = extend (b ∷ bs) c in
      finish-Escapes events t (process_buffer t).0 (process_buffer t).1 e c' on
        (process_buffer-Ends t) ih (rw (receive_data-chunk b bs events c on) at eq)

  -- If `receive_data` raises, the exception is no socket error and the client is still marked
  -- as connected.
  pub receive_data-Escapes :
      (events : List Recv) (c : Client S) (e : Exc) (c' : Client S)
      → receive_data events c ≡ (raised e, c')
      → Escapes e c'
  receive_data-Escapes [] c e c' eq = unfold receive_data in cc
  receive_data-Escapes (event ∷ events) c e c' eq = elim (Bool-cases c.tcp.connected) [
    | inr off ↦ cc (receive_data-off (event ∷ events) c off)
    | inl on ↦ Escapes-on event events c e c' on (λ d. receive_data-Escapes events d e c') eq
  ]
