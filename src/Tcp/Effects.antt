-- ===== src/Tcp/Effects.antt =====
-- tcpclient.py, `receive_data`: what one event does to the client itself, whatever the callback does.
use knot_link_sdk.Base.{◌≡◌, ap, ◌∙◌, inl, inr, true, false, [], ◌∷◌, arith, Bool-cases}
use knot_link_sdk.Exec.{is_socket_error, Result, ok, raised}
use knot_link_sdk.Wire.{Bytes}
use knot_link_sdk.Tcp.{
  TcpClient, Client, Recv, chunk, failure, interrupted, process_buffer, receive_data, disconnect,
  cancel_timer,
}
use knot_link_sdk.Tcp.Chunks.{extend}
use knot_link_sdk.Tcp.Endings.{Ends, drops_to, refused_at, process_buffer-Ends}
use knot_link_sdk.Tcp.Receive.{finish, receive_data-chunk, receive_data-off}
use knot_link_sdk.Tcp.Failures.{receive_data-eof}

pub data ReadEffect {S : Type 0} (t t' : TcpClient S) : Type 0 where
  kept : (b : Bytes) → t' ≡ drops_to t b → ReadEffect t t'
  lost : (b : Bytes) → t' ≡ record (drops_to t b) { connected = false } → ReadEffect t t'
  refused : (b : Bytes) → t' ≡ refused_at t b → ReadEffect t t'
  left : (b : Bytes) → t' ≡ drops_to (disconnect t) b → ReadEffect t t'

module _ {S : Type 0} where
  finish-effect :
      (t c : Client S) (r : Result (Unit {0}))
      → t.tcp.connected ≡ true
      → Ends t.tcp r c.tcp
      → ReadEffect t.tcp (finish [] (r, c)).1.tcp
  unfolding receive_data
  finish-effect t c (ok _) on (inl (_, same), _) = kept c.tcp.buffer same
  finish-effect t c (ok _) on (inr (_, same), _) = refused c.tcp.buffer same
  finish-effect t c (raised e) on (same, _) = elim (Bool-cases (is_socket_error e)) [
    | inl caught ↦ lost c.tcp.buffer (ground (arith, same))
    | inr through ↦ kept c.tcp.buffer (ground (arith, same))
  ]

  disconnect-extend :
      (c : Client S) (bytes b : Bytes)
      → drops_to (disconnect (extend bytes c).tcp) b ≡ drops_to (disconnect c.tcp) b
  unfolding disconnect cancel_timer
  disconnect-extend c bytes b = ground arith

  -- The bytes that came in are part of the buffer.
  wider :
      (c : Client S) (bytes : Bytes) (t' : TcpClient S)
      → ReadEffect (extend bytes c).tcp t'
      → ReadEffect c.tcp t'
  wider c bytes t' (kept b e) = kept b e
  wider c bytes t' (lost b e) = lost b e
  wider c bytes t' (refused b e) = refused b e
  wider c bytes t' (left b e) = left b (e ∙ disconnect-extend c bytes b)

  effect_on :
      (event : Recv) (c : Client S)
      → c.tcp.connected ≡ true
      → ReadEffect c.tcp (receive_data (event ∷ []) c).1.tcp
  effect_on (chunk []) c on = lost c.tcp.buffer (ap (λ p. p.1.tcp) (receive_data-eof [] c on).0)
  effect_on failure c on = lost c.tcp.buffer (ap (λ p. p.1.tcp) (receive_data-eof [] c on).1)
  effect_on interrupted c on =
      left (disconnect c.tcp).buffer (ap (λ p. p.1.tcp) (receive_data-eof [] c on).2)
  effect_on (chunk (b ∷ bs)) c on =
      let t = extend (b ∷ bs) c in
      let p = process_buffer t in
      rw (receive_data-chunk b bs [] c on)
        (wider c (b ∷ bs) _ (finish-effect t p.1 p.0 on (process_buffer-Ends t)))

  pub receive_data-effect :
      (event : Recv) (c : Client S) → ReadEffect c.tcp (receive_data (event ∷ []) c).1.tcp
  receive_data-effect event c = elim (Bool-cases c.tcp.connected) [
    | inl on ↦ effect_on event c on
    | inr off ↦ kept c.tcp.buffer (ap (λ p. p.1.tcp) (receive_data-off (event ∷ []) c off))
  ]
