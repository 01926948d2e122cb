-- ===== src/Tcp/Final.antt =====
-- tcpclient.py, `disconnect`: it is final, whatever is called afterwards.
use knot_link_sdk.Base.{ℕ, ◌≡◌, refl, ap, ◌∙◌, inl, inr, true, false, List, [], ◌∷◌, ◌++◌}
use knot_link_sdk.Wire.{Bytes}
use knot_link_sdk.Tcp.{TcpClient, Client, connect_to_server, disconnect}
use knot_link_sdk.Tcp.Invariant.{
  IsValid, start_heart_beat-off, send_heart_beat-off, named, connect_to_server_lem,
  connected-disconnect, socket-disconnect, running-disconnect, idle-disconnect,
}
use knot_link_sdk.Tcp.Sending.{send_data-off}
use knot_link_sdk.Tcp.Receive.{receive_data-off}
use knot_link_sdk.Tcp.Calls.{
  Step, connecting, registering, starting, beating, sending, firing, reading, leaving, Reach, here,
  next, with_tcp,
}

-- A client that has been disconnected, and has sent `sent`.
pub record IsFinal {S : Type 0} (sent : Bytes) (host : S) (c : Client S) : Type 0 where
  pub off : c.tcp.connected ≡ false
  pub shut : c.tcp.tcp_socket.closed ≡ true
  pub idle : c.tcp.running ≡ []
  pub sent_then : c.tcp.tcp_socket.sent ≡ sent
  pub host_then : c.host ≡ host

no_timer :
    (timer : ℕ) (earlier later running : List ℕ)
    → running ≡ []
    → running ≡ earlier ++ timer ∷ later
    → ⊥
no_timer timer [] later running e p = cc
no_timer timer (x ∷ earlier) later running e p = cc

module _ {S : Type 0} where
  connect_fails :
      (ip : Bytes) (port : ℕ) (t : TcpClient S)
      → t.tcp_socket.closed ≡ true
      → (connect_to_server ip port t).1 ≡ named ip port t
  connect_fails ip port t shut = elim (connect_to_server_lem ip port t) [
    | inl e ↦ ap (λ p. p.1) e
    | inr ((up, _, _), _) ↦ cc
  ]

  Step-IsFinal :
      {c d : Client S} (sent : Bytes) (host : S)
      → Step c d
      → IsFinal sent host c
      → IsFinal sent host d
  Step-IsFinal {c} sent host (connecting ip port) f =
      rw (connect_fails ip port c.tcp f.shut) (record {
        off = f.off;
        shut = f.shut;
        idle = f.idle;
        sent_then = f.sent_then;
        host_then = f.host_then;
      })
  Step-IsFinal sent host (registering callback) f = record {
    off = f.off;
    shut = f.shut;
    idle = f.idle;
    sent_then = f.sent_then;
    host_then = f.host_then;
  }
  Step-IsFinal {c} sent host starting f = rw (start_heart_beat-off c.tcp f.off) f
  Step-IsFinal {c} sent host beating f = rw (send_heart_beat-off c.tcp f.off) f
  Step-IsFinal {c} sent host (sending data_) f = rw (send_data-off data_ c.tcp f.off) f
  Step-IsFinal {c} sent host (firing timer earlier later e) f =
      absurd (no_timer timer earlier later c.tcp.running f.idle e)
  Step-IsFinal {c} sent host (reading event) f = rw (receive_data-off (event ∷ []) c f.off) f
  Step-IsFinal {c} sent host leaving f = record {
    off = connected-disconnect c.tcp;
    shut = ap (λ s. s.closed) (socket-disconnect c.tcp);
    idle = idle-disconnect c.tcp f.idle;
    sent_then = ap (λ s. s.sent) (socket-disconnect c.tcp) ∙ f.sent_then;
    host_then = f.host_then;
  }

  Reach-IsFinal :
      {c d : Client S} (sent : Bytes) (host : S)
      → Reach c d
      → IsFinal sent host c
      → IsFinal sent host d
  Reach-IsFinal sent host here f = f
  Reach-IsFinal sent host (next r step) f =
      Step-IsFinal sent host step (Reach-IsFinal sent host r f)

  -- If the client was valid, then after `disconnect` nothing more is sent, no callback changes
  -- its object, no timer runs, the socket is closed and the client is not connected, after any
  -- sequence of calls and events.
  pub disconnect-IsFinal :
      {c d : Client S}
      → IsValid c.tcp
      → Reach (with_tcp (disconnect c.tcp) c) d
      → IsFinal c.tcp.tcp_socket.sent c.host d
  disconnect-IsFinal {c} v r = Reach-IsFinal c.tcp.tcp_socket.sent c.host r (record {
    off = connected-disconnect c.tcp;
    shut = ap (λ s. s.closed) (socket-disconnect c.tcp);
    idle = running-disconnect c.tcp v;
    sent_then = ap (λ s. s.sent) (socket-disconnect c.tcp);
    host_then = refl;
  })
