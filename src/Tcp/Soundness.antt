-- ===== src/Tcp/Soundness.antt =====
-- tcpclient.py: what holds also where the program itself calls `start_heart_beat` or `send_heart_beat` while a
-- timer runs.
use knot_link_sdk.Base.{
  ℕ, ◌≡◌, ◌≢◌, refl, ap, subst, sym, ◌∙◌, inl, inr, true, false, some, [], ◌∷◌, arith, Bool-cases,
}
use knot_link_sdk.Exec.{Result}
use knot_link_sdk.Wire.{Bytes, heartbeat}
use knot_link_sdk.Tcp.{
  TcpClient, Client, connect_to_server, send_data, start_heart_beat, send_heart_beat, fire,
  disconnect, cancel_timer, without,
}
use knot_link_sdk.Tcp.Sending.{Sent, too_long, whole, broken, dead, send_data-Sent, send_data-off}
use knot_link_sdk.Tcp.Streams.{
  IsStream, IsStream-empty, IsStream-off, IsStream-whole, IsStream-broken,
}
use knot_link_sdk.Tcp.Invariant.{
  named, joined_up, connect_to_server_lem, connected-disconnect, socket-disconnect, with_timer,
  start_heart_beat-on, start_heart_beat-off, send_heart_beat-on, send_heart_beat-off,
}
use knot_link_sdk.Tcp.Effects.{ReadEffect, kept, lost, refused, left, receive_data-effect}
use knot_link_sdk.Tcp.Calls.{
  Step, connecting, registering, starting, beating, sending, firing, reading, leaving, Reach, here,
  next,
}

pub record IsSound {S : Type 0} (t : TcpClient S) : Type 0 where
  -- a connected client has a socket that is linked and open
  pub linked : t.connected ≡ true → (t.tcp_socket.linked ≡ true) × (t.tcp_socket.closed ≡ false)
  -- nothing has gone out before the socket is linked
  pub before : t.tcp_socket.linked ≡ false → t.tcp_socket.sent ≡ []
  pub stream : IsStream t.connected t.tcp_socket.sent

module _ {S : Type 0} where
  -- Only the connection and what has gone out matter.
  same_socket :
      (t t' : TcpClient S)
      → t'.connected ≡ t.connected
      → t'.tcp_socket ≡ t.tcp_socket
      → IsSound t
      → IsSound t'
  same_socket t t' e f v = record {
    linked = λ on. rw f (v.linked (sym e ∙ on));
    before = λ new. rw f (v.before (ap (λ s. s.linked) (sym f) ∙ new));
    stream = rw (e, f) v.stream;
  }

  off-IsSound : (t : TcpClient S) → IsSound t → IsSound (record t { connected = false })
  off-IsSound t v = record {
    linked = λ e. cc;
    before = v.before;
    stream = IsStream-off t.connected t.tcp_socket.sent v.stream;
  }

  Sent-IsSound :
      (data_ : Bytes) (t : TcpClient S) (r : Result (Unit {0})) (t' : TcpClient S)
      → t.connected ≡ true
      → IsSound t
      → Sent data_ t r t'
      → IsSound t'
  Sent-IsSound data_ t r t' on v (too_long _ _ same) = subst IsSound (sym same) v
  Sent-IsSound data_ t r t' on v (whole faults fits _ same) = subst IsSound (sym same) (record {
    linked = v.linked;
    before = λ e. cc (v.linked on).0;
    stream = IsStream-whole t.connected t.tcp_socket.sent data_ on v.stream fits;
  })
  Sent-IsSound data_ t r t' on v (broken n faults fits _ same) = subst IsSound (sym same) (record {
    linked = λ e. cc;
    before = λ e. cc (v.linked on).0;
    stream = IsStream-broken t.connected t.tcp_socket.sent data_ on v.stream n;
  })
  Sent-IsSound data_ t r t' on v (dead _ _ _ same) = subst IsSound (sym same) (off-IsSound t v)

  send_data-IsSound : (data_ : Bytes) (t : TcpClient S) → IsSound t → IsSound (send_data data_ t).1
  send_data-IsSound data_ t v = elim (Bool-cases t.connected) [
    | inl on ↦ Sent-IsSound data_ t _ _ on v (send_data-Sent data_ t on)
    | inr off ↦ rw (send_data-off data_ t off) v
  ]

  disconnect-IsSound : (t : TcpClient S) → IsSound t → IsSound (disconnect t)
  disconnect-IsSound t v = record {
    linked = λ e. cc (connected-disconnect t);
    before = λ e.
        ap (λ s. s.sent) (socket-disconnect t)
        ∙ v.before (ap (λ s. s.linked) (sym (socket-disconnect t)) ∙ e);
    stream =
        rw (connected-disconnect t, socket-disconnect t)
          (IsStream-off t.connected t.tcp_socket.sent v.stream);
  }

  start_heart_beat-IsSound : (t : TcpClient S) → IsSound t → IsSound (start_heart_beat t)
  start_heart_beat-IsSound t v = elim (Bool-cases t.connected) [
    | inr off ↦ rw (start_heart_beat-off t off) v
    | inl on ↦ rw (start_heart_beat-on t on) (same_socket t (with_timer t) refl refl v)
  ]

  send_heart_beat-IsSound : (t : TcpClient S) → IsSound t → IsSound (send_heart_beat t).1
  send_heart_beat-IsSound t v = elim (Bool-cases t.connected) [
    | inr off ↦ rw (send_heart_beat-off t off) v
    | inl on ↦
        rw (send_heart_beat-on t on)
          (start_heart_beat-IsSound (send_data heartbeat t).1 (send_data-IsSound heartbeat t v))
  ]

  fire-IsSound : (timer : ℕ) (t : TcpClient S) → IsSound t → IsSound (fire timer t).1
  unfolding fire
  fire-IsSound timer t v =
      send_heart_beat-IsSound (record t { running = without timer t.running })
        (same_socket t (record t { running = without timer t.running }) refl refl v)

  connect_to_server-IsSound :
      (ip : Bytes) (port : ℕ) (t : TcpClient S)
      → IsSound t
      → IsSound (connect_to_server ip port t).1
  connect_to_server-IsSound ip port t v = elim (connect_to_server_lem ip port t) [
    | inl e ↦ rw e (same_socket t (named ip port t) refl refl v)
    | inr ((up, new, there), e) ↦ rw e (
        start_heart_beat-IsSound (joined_up ip port t) (record {
          linked = λ _. (refl, up);
          before = λ e. cc;
          stream = rw (v.before new) (IsStream-empty true);
        }))
  ]

  effect-IsSound : (t t' : TcpClient S) → IsSound t → ReadEffect t t' → IsSound t'
  effect-IsSound t t' v (kept b e) =
      same_socket t t' (ap (λ u. u.connected) e) (ap (λ u. u.tcp_socket) e) v
  effect-IsSound t t' v (lost b e) =
      same_socket (record t { connected = false }) t' (ap (λ u. u.connected) e)
        (ap (λ u. u.tcp_socket) e) (off-IsSound t v)
  effect-IsSound t t' v (refused b e) = subst IsSound (sym e) (record {
    linked = λ on. cc;
    before = v.before;
    stream = IsStream-off t.connected t.tcp_socket.sent v.stream;
  })
  effect-IsSound t t' v (left b e) =
      same_socket (disconnect t) t' (ap (λ u. u.connected) e) (ap (λ u. u.tcp_socket) e)
        (disconnect-IsSound t v)

  Step-IsSound : {c d : Client S} → Step c d → IsSound c.tcp → IsSound d.tcp
  Step-IsSound {c} (connecting ip port) v = connect_to_server-IsSound ip port c.tcp v
  Step-IsSound {c} (registering callback) v =
      same_socket c.tcp (record c.tcp { received_data_callback = some callback }) refl refl v
  Step-IsSound {c} starting v = start_heart_beat-IsSound c.tcp v
  Step-IsSound {c} beating v = send_heart_beat-IsSound c.tcp v
  Step-IsSound {c} (sending data_) v = send_data-IsSound data_ c.tcp v
  Step-IsSound {c} (firing timer earlier later e) v = fire-IsSound timer c.tcp v
  Step-IsSound {c} (reading event) v = effect-IsSound c.tcp _ v (receive_data-effect event c)
  Step-IsSound {c} leaving v = disconnect-IsSound c.tcp v

  -- Any sequence of calls of `connect_to_server`, `start_heart_beat`, `send_heart_beat`,
  -- `send_data` and `disconnect`, also while a timer runs, settings of the callback, timers
  -- that fire and events of the reading thread, each after the last one has ended, keeps these:
  -- if the client is connected its socket is linked and open, nothing has been sent before the
  -- socket is linked, and what has been sent is whole frames within the limit, with a part of a
  -- frame behind them only if the client is not connected.
  pub Reach-IsSound : {c d : Client S} → IsSound c.tcp → Reach c d → IsSound d.tcp
  Reach-IsSound v here = v
  Reach-IsSound v (next r step) = Step-IsSound step (Reach-IsSound v r)

  -- Of two timers `disconnect` cancels the last one started.
  pub disconnect-start_heart_beat :
      (n : ℕ) (t : TcpClient S)
      → t.connected ≡ true
      → t.running ≡ n ∷ []
      → n ≢ t.timers_made
      → (disconnect (start_heart_beat t)).running ≡ n ∷ []
  unfolding disconnect cancel_timer without
  disconnect-start_heart_beat n t on one other = rw (start_heart_beat-on t on) (ground arith)
