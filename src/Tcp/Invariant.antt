-- ===== src/Tcp/Invariant.antt =====
-- tcpclient.py: what holds of a TcpClient after any calls, in any order.
use knot_link_sdk.Base.{
  ℕ, suc, ◌<◌, ◌≡◌, refl, ap, subst, sym, ◌∙◌, ◌⊎◌, inl, inr, Bool, true, false, Option, some, List,
  [], ◌∷◌, arith, length, not, ◌||◌, Bool-cases, if_true,
}
use knot_link_sdk.Exec.{Result, ok}
use knot_link_sdk.Wire.{Bytes, heartbeat}
use knot_link_sdk.Tcp.{
  TcpClient, init, connect_to_server, send_data, start_heart_beat, send_heart_beat, fire,
  disconnect, cancel_timer, without,
}
use knot_link_sdk.Tcp.Net.{Socket, fresh, connect, close}
use knot_link_sdk.Tcp.Sending.{Sent, too_long, whole, broken, dead, send_data-Sent, send_data-off}
use knot_link_sdk.Tcp.Streams.{
  IsStream, IsStream-empty, IsStream-off, IsStream-whole, IsStream-broken,
}

pub record IsValid {S : Type 0} (t : TcpClient S) : Type 0 where
  -- a connected client has a socket that is linked and open
  pub linked : t.connected ≡ true → (t.tcp_socket.linked ≡ true) × (t.tcp_socket.closed ≡ false)
  -- nothing has gone out, and no timer runs, before the socket is linked
  pub before : t.tcp_socket.linked ≡ false → (t.tcp_socket.sent ≡ []) × (t.running ≡ [])
  -- no timer runs but the one that `disconnect` would cancel
  pub one_timer :
      (t.running ≡ []) ⊎ ((n : ℕ) × (t.running ≡ n ∷ []) × (t.heart_beat_timer ≡ some n))
  pub stream : IsStream t.connected t.tcp_socket.sent

-- A socket connects at most once, and before it was closed.
abbrev pub CanConnect : Socket → Type 0
CanConnect s = (s.closed ≡ false) × (s.linked ≡ false) × (s.reachable ≡ true)

module _ {S : Type 0} where
  pub IsValid-init :
      (up : Bool) (faults : List (Option ℕ)) → IsValid (init {S = S} (fresh up faults))
  IsValid-init up faults = record {
    linked = λ e. cc;
    before = λ _. (refl, refl);
    one_timer = inl refl;
    stream = IsStream-empty false;
  }

  -- The parts of `IsValid` that a call of `send_data` may touch.
  Sent-IsValid :
      (data_ : Bytes) (t : TcpClient S) (r : Result (Unit {0})) (t' : TcpClient S)
      → t.connected ≡ true
      → IsValid t
      → Sent data_ t r t'
      → IsValid t'
  Sent-IsValid data_ t r t' on v (too_long _ _ same) = subst IsValid (sym same) v
  Sent-IsValid data_ t r t' on v (whole faults fits _ same) = subst IsValid (sym same) (record {
    linked = v.linked;
    before = λ e. cc (v.linked on).0;
    one_timer = v.one_timer;
    stream = IsStream-whole t.connected t.tcp_socket.sent data_ on v.stream fits;
  })
  Sent-IsValid data_ t r t' on v (broken n faults fits _ same) = subst IsValid (sym same) (record {
    linked = λ e. cc;
    before = λ e. cc (v.linked on).0;
    one_timer = v.one_timer;
    stream = IsStream-broken t.connected t.tcp_socket.sent data_ on v.stream n;
  })
  Sent-IsValid data_ t r t' on v (dead _ _ _ same) = subst IsValid (sym same) (record {
    linked = λ e. cc;
    before = v.before;
    one_timer = v.one_timer;
    stream = IsStream-off t.connected t.tcp_socket.sent v.stream;
  })

  pub send_data-IsValid :
      (data_ : Bytes) (t : TcpClient S) → IsValid t → IsValid (send_data data_ t).1
  send_data-IsValid data_ t v = elim (Bool-cases t.connected) [
    | inl on ↦ Sent-IsValid data_ t _ _ on v (send_data-Sent data_ t on)
    | inr off ↦ rw (send_data-off data_ t off) v
  ]

  -- What `disconnect` leaves: no timer runs, if one at most did.
  pub connected-disconnect : (t : TcpClient S) → (disconnect t).connected ≡ false
  unfolding disconnect cancel_timer
  connected-disconnect t = ground arith

  pub socket-disconnect : (t : TcpClient S) → (disconnect t).tcp_socket ≡ close t.tcp_socket
  unfolding disconnect cancel_timer
  socket-disconnect t = ground arith

  pub idle-disconnect : (t : TcpClient S) → t.running ≡ [] → (disconnect t).running ≡ []
  unfolding disconnect cancel_timer without
  idle-disconnect t idle = ground arith

  pub running-disconnect : (t : TcpClient S) → IsValid t → (disconnect t).running ≡ []
  unfolding disconnect cancel_timer without
  running-disconnect t v = elim v.one_timer [
    | inl idle ↦ ground arith
    | inr (n, one, timer) ↦ ground arith
  ]

  pub disconnect-IsValid : (t : TcpClient S) → IsValid t → IsValid (disconnect t)
  disconnect-IsValid t v = record {
    linked = λ e. cc (connected-disconnect t);
    before = λ e.
        let e' : t.tcp_socket.linked ≡ false = ap (λ s. s.linked) (sym (socket-disconnect t)) ∙ e in
        (ap (λ s. s.sent) (socket-disconnect t) ∙ (v.before e').0, running-disconnect t v);
    one_timer = inl (running-disconnect t v);
    stream =
        rw (connected-disconnect t, socket-disconnect t)
          (IsStream-off t.connected t.tcp_socket.sent v.stream);
  }

  abbrev pub with_timer : TcpClient S → TcpClient S
  with_timer t = record t {
    heart_beat_timer = some t.timers_made;
    running = t.timers_made ∷ t.running;
    timers_made = suc t.timers_made;
  }

  pub start_heart_beat-on :
      (t : TcpClient S) → t.connected ≡ true → start_heart_beat t ≡ with_timer t
  unfolding start_heart_beat
  start_heart_beat-on t on = ground arith

  pub start_heart_beat-off : (t : TcpClient S) → t.connected ≡ false → start_heart_beat t ≡ t
  unfolding start_heart_beat
  start_heart_beat-off t off = ground arith

  -- A new timer, where none runs.
  pub start_heart_beat-IsValid :
      (t : TcpClient S) → t.running ≡ [] → IsValid t → IsValid (start_heart_beat t)
  start_heart_beat-IsValid t idle v = elim (Bool-cases t.connected) [
    | inr off ↦ rw (start_heart_beat-off t off) v
    | inl on ↦ rw (start_heart_beat-on t on) (record {
      linked = v.linked;
      before = λ e. cc (v.linked on).0;
      one_timer = inr (t.timers_made, ap (λ ns. t.timers_made ∷ ns) idle, refl);
      stream = v.stream;
    })
  ]

  Sent-running :
      (data_ : Bytes) (t : TcpClient S) (r : Result (Unit {0})) (t' : TcpClient S)
      → Sent data_ t r t'
      → t'.running ≡ t.running
  Sent-running data_ t r t' (too_long _ _ same) = ap (λ u. u.running) same
  Sent-running data_ t r t' (whole _ _ _ same) = ap (λ u. u.running) same
  Sent-running data_ t r t' (broken _ _ _ _ same) = ap (λ u. u.running) same
  Sent-running data_ t r t' (dead _ _ _ same) = ap (λ u. u.running) same

  Sent-returns :
      (data_ : Bytes) (t : TcpClient S) (r : Result (Unit {0})) (t' : TcpClient S)
      → length data_ < 100
      → Sent data_ t r t'
      → r ≡ ok tt
  Sent-returns data_ t r t' short (too_long long _ _) = absurd (omega arith)
  Sent-returns data_ t r t' short (whole _ _ e _) = e
  Sent-returns data_ t r t' short (broken _ _ _ e _) = e
  Sent-returns data_ t r t' short (dead _ _ e _) = e

  -- The heartbeat goes out without an exception, and then the next timer starts.
  pub send_heart_beat-on :
      (t : TcpClient S)
      → t.connected ≡ true
      → send_heart_beat t ≡ (ok tt, start_heart_beat (send_data heartbeat t).1)
  unfolding send_heart_beat send_data
  send_heart_beat-on t on =
      if_true _ _ on
      ∙ rw (
          Sent-returns heartbeat t (send_data heartbeat t).0 (send_data heartbeat t).1 (omega arith)
            (send_data-Sent heartbeat t on))

  pub send_heart_beat-off : (t : TcpClient S) → t.connected ≡ false → send_heart_beat t ≡ (ok tt, t)
  unfolding send_heart_beat
  send_heart_beat-off t off = ground arith

  pub send_heart_beat-IsValid :
      (t : TcpClient S) → t.running ≡ [] → IsValid t → IsValid (send_heart_beat t).1
  send_heart_beat-IsValid t idle v = elim (Bool-cases t.connected) [
    | inr off ↦ rw (send_heart_beat-off t off) v
    | inl on ↦ rw (send_heart_beat-on t on) (
        start_heart_beat-IsValid (send_data heartbeat t).1
          (Sent-running heartbeat t _ _ (send_data-Sent heartbeat t on) ∙ idle)
          (send_data-IsValid heartbeat t v))
  ]

  -- The timer that fires does not run any more.
  idle_after : (timer : ℕ) (t : TcpClient S) → t.running ≡ timer ∷ [] → without timer t.running ≡ []
  unfolding without
  idle_after timer t one = ground arith

  pub fire-IsValid :
      (timer : ℕ) (t : TcpClient S) → t.running ≡ timer ∷ [] → IsValid t → IsValid (fire timer t).1
  unfolding fire
  fire-IsValid timer t one v =
      let idle = idle_after timer t one in
      send_heart_beat-IsValid (record t { running = without timer t.running }) idle
        (record {
          linked = v.linked;
          before = λ e. ((v.before e).0, idle);
          one_timer = inl idle;
          stream = v.stream;
        })

  module _ (ip : Bytes) (port : ℕ) (t : TcpClient S) where
    abbrev pub named : TcpClient S
    named = record t { server = some (ip, port) }

    abbrev pub joined_up : TcpClient S
    joined_up = record named {
      connected = true;
      tcp_socket = record t.tcp_socket { linked = true };
    }

    -- A failed connection is logged: only the address is remembered.
    pub connect_to_server_lem :
        (connect_to_server ip port t ≡ (ok tt, named))
        ⊎ (CanConnect t.tcp_socket
            × (connect_to_server ip port t ≡ (ok tt, start_heart_beat joined_up)))
    unfolding connect_to_server connect
    connect_to_server_lem =
        elim (Bool-cases
          (t.tcp_socket.closed || (t.tcp_socket.linked || not t.tcp_socket.reachable))) [
            | inl refused ↦ inl (ground arith)
            | inr free ↦ inr (ground arith, ground arith)
          ]

    pub connect_to_server-IsValid : IsValid t → IsValid (connect_to_server ip port t).1
    connect_to_server-IsValid v = elim connect_to_server_lem [
      | inl e ↦ rw e (record {
        linked = v.linked;
        before = v.before;
        one_timer = v.one_timer;
        stream = v.stream;
      })
      | inr ((up, new, there), e) ↦ rw e (
          start_heart_beat-IsValid joined_up (v.before new).1 (record {
            linked = λ _. (refl, up);
            before = λ e. cc;
            one_timer = inl (v.before new).1;
            stream = rw (v.before new).0 (IsStream-empty true);
          }))
    ]
