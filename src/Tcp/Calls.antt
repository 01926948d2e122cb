-- ===== src/Tcp/Calls.antt =====
-- tcpclient.py: the calls that a program and the client's own threads make, in any order.
use knot_link_sdk.Base.{ℕ, ◌≡◌, sym, subst, some, List, [], ◌∷◌, ◌++◌, arith}
use knot_link_sdk.Wire.{Bytes}
use knot_link_sdk.Tcp.{
  TcpClient, Client, Callback, Recv, connect_to_server, start_heart_beat, send_heart_beat,
  send_data, fire, receive_data, disconnect,
}
use knot_link_sdk.Tcp.Invariant.{
  IsValid, connect_to_server-IsValid, start_heart_beat-IsValid, send_heart_beat-IsValid,
  send_data-IsValid, fire-IsValid, disconnect-IsValid,
}
use knot_link_sdk.Tcp.Streams.{IsStream-off}
use knot_link_sdk.Tcp.Effects.{ReadEffect, kept, lost, refused, left, receive_data-effect}

module _ {S : Type 0} where
  abbrev pub with_tcp : TcpClient S → Client S → Client S
  with_tcp t c = record c { tcp = t }

  -- A program may also call `start_heart_beat` and `send_heart_beat` itself. A timer fires only while it runs; `recv` brings one event at a time.
  pub data Step (c : Client S) : Client S → Type 0 where
    connecting : (ip : Bytes) (port : ℕ) → Step c (with_tcp (connect_to_server ip port c.tcp).1 c)
    registering :
        (callback : Callback S)
        → Step c (with_tcp (record c.tcp { received_data_callback = some callback }) c)
    starting : Step c (with_tcp (start_heart_beat c.tcp) c)
    beating : Step c (with_tcp (send_heart_beat c.tcp).1 c)
    sending : (data_ : Bytes) → Step c (with_tcp (send_data data_ c.tcp).1 c)
    firing :
        (timer : ℕ) (earlier later : List ℕ)
        → c.tcp.running ≡ earlier ++ timer ∷ later
        → Step c (with_tcp (fire timer c.tcp).1 c)
    reading : (event : Recv) → Step c (receive_data (event ∷ []) c).1
    leaving : Step c (with_tcp (disconnect c.tcp) c)

  pub data Reach (c : Client S) : Client S → Type 0 where
    here : Reach c c
    next : {d e : Client S} → Reach c d → Step d e → Reach c e

  -- If the program calls `start_heart_beat` or `send_heart_beat` itself, no timer runs then.
  abbrev pub IsTimed : {c d : Client S} → Step c d → Type 0
  IsTimed (connecting ip port) = Unit
  IsTimed (registering callback) = Unit
  IsTimed {c} starting = c.tcp.running ≡ []
  IsTimed {c} beating = c.tcp.running ≡ []
  IsTimed (sending data_) = Unit
  IsTimed (firing timer earlier later e) = Unit
  IsTimed (reading event) = Unit
  IsTimed leaving = Unit

  abbrev pub AreTimed : {c d : Client S} → Reach c d → Type 0
  AreTimed here = Unit
  AreTimed (next r step) = AreTimed r × IsTimed step

  effect-IsValid : (t t' : TcpClient S) → IsValid t → ReadEffect t t' → IsValid t'
  effect-IsValid t t' v (kept b e) =
      subst IsValid (sym e) (record {
        linked = v.linked;
        before = v.before;
        one_timer = v.one_timer;
        stream = v.stream;
      })
  effect-IsValid t t' v (lost b e) = subst IsValid (sym e) (record {
    linked = λ on. cc;
    before = v.before;
    one_timer = v.one_timer;
    stream = IsStream-off t.connected t.tcp_socket.sent v.stream;
  })
  effect-IsValid t t' v (refused b e) = subst IsValid (sym e) (record {
    linked = λ on. cc;
    before = v.before;
    one_timer = v.one_timer;
    stream = IsStream-off t.connected t.tcp_socket.sent v.stream;
  })
  effect-IsValid t t' v (left b e) =
      subst IsValid (sym e) (record {
        linked = w.linked;
        before = w.before;
        one_timer = w.one_timer;
        stream = w.stream;
      })
    where
      w : IsValid (disconnect t)
      w = disconnect-IsValid t v

  -- The only timer that can fire is the one that runs.
  the_timer :
      (timer : ℕ) (earlier later : List ℕ) (t : TcpClient S)
      → IsValid t
      → t.running ≡ earlier ++ timer ∷ later
      → t.running ≡ timer ∷ []
  the_timer timer [] later t v e = ground (arith, v.one_timer)
  the_timer timer (x ∷ []) later t v e = ground (arith, v.one_timer)
  the_timer timer (x ∷ y ∷ earlier) later t v e = ground (arith, v.one_timer)

  pub Step-IsValid :
      {c d : Client S} (step : Step c d) → IsTimed step → IsValid c.tcp → IsValid d.tcp
  Step-IsValid {c} (connecting ip port) h v = connect_to_server-IsValid ip port c.tcp v
  Step-IsValid (registering callback) h v = record {
    linked = v.linked;
    before = v.before;
    one_timer = v.one_timer;
    stream = v.stream;
  }
  Step-IsValid {c} starting h v = start_heart_beat-IsValid c.tcp h v
  Step-IsValid {c} beating h v = send_heart_beat-IsValid c.tcp h v
  Step-IsValid {c} (sending data_) h v = send_data-IsValid data_ c.tcp v
  Step-IsValid {c} (firing timer earlier later e) h v =
      fire-IsValid timer c.tcp (the_timer timer earlier later c.tcp v e) v
  Step-IsValid {c} (reading event) h v = effect-IsValid c.tcp _ v (receive_data-effect event c)
  Step-IsValid {c} leaving h v = disconnect-IsValid c.tcp v

  -- Any sequence of calls of `connect_to_server`, `start_heart_beat`, `send_heart_beat`,
  -- `send_data` and `disconnect`, settings of the callback, timers that fire and events of the
  -- reading thread, each after the last one has ended, from a valid client, gives a valid one,
  -- if the program itself calls `start_heart_beat` and `send_heart_beat` only while no timer
  -- runs: if it is connected its socket is linked and open, nothing has been sent and no timer
  -- runs before the socket is linked, no timer runs but the one that `disconnect` cancels, and
  -- what has been sent is whole frames within the limit, with a part of a frame behind them
  -- only if the client is not connected.
  pub Reach-IsValid :
      {c d : Client S} → IsValid c.tcp → (r : Reach c d) → AreTimed r → IsValid d.tcp
  Reach-IsValid v here h = v
  Reach-IsValid v (next r step) (h, timed) = Step-IsValid step timed (Reach-IsValid v r h)
