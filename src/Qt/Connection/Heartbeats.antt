-- ===== src/Qt/Connection/Heartbeats.antt =====
-- tcpclient.py of the PyQt variant: the heartbeat timer runs while the connection is up.
use knot_link_sdk.Tcp.Frames.{frames}
use knot_link_sdk.Base.{
  zero, suc, append-nil, append_assoc, Bool-cases, inl, inr, ℕ, ◌≡◌, ap, sym, ◌∙◌, Bool, true,
  false, List, [], ◌∷◌, ◌++◌, if_true, if_false,
}
use knot_link_sdk.Wire.{Bytes, frame, heartbeat}
use knot_link_sdk.Qt.{Toolkit, IsQt}
use knot_link_sdk.Qt.Connection.{
  QtClient, Slots, is_connected, stop_timer, write_with_length_prefix, send_heartbeat,
  connect_to_server, socket_connected, socket_disconnected,
}
use knot_link_sdk.Qt.Connection.Agreement.{hosting}

abbrev pub heartbeats : ℕ → List Bytes
heartbeats zero = []
heartbeats (suc n) = heartbeat ∷ heartbeats n

module _ (qt : Toolkit) {S : Type 0} where
  -- The connection is up, and the timer runs.
  pub record IsBeating (c : QtClient qt S) : Type 0 where
    pub up : is_connected c ≡ true
    pub active : qt.is_active c.heart_beat_timer ≡ true

  -- The timer fires some times.
  abbrev pub beats : ℕ → QtClient qt S → QtClient qt S
  beats zero c = c
  beats (suc n) c = beats n (send_heartbeat qt c)

module _ (qt : Toolkit) (laws : IsQt qt) {S : Type 0} (step : Bytes → S → S) where
  abbrev slots : Slots qt S
  slots = hosting qt step

  abbrev beaten : QtClient qt S → QtClient qt S
  beaten c = record c { tcp_socket = qt.write (frame heartbeat) c.tcp_socket }

  write_heartbeat :
      (c : QtClient qt S)
      → is_connected c ≡ true
      → write_with_length_prefix qt heartbeat c ≡ (true, beaten c)
  unfolding write_with_length_prefix
  write_heartbeat c up = if_true (true, beaten c) (false, c) up

  send_heartbeat-up : (c : QtClient qt S) → is_connected c ≡ true → send_heartbeat qt c ≡ beaten c
  unfolding send_heartbeat
  send_heartbeat-up c up =
      if_true (write_with_length_prefix qt heartbeat c).1 (stop_timer qt c) up
      ∙ ap (λ r. r.1) (write_heartbeat c up)

  send_heartbeat-down :
      (c : QtClient qt S) → is_connected c ≡ false → send_heartbeat qt c ≡ stop_timer qt c
  unfolding send_heartbeat
  send_heartbeat-down c down =
      if_false (write_with_length_prefix qt heartbeat c).1 (stop_timer qt c) down

  send_heartbeat-IsBeating :
      (c : QtClient qt S) → IsBeating qt c → IsBeating qt (send_heartbeat qt c)
  send_heartbeat-IsBeating c b = rw (send_heartbeat-up c b.up) (record {
    up = laws.write-is_connected (frame heartbeat) c.tcp_socket b.up;
    active = b.active;
  })

  written-send_heartbeat :
      (c : QtClient qt S)
      → IsBeating qt c
      → qt.written (send_heartbeat qt c).tcp_socket ≡ qt.written c.tcp_socket ++ frame heartbeat
  written-send_heartbeat c b =
      rw (send_heartbeat-up c b.up) (laws.write-written (frame heartbeat) c.tcp_socket b.up)

  beats-IsBeating :
      (n : ℕ) (c : QtClient qt S)
      → IsBeating qt c
      → IsBeating qt (beats qt n c)
        × (qt.written (beats qt n c).tcp_socket ≡ qt.written c.tcp_socket ++ frames (heartbeats n))
  beats-IsBeating zero c b = (b, sym (append-nil (qt.written c.tcp_socket)))
  beats-IsBeating (suc n) c b =
      let (still, more) = beats-IsBeating n (send_heartbeat qt c) (send_heartbeat-IsBeating c b) in
      (
        still,
        more
            ∙ ap (λ w. w ++ frames (heartbeats n)) (written-send_heartbeat c b)
            ∙ append_assoc (qt.written c.tcp_socket) (frame heartbeat) (frames (heartbeats n)),
      )

  module _ (ip : Bytes) (port : ℕ) (c : QtClient qt S) where
    abbrev pub joined : Bool × QtClient qt S
    joined = connect_to_server qt slots ip port c

    joined-IsBeating :
        joined.0 ≡ true
        → IsBeating qt joined.1 × (qt.written joined.1.tcp_socket ≡ qt.written c.tcp_socket)
    unfolding connect_to_server socket_connected hosting
    joined-IsBeating success =
        let s = qt.connect_to_host ip port c.tcp_socket in
        let quiet = laws.written-wait s ∙ laws.written-connect ip port c.tcp_socket in
        elim (Bool-cases (qt.wait_for_connected s).0) [
          | inl up ↦ rw up (
            record {
              up = laws.wait-is_connected s up;
              active = laws.start-is_active c.heart_beat_timer;
            },
            quiet,
          )
          | inr down ↦
              (let impossible : ◌≡◌ {A = Bool} false true = (rw down at success) in cc impossible)
        ]

    -- If what PyQt5 documents holds, the slots work on their own object only and connecting
    -- succeeds, then after any number of firings of the timer the client is connected, its
    -- timer runs and it has written just one heartbeat frame for each firing; and the signal
    -- `disconnected` stops the timer.
    pub connect_to_server-beats :
        (n : ℕ)
        → joined.0 ≡ true
        → IsBeating qt (beats qt n joined.1)
          × (qt.written (beats qt n joined.1).tcp_socket
              ≡ qt.written c.tcp_socket ++ frames (heartbeats n))
          × (qt.is_active (socket_disconnected qt slots (beats qt n joined.1)).heart_beat_timer
              ≡ false)
    unfolding socket_disconnected hosting
    connect_to_server-beats n success =
        let (b, same) = joined-IsBeating success in
        let (still, sent) = beats-IsBeating n joined.1 b in
        (
          still,
          sent ∙ ap (λ w. w ++ frames (heartbeats n)) same,
          laws.stop-is_active (beats qt n joined.1).heart_beat_timer,
        )
