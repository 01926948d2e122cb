-- ===== src/Qt/Connection/Streams.antt =====
-- tcpclient.py of the PyQt variant: what it writes, over any sequence of calls and events.
use knot_link_sdk.Base.{
  ℕ, zero, suc, ◌≡◌, ap, sym, subst, ◌∙◌, inl, inr, true, List, [], ◌∷◌, ◌++◌, ltb, append_assoc,
  append-nil, arith, length, Bool-cases, if_true, if_false, seq_eq, All, All-append,
}
use knot_link_sdk.Wire.{
  Bytes, Scan, incomplete, bad_magic, bad_length, message, next_message, frame, max_msg_size,
  heartbeat, heartbeat_response,
}
use knot_link_sdk.Tcp.Frames.{frames}
use knot_link_sdk.Tcp.Streams.{IsInLimit, frames-append}
use knot_link_sdk.Qt.{Toolkit, IsQt}
use knot_link_sdk.Qt.Connection.{
  Signal, connected, disconnected, received_data, QtClient, Slots, with_buffer, is_connected,
  stop_timer, write_with_length_prefix, send_data, send_heartbeat, disconnect_from_host,
  socket_connected, socket_disconnected, connect_to_server, process_message, process_round,
  process_rounds, process_buffer, read_data, disconnect,
}

-- Since the socket had taken `before`, it has been given whole frames within the limit, and no more.
pub record WroteFrames (qt : Toolkit) (before now : Bytes) : Type 0 where
  pub msgs : List Bytes
  pub split : now ≡ before ++ frames msgs
  pub fits : All IsInLimit msgs

module _ (qt : Toolkit) {S : Type 0} (slots : Slots qt S) where
  abbrev pub wrote : QtClient qt S → Bytes
  wrote c = qt.written c.tcp_socket

  -- Calls, signals and events. Of its own the socket may change in any way that writes nothing; a timer
  -- that is active may fire.
  pub data Step (c : QtClient qt S) : QtClient qt S → Type 0 where
    connecting : (ip : Bytes) (port : ℕ) → Step c (connect_to_server qt slots ip port c).1
    coming_up : Step c (socket_connected qt slots c)
    going_down : Step c (socket_disconnected qt slots c)
    changing : (s : qt.Socket) → qt.written s ≡ wrote c → Step c (record c { tcp_socket = s })
    sending : (data_ : Bytes) → Step c (send_data qt data_ c)
    beating : qt.is_active c.heart_beat_timer ≡ true → Step c (send_heartbeat qt c)
    reading : (bytes : Bytes) → Step c (read_data qt slots bytes c)
    leaving : Step c (disconnect qt slots c)

  pub data Reach (c : QtClient qt S) : QtClient qt S → Type 0 where
    here : Reach c c
    next : {d e : QtClient qt S} → Reach c d → Step d e → Reach c e

-- What the slots write are whole frames too.
abbrev pub WritesFrames : {S : Type 0} (qt : Toolkit) → Slots qt S → Type 0
WritesFrames {S} qt slots =
    (s : Signal) (c : QtClient qt S)
    → WroteFrames qt (qt.written c.tcp_socket) (qt.written (slots s c).tcp_socket)

module _ (qt : Toolkit) where
  pub WroteFrames-refl : (b : Bytes) → WroteFrames qt b b
  WroteFrames-refl b = record { msgs = []; split = sym (append-nil b); fits = tt }

  WroteFrames-trans : (a b c : Bytes) → WroteFrames qt a b → WroteFrames qt b c → WroteFrames qt a c
  WroteFrames-trans a b c p q = record {
    msgs = p.msgs ++ q.msgs;
    split = rw (frames-append p.msgs q.msgs) (
        q.split
        ∙ ap (λ x. x ++ frames q.msgs) p.split
        ∙ append_assoc a (frames p.msgs) (frames q.msgs));
    fits = All-append IsInLimit p.msgs q.msgs p.fits q.fits;
  }

  WroteFrames-eq : (a b : Bytes) → b ≡ a → WroteFrames qt a b
  WroteFrames-eq a b e = subst (WroteFrames qt a) (sym e) (WroteFrames-refl a)

module _ (qt : Toolkit) (laws : IsQt qt) {S : Type 0} where
  write-WroteFrames :
      (data_ : Bytes) (c : QtClient qt S)
      → WroteFrames qt
          (qt.written c.tcp_socket)
          (qt.written (write_with_length_prefix qt data_ c).1.tcp_socket)
  unfolding write_with_length_prefix
  write-WroteFrames data_ c = elim (Bool-cases (is_connected c)) [
    | inr off ↦ rw off (WroteFrames-refl qt (qt.written c.tcp_socket))
    | inl on ↦ elim (Bool-cases (ltb max_msg_size (length data_))) [
      | inl long ↦ rw (on, long) (WroteFrames-refl qt (qt.written c.tcp_socket))
      | inr fit ↦
          rw (on, fit)
            (record {
              msgs = data_ ∷ [];
              split =
                  laws.write-written (frame data_) c.tcp_socket on
                  ∙ ap (λ x. qt.written c.tcp_socket ++ x) (sym (append-nil (frame data_)));
              fits = (ground arith, tt);
            })
    ]
  ]

  module _ (slots : Slots qt S) (writes : WritesFrames qt slots) where
    abbrev Since : QtClient qt S → QtClient qt S → Type 0
    Since c d = WroteFrames qt (qt.written c.tcp_socket) (qt.written d.tcp_socket)

    then_ : (c d e : QtClient qt S) → Since c d → Since d e → Since c e
    then_ c d e =
        WroteFrames-trans qt (qt.written c.tcp_socket) (qt.written d.tcp_socket)
          (qt.written e.tcp_socket)

    disconnect_from_host-Since : (c : QtClient qt S) → Since c (disconnect_from_host qt slots c)
    unfolding disconnect_from_host socket_disconnected
    disconnect_from_host-Since c =
        let c' = record c { tcp_socket = (qt.disconnect_from_host c.tcp_socket).1 } in
        let quiet =
          WroteFrames-eq qt (qt.written c.tcp_socket) (qt.written c'.tcp_socket)
            (laws.written-disconnect c.tcp_socket) in
        elim (Bool-cases (qt.disconnect_from_host c.tcp_socket).0) [
          | inl e ↦ rw e (then_ c c' (slots disconnected c') quiet (writes disconnected c'))
          | inr e ↦ rw e quiet
        ]

    connect_to_server-Since :
        (ip : Bytes) (port : ℕ) (c : QtClient qt S)
        → Since c (connect_to_server qt slots ip port c).1
    unfolding connect_to_server socket_connected
    connect_to_server-Since ip port c =
        let s = qt.connect_to_host ip port c.tcp_socket in
        let c' = record c { tcp_socket = (qt.wait_for_connected s).1 } in
        let quiet =
          WroteFrames-eq qt (qt.written c.tcp_socket) (qt.written c'.tcp_socket)
            (laws.written-wait s ∙ laws.written-connect ip port c.tcp_socket) in
        elim (Bool-cases (qt.wait_for_connected s).0) [
          | inl e ↦ rw e (then_ c c' (slots connected c') quiet (writes connected c'))
          | inr e ↦ rw e quiet
        ]

    process_message-Since :
        (msg : Bytes) (c : QtClient qt S) → Since c (process_message qt slots msg c)
    unfolding process_message
    process_message-Since msg c = elim (Bool-cases (seq_eq msg heartbeat_response)) [
      | inl e ↦ rw e (WroteFrames-refl qt (qt.written c.tcp_socket))
      | inr e ↦ rw e (writes (received_data msg) c)
    ]

    process_round-Since :
        (again : QtClient qt S → QtClient qt S)
        → ((d : QtClient qt S) → Since d (again d))
        → (s : Scan) (c : QtClient qt S) → Since c (process_round qt slots again s c)
    unfolding process_round
    process_round-Since again keep incomplete c = WroteFrames-refl qt (qt.written c.tcp_socket)
    process_round-Since again keep bad_magic c = disconnect_from_host-Since c
    process_round-Since again keep (bad_length n) c = disconnect_from_host-Since c
    process_round-Since again keep (message msg left) c =
        let c' = process_message qt slots msg (with_buffer left c) in
        then_ c c' (again c') (process_message-Since msg (with_buffer left c)) (keep c')

    process_rounds-Since : (n : ℕ) (c : QtClient qt S) → Since c (process_rounds qt slots n c)
    unfolding process_rounds
    process_rounds-Since zero c = WroteFrames-refl qt (qt.written c.tcp_socket)
    process_rounds-Since (suc n) c =
        process_round-Since (process_rounds qt slots n) (process_rounds-Since n)
          (next_message c.buffer) c

    read_data-Since : (bytes : Bytes) (c : QtClient qt S) → Since c (read_data qt slots bytes c)
    unfolding read_data process_buffer
    read_data-Since [] c = WroteFrames-refl qt (qt.written c.tcp_socket)
    read_data-Since (b ∷ bytes) c =
        process_rounds-Since (suc (length (c.buffer ++ (b ∷ bytes))))
          (with_buffer (c.buffer ++ (b ∷ bytes)) c)

    Step-Since : {c d : QtClient qt S} → Step qt slots c d → Since c d
    unfolding socket_connected socket_disconnected send_data send_heartbeat disconnect
    Step-Since {c} (connecting ip port) = connect_to_server-Since ip port c
    Step-Since {c} coming_up = writes connected c
    Step-Since {c} going_down = writes disconnected c
    Step-Since {c} (changing s same) =
        WroteFrames-eq qt (qt.written c.tcp_socket) (qt.written s) same
    Step-Since {c} (sending data_) = write-WroteFrames data_ c
    Step-Since {c} (beating active) = elim (Bool-cases (is_connected c)) [
      | inl on ↦
          subst (Since c)
            (sym (if_true (write_with_length_prefix qt heartbeat c).1 (stop_timer qt c) on))
            (write-WroteFrames heartbeat c)
      | inr off ↦
          subst (Since c)
            (sym (if_false (write_with_length_prefix qt heartbeat c).1 (stop_timer qt c) off))
            (WroteFrames-refl qt (qt.written c.tcp_socket))
    ]
    Step-Since {c} (reading bytes) = read_data-Since bytes c
    Step-Since {c} leaving = disconnect_from_host-Since c

    -- If what PyQt5 documents holds and the slots write only whole frames within the limit,
    -- then over any sequence of calls, signals, timer events and received bytes the client
    -- writes only whole frames within the limit.
    pub Reach-WroteFrames :
        {c d : QtClient qt S}
        → Reach qt slots c d
        → WroteFrames qt (qt.written c.tcp_socket) (qt.written d.tcp_socket)
    Reach-WroteFrames {c} here = WroteFrames-refl qt (qt.written c.tcp_socket)
    Reach-WroteFrames {c} {d} (next {d = b} r step) =
        then_ c b d (Reach-WroteFrames r) (Step-Since step)
