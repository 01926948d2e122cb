-- ===== src/Qt/Connection.antt =====
-- knotlink-sdk-pyqt/knotlink-pyqt/knotlink-pyqt/tcpclient.py. The framing is that of
-- knotlink-sdk-python, so that `frame` and `next_message` of Wire serve here too.
pub mod Rounds
pub mod Agreement
pub mod Readings
pub mod Streams
pub mod Delivery
pub mod Heartbeats
use knot_link_sdk.Base.{
  ℕ, zero, suc, Bool, true, false, ◌&&◌, List, [], ◌∷◌, ◌++◌, ltb, if◌then◌else◌, seq_eq, length,
}
use knot_link_sdk.Wire.{
  Bytes, max_msg_size, heartbeat, heartbeat_response, frame, Scan, incomplete, bad_magic,
  bad_length, message, next_message,
}
use knot_link_sdk.Qt.{Toolkit}

-- The signals of a TcpClient
pub data Signal : Type 0 where
  connected disconnected : Signal
  received_data : Bytes → Signal

-- `S` is the state of the objects whose slots are connected to the client's signals.
pub record QtClient (qt : Toolkit) (S : Type 0) : Type 0 where
  pub tcp_socket : qt.Socket
  pub heart_beat_timer : qt.Timer
  pub buffer : Bytes
  pub host : S

-- What the slots do that a signal is connected to. They may call the client back.
abbrev pub Slots : Toolkit → Type 0 → Type 0
Slots qt S = Signal → QtClient qt S → QtClient qt S

abbrev pub with_buffer : {qt : Toolkit} {S : Type 0} → Bytes → QtClient qt S → QtClient qt S
with_buffer b c = record c { buffer = b }

-- `tcpSocket.state() == QAbstractSocket.ConnectedState`
abbrev pub is_connected : {qt : Toolkit} {S : Type 0} → QtClient qt S → Bool
is_connected {qt} c = qt.is_connected c.tcp_socket

module _ (qt : Toolkit) {S : Type 0} where
  abbrev pub stop_timer : QtClient qt S → QtClient qt S
  stop_timer c = record c { heart_beat_timer = qt.stop c.heart_beat_timer }

  -- Whether the message was handed to the socket.
  unfoldable pub write_with_length_prefix : Bytes → QtClient qt S → Bool × QtClient qt S
  write_with_length_prefix data_ c =
      if is_connected c
      then (if ltb max_msg_size (length data_)
          then (false, c)
          else (true, record c { tcp_socket = qt.write (frame data_) c.tcp_socket }))
      else (false, c)

  unfoldable pub send_data : Bytes → QtClient qt S → QtClient qt S
  send_data data_ c = (write_with_length_prefix data_ c).1

  -- The slot of the timer
  pub send_heartbeat : QtClient qt S → QtClient qt S
  send_heartbeat c =
      if is_connected c then (write_with_length_prefix heartbeat c).1 else stop_timer c

  module _ (slots : Slots qt S) where
    -- The slots of the socket's own signals
    pub socket_connected : QtClient qt S → QtClient qt S
    socket_connected c = slots connected c

    pub socket_disconnected : QtClient qt S → QtClient qt S
    socket_disconnected c = stop_timer (slots disconnected c)

    -- `tcpSocket.disconnectFromHost()`
    pub disconnect_from_host : QtClient qt S → QtClient qt S
    disconnect_from_host c =
        let (at_once, s) = qt.disconnect_from_host c.tcp_socket in
        let c' = record c { tcp_socket = s } in if at_once then socket_disconnected c' else c'

    unfoldable pub connect_to_server : Bytes → ℕ → QtClient qt S → Bool × QtClient qt S
    connect_to_server ip port c =
        let (up, s) = qt.wait_for_connected (qt.connect_to_host ip port c.tcp_socket) in
        let c' = record c { tcp_socket = s } in
        if up
        then (let c'' = socket_connected c' in
            (true, record c'' { heart_beat_timer = qt.start c''.heart_beat_timer }))
        else (false, c')

    unfoldable pub process_message : Bytes → QtClient qt S → QtClient qt S
    process_message msg c = if seq_eq msg heartbeat_response then c else slots (received_data msg) c

    -- One round of the loop of `_processBuffer`; `again` is the rest of the loop.
    unfoldable pub process_round :
        (QtClient qt S → QtClient qt S) → Scan → QtClient qt S → QtClient qt S
    process_round again incomplete c = c
    process_round again bad_magic c = disconnect_from_host c
    process_round again (bad_length len) c = disconnect_from_host c
    process_round again (message msg left) c = again (process_message msg (with_buffer left c))

    unfoldable pub process_rounds : ℕ → QtClient qt S → QtClient qt S
    process_rounds zero c = c
    process_rounds (suc rounds) c = process_round (process_rounds rounds) (next_message c.buffer) c

    -- `_processBuffer`: each round takes a byte at least, if the slots do not add any.
    unfoldable pub process_buffer : QtClient qt S → QtClient qt S
    process_buffer c = process_rounds (suc (length c.buffer)) c

    -- `readData`, with what `readAll` brings
    pub read_data : Bytes → QtClient qt S → QtClient qt S
    read_data [] c = c
    read_data (b ∷ bytes) c = process_buffer (with_buffer (c.buffer ++ (b ∷ bytes)) c)

    pub disconnect : QtClient qt S → QtClient qt S
    disconnect c = with_buffer [] (disconnect_from_host c)
