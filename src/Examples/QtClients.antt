-- ===== src/Examples/QtClients.antt =====
-- tcpclient.py of the PyQt variant at concrete streams.
use knot_link_sdk.Base.{
  ◌≡◌, refl, some, List, [], ◌∷◌, ◌++◌, true, false, codes, concat, inl, seq_eq,
}
use knot_link_sdk.Wire.{Bytes, unpack_u32, next_message, bad_magic}
use knot_link_sdk.Tcp
use knot_link_sdk.Tcp.{Client, init}
use knot_link_sdk.Tcp.Net.{fresh}
use knot_link_sdk.Tcp.Frames.{frames, returning}
use knot_link_sdk.Tcp.Endings.{IsRefused}
use knot_link_sdk.Roles.{local_host}
use knot_link_sdk.Qt.Connection.{
  Signal, QtClient, Slots, process_buffer, read_data, connect_to_server, socket_disconnected,
  send_data,
}
use knot_link_sdk.Qt.Connection.Agreement.{hosting, Agrees, process_buffer-Agrees}
use knot_link_sdk.Qt.Connection.Readings.{
  read_all, SameRead, read_all-SameRead, connect_to_server-stale,
}
use knot_link_sdk.Qt.Connection.Streams.{
  WroteFrames, WroteFrames-refl, here, next, sending, Reach-WroteFrames,
}
use knot_link_sdk.Qt.Connection.Heartbeats.{IsBeating, beats, heartbeats, connect_to_server-beats}
use knot_link_sdk.Examples.Toolkit.{toolkit, toolkit-IsQt, client}

abbrev keep : Bytes → List Bytes → List Bytes
keep msg heard = heard ++ msg ∷ []

abbrev slots : Slots toolkit (List Bytes)
slots = hosting toolkit keep

-- The frame of "hi"
abbrev hi_frame : Bytes
hi_frame = b'K' ∷ b'K' ∷ 0 ∷ 2 ∷ 0 ∷ 0 ∷ 0 ∷ 2 ∷ b'h' ∷ b'i' ∷ []

abbrev qt_reader : QtClient toolkit (List Bytes)
qt_reader = client (hi_frame ++ b'K' ∷ []) []

abbrev plain_reader : Client (List Bytes)
plain_reader = record {
  tcp = record (init (fresh true [])) {
    connected = true;
    received_data_callback = some (returning keep);
    buffer = hi_frame ++ b'K' ∷ [];
  };
  host = [];
}

process_buffer-Agrees_example :
    Agrees toolkit (Tcp.process_buffer plain_reader).1 (process_buffer toolkit slots qt_reader)
process_buffer-Agrees_example =
    process_buffer-Agrees toolkit toolkit-IsQt keep plain_reader qt_reader refl
      (record { buffers = refl; hosts = refl; both = refl })

read_all-SameRead_example :
    SameRead
      (read_all toolkit slots ((1 ∷ []) ∷ [] ∷ hi_frame ∷ []) qt_reader)
      (read_data toolkit slots ((1 ∷ []) ++ concat ([] ∷ hi_frame ∷ [])) qt_reader)
read_all-SameRead_example = read_all-SameRead toolkit keep (1 ∷ []) ([] ∷ hi_frame ∷ []) qt_reader

abbrev new_client : QtClient toolkit (List Bytes)
new_client = client [] []

-- A client that has received bytes of another protocol
abbrev spoilt : QtClient toolkit (List Bytes)
spoilt = client (codes "GET / HTTP") []

spoilt-IsRefused : IsRefused (next_message spoilt.buffer)
spoilt-IsRefused = inl bad
  where
    bad : next_message (codes "GET / HTTP") ≡ bad_magic
    bad = unfold next_message seq_eq unpack_u32 in refl

connect_to_server-stale_example :
    (read_all toolkit slots
      (hi_frame ∷ [])
      (connect_to_server toolkit slots local_host 6370 spoilt).1).host
    ≡ []
connect_to_server-stale_example =
    connect_to_server-stale toolkit keep local_host 6370 (hi_frame ∷ []) spoilt spoilt-IsRefused

writes_nothing :
    (s : Signal) (c : QtClient toolkit (List Bytes))
    → WroteFrames toolkit (toolkit.written c.tcp_socket) (toolkit.written (slots s c).tcp_socket)
unfolding hosting
writes_nothing Signal.connected c = WroteFrames-refl toolkit (toolkit.written c.tcp_socket)
writes_nothing Signal.disconnected c = WroteFrames-refl toolkit (toolkit.written c.tcp_socket)
writes_nothing (Signal.received_data msg) c =
    WroteFrames-refl toolkit (toolkit.written c.tcp_socket)

Reach-WroteFrames_example :
    WroteFrames toolkit
      (toolkit.written new_client.tcp_socket)
      (toolkit.written (send_data toolkit (codes "hi") new_client).tcp_socket)
Reach-WroteFrames_example =
    Reach-WroteFrames toolkit toolkit-IsQt slots writes_nothing {c = new_client}
      {d = send_data toolkit (codes "hi") new_client} (next here (sending (codes "hi")))

joins : (connect_to_server toolkit slots local_host 6370 new_client).0 ≡ true
unfolding connect_to_server
joins = refl

connect_to_server-beats_example :
    IsBeating toolkit
      (beats toolkit 2 (connect_to_server toolkit slots local_host 6370 new_client).1)
    × (toolkit.written
          (beats toolkit 2
            (connect_to_server toolkit slots local_host 6370 new_client).1).tcp_socket
        ≡ [] ++ frames (heartbeats 2))
    × (toolkit.is_active
          (socket_disconnected toolkit slots (
            beats toolkit 2
              (connect_to_server toolkit slots local_host 6370 new_client).1)).heart_beat_timer
        ≡ false)
connect_to_server-beats_example =
    connect_to_server-beats toolkit toolkit-IsQt keep local_host 6370 new_client 2 joins
