-- ===== src/Examples/QtRoles.antt =====
-- The roles of the PyQt variant at concrete messages.
use knot_link_sdk.Base.{
  ◌≡◌, refl, none, some, List, [], ◌∷◌, ◌++◌, true, false, codes, concat, arith, seq_eq,
}
use knot_link_sdk.Exec.{ok, continue}
use knot_link_sdk.Wire.{frame, pack_u32}
use knot_link_sdk.Text.Utf8.{Bytes, encode, encode_point}
use knot_link_sdk.Text.Search.{separator}
use knot_link_sdk.Tcp
use knot_link_sdk.Tcp.{init}
use knot_link_sdk.Tcp.Net.{fresh}
use knot_link_sdk.Tcp.Frames.{frames}
use knot_link_sdk.Roles.Responser
use knot_link_sdk.Roles.Responser.{Queue, put}
use knot_link_sdk.Roles.Sender
use knot_link_sdk.Roles.Sender.{SignalSender, on_sender, text}
use knot_link_sdk.Roles.Sender.Messages.{wire}
use knot_link_sdk.Qt.Connection.{QtClient, send_data, write_with_length_prefix}
use knot_link_sdk.Qt.Connection.Readings.{read_all}
use knot_link_sdk.Qt.Texts.{IsMessage, bytes_of}
use knot_link_sdk.Qt.Subscriber
use knot_link_sdk.Qt.Subscriber.Signals.{read_all-outputs_of}
use knot_link_sdk.Qt.Responser as QtResponser
use knot_link_sdk.Qt.Responser.Requests.{data_recv-separator}
use knot_link_sdk.Qt.Querier
use knot_link_sdk.Qt.Querier.{Listening, QtQuerier, query, query_l, returns, blocks, send_query_a}
use knot_link_sdk.Qt.Querier.Loops.{with_loop, query_l-verdict}
use knot_link_sdk.Qt.Querier.Messages.{opened, listening, verdict}
use knot_link_sdk.Qt.Querier.Replies.{query_l-last_text}
use knot_link_sdk.Qt.Sender as QtSending
use knot_link_sdk.Qt.Sender.Agreement.{emitt-wire}
use knot_link_sdk.Examples.Toolkit.{toolkit, client}

-- Texts of one byte
k_encodes : encode (codes "k") ≡ some (codes "k")
unfolding encode encode_point
k_encodes = refl

v_encodes : encode (codes "v") ≡ some (codes "v")
unfolding encode encode_point
v_encodes = refl

v_beat : seq_eq (codes "v") (codes "heartbeat_response") ≡ false
unfolding seq_eq
v_beat = refl

k_beat : seq_eq (codes "k") (codes "heartbeat_response") ≡ false
unfolding seq_eq
k_beat = refl

v-IsMessage : IsMessage (codes "v", codes "v")
v-IsMessage = record {
  encodes = v_encodes;
  sendable = record { some_byte = omega arith; in_limit = omega arith };
  no_heartbeat = v_beat;
}

k-IsMessage : IsMessage (codes "k", codes "k")
k-IsMessage = record {
  encodes = k_encodes;
  sendable = record { some_byte = omega arith; in_limit = omega arith };
  no_heartbeat = k_beat;
}

v_stream :
    (b'K' ∷ []) ++ concat ((b'K' ∷ 0 ∷ 2 ∷ 0 ∷ 0 ∷ 0 ∷ 1 ∷ b'v' ∷ []) ∷ [])
    ≡ frames (bytes_of ((codes "v", codes "v") ∷ []))
unfolding frame pack_u32
v_stream = refl

abbrev listener : QtClient toolkit (List Subscriber.Output)
listener = client [] []

read_all-outputs_of_example :
    (read_all toolkit
      (Subscriber.slots toolkit)
      ((b'K' ∷ []) ∷ (b'K' ∷ 0 ∷ 2 ∷ 0 ∷ 0 ∷ 0 ∷ 1 ∷ b'v' ∷ []) ∷ [])
      listener).host
    ≡ [] ++ (Subscriber.received_data_a (codes "v") ∷ Subscriber.received_data (codes "v") ∷ [])
read_all-outputs_of_example =
    read_all-outputs_of toolkit (b'K' ∷ []) ((b'K' ∷ 0 ∷ 2 ∷ 0 ∷ 0 ∷ 0 ∷ 1 ∷ b'v' ∷ []) ∷ [])
      ((codes "v", codes "v") ∷ []) listener refl (v-IsMessage, tt) v_stream

abbrev empty_queue : Queue
empty_queue = record { items = []; unfinished = 0 }

-- "v&*&v" is a payload with the separator in it.
v_v_encodes : encode (codes "v" ++ (separator ++ codes "v")) ≡ some (codes "v&*&v")
unfolding encode encode_point
v_v_encodes = refl

data_recv-separator_example :
    (QtResponser.data_recv (codes "k" ++ (separator ++ codes "v&*&v")) [] ≡ (ok tt, []))
    × (Responser.internal_data_recv (codes "k" ++ (separator ++ codes "v&*&v")) empty_queue
        ≡ (ok tt, put (codes "v" ++ (separator ++ codes "v"), codes "k") empty_queue))
data_recv-separator_example =
    data_recv-separator (codes "k") (codes "v") (codes "v") (codes "k") (codes "v&*&v") []
      empty_queue k_encodes v_v_encodes ((λ e. omega arith), tt) (λ e. ground arith)

abbrev quiet : Listening
quiet = listening false [] none

abbrev querier : QtQuerier toolkit
querier = record { app_id = codes "a"; open_socket_id = codes "b"; client = client [] quiet }

abbrev asking : QtQuerier toolkit
asking = record querier {
  client = record (client [] (listening false [] opened)) {
    tcp_socket = record { up = true; bytes = frame (codes "a-b&*&v") };
  };
}

sent : query toolkit (codes "v") (with_loop toolkit opened querier) ≡ (ok tt, asking)
unfolding query send_query_a encode encode_point send_data write_with_length_prefix frame pack_u32
sent = refl

-- A heartbeat's response, a text and a byte that is no text, in one event
abbrev some_messages : List Bytes
some_messages = codes "heartbeat_response" ∷ codes "v" ∷ (0xff ∷ []) ∷ []

query_l-verdict_example :
    (query_l toolkit (codes "v") (frames some_messages ∷ []) querier).0
    ≡ verdict blocks some_messages
query_l-verdict_example =
    query_l-verdict toolkit (codes "v") querier asking sent some_messages refl refl (
      record { some_byte = omega arith; in_limit = omega arith },
      (
        record { some_byte = omega arith; in_limit = omega arith },
        (record { some_byte = omega arith; in_limit = omega arith }, tt),
      ),
    )

-- Two replies in one event: the first is lost, and the second comes twice.
query_l-last_text_example :
    ((query_l toolkit (codes "v") (frames (codes "v" ∷ codes "k" ∷ []) ∷ []) querier).0
      ≡ returns (codes "k"))
    × ((query_l toolkit
          (codes "v")
          (frames (codes "v" ∷ codes "k" ∷ []) ∷ [])
          querier).1.client.host
        ≡ listening false
            ([] ++ (Querier.data_back_a (codes "k") ∷ Querier.data_back (codes "k") ∷ []))
            none)
query_l-last_text_example =
    query_l-last_text toolkit (codes "v") (codes "v") (codes "v") ((codes "k", codes "k") ∷ []) []
      querier asking sent refl refl v-IsMessage (k-IsMessage, tt)

abbrev plain_sender : SignalSender
plain_sender = record { app_id = some (codes "a"); signal_id = none; tcp = init (fresh true []) }

abbrev qt_sender : QtSending.QtSender toolkit (Unit {0})
qt_sender = record { app_id = some (codes "a"); signal_id = none; client = client [] tt }

emitt-wire_example :
    (Sender.emitt (text (codes "v")) plain_sender
      ≡ continue
          (wire (some (codes "a")) none (text (codes "v")))
          (λ bytes. on_sender (Tcp.send_data bytes))
          plain_sender)
    × (QtSending.emitt toolkit (text (codes "v")) qt_sender
        ≡ continue
            (wire (some (codes "a")) none (text (codes "v")))
            (QtSending.send toolkit)
            qt_sender)
emitt-wire_example = emitt-wire toolkit (text (codes "v")) plain_sender qt_sender
