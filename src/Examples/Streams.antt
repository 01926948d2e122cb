-- ===== src/Examples/Streams.antt =====
-- tcpclient.py with a sender at the other end, SignalSubscriber.py and OpenSocketQuerier.py on
-- concrete streams.
use knot_link_sdk.Base.{
  inr, ◌≡◌, refl, ap, true, false, none, some, ltb, length, if◌then◌else◌, List, [], ◌∷◌, ◌++◌, map,
  concat, codes, arith, seq_eq,
}
use knot_link_sdk.Exec.{other_error, ok, raised}
use knot_link_sdk.Text.Utf8.{Bytes, encode, encode_point, decode_replace}
use knot_link_sdk.Text.Utf8.RoundTrip.{decode-encode}
use knot_link_sdk.Wire.{IsSendable, frame, pack_u32}
use knot_link_sdk.Tcp.{
  TcpClient, Client, Callback, init, chunk, receive_data, send_data, write_with_length_prefix,
}
use knot_link_sdk.Tcp.Net.{fresh, sendall}
use knot_link_sdk.Tcp.Frames.{frames, returning}
use knot_link_sdk.Tcp.Raises.{IsStopped}
use knot_link_sdk.Tcp.Transfer.{send_all, Received, receive_data-send_all}
use knot_link_sdk.Roles.{UserFunction}
use knot_link_sdk.Roles.Subscriber.{Listener, data_recv}
use knot_link_sdk.Roles.Subscriber.Signals.{hear, texts_of, receive_data-heard, receive_data-stops}
use knot_link_sdk.Roles.Querier.{Querier, Waiting, idle, internal_data_recv}
use knot_link_sdk.Roles.Querier.Arrivals.{replied, receive_data-replied, receive_data-call_back}

hi-IsSendable : IsSendable (codes "hi")
hi-IsSendable = record { some_byte = omega arith; in_limit = omega arith }

-- The frame of "hi", without its first byte
abbrev tail_of_hi : Bytes
tail_of_hi = b'K' ∷ 0 ∷ 2 ∷ 0 ∷ 0 ∷ 0 ∷ 2 ∷ b'h' ∷ b'i' ∷ []

abbrev connected_to : {S : Type 0} → Callback S → S → Client S
connected_to callback host = record {
  tcp = record (init (fresh true [])) { connected = true; received_data_callback = some callback };
  host = host;
}

abbrev keep : Bytes → List Bytes → List Bytes
keep msg heard = heard ++ msg ∷ []

-- A sender whose second `sendall` fails after three bytes
abbrev sender : TcpClient (List Bytes)
sender = record (init (fresh true (none ∷ some 3 ∷ []))) { connected = true }

-- One frame, and three bytes of another
sent_bytes :
    (b'K' ∷ []) ++ concat (tail_of_hi ∷ (b'K' ∷ b'K' ∷ 0 ∷ []) ∷ [])
    ≡ (send_all (codes "hi" ∷ codes "hi" ∷ codes "hi" ∷ []) sender).1.tcp_socket.sent
unfolding send_data write_with_length_prefix sendall frame pack_u32
sent_bytes = refl

receive_data-send_all_example :
    Received keep
      (codes "hi" ∷ codes "hi" ∷ codes "hi" ∷ [])
      []
      (send_all (codes "hi" ∷ codes "hi" ∷ codes "hi" ∷ []) sender)
      (receive_data
        (chunk (b'K' ∷ []) ∷ map chunk (tail_of_hi ∷ (b'K' ∷ b'K' ∷ 0 ∷ []) ∷ []))
        (connected_to (returning keep) []))
receive_data-send_all_example =
    receive_data-send_all keep (codes "hi" ∷ codes "hi" ∷ codes "hi" ∷ []) sender b'K' []
      (tail_of_hi ∷ (b'K' ∷ b'K' ∷ 0 ∷ []) ∷ []) (connected_to (returning keep) []) refl refl
      (hi-IsSendable, (hi-IsSendable, (hi-IsSendable, tt))) refl refl refl
      ((λ e. ground arith), ((λ e. ground arith), tt)) sent_bytes

-- A user's function that takes texts of at most two characters
abbrev picky : UserFunction (Unit {0})
picky text = if ltb (length text) 3 then ok tt else raised other_error

abbrev listener : Client Listener
listener = connected_to data_recv (record { callback = some picky; heard = [] })

hi_encodes : encode (codes "hi") ≡ some (codes "hi")
unfolding encode encode_point
hi_encodes = refl

hi-accepted : picky (decode_replace (codes "hi")) ≡ ok tt
hi-accepted = ap picky (decode-encode (codes "hi") (codes "hi") hi_encodes).1

now_encodes : encode (codes "now") ≡ some (codes "now")
unfolding encode encode_point
now_encodes = refl

now-refused : picky (decode_replace (codes "now")) ≡ raised other_error
now-refused = ap picky (decode-encode (codes "now") (codes "now") now_encodes).1

now-IsSendable : IsSendable (codes "now")
now-IsSendable = record { some_byte = omega arith; in_limit = omega arith }

no_beat : seq_eq (codes "now") (codes "heartbeat_response") ≡ false
unfolding seq_eq
no_beat = refl

one_frame : (b'K' ∷ []) ++ concat (tail_of_hi ∷ []) ≡ frames (codes "hi" ∷ [])
unfolding frame pack_u32
one_frame = refl

two_frames :
    (b'K' ∷ [])
      ++ concat (
          (tail_of_hi ++ b'K' ∷ b'K' ∷ 0 ∷ 2 ∷ 0 ∷ 0 ∷ 0 ∷ 3 ∷ b'n' ∷ b'o' ∷ b'w' ∷ b'K' ∷ []) ∷ [])
    ≡ frames (codes "hi" ∷ []) ++ (frame (codes "now") ++ b'K' ∷ [])
unfolding frame pack_u32
two_frames = refl

receive_data-heard_example :
    ((receive_data (chunk (b'K' ∷ []) ∷ map chunk (tail_of_hi ∷ [])) listener).0 ≡ ok tt)
    × ((receive_data (chunk (b'K' ∷ []) ∷ map chunk (tail_of_hi ∷ [])) listener).1.host.heard
        ≡ [] ++ texts_of (codes "hi" ∷ []))
receive_data-heard_example =
    receive_data-heard picky b'K' [] (tail_of_hi ∷ []) (codes "hi" ∷ []) listener refl refl refl
      refl ((λ e. ground arith), tt) (hi-IsSendable, tt) (hi-accepted, tt) one_frame

receive_data-stops_example :
    IsStopped other_error
      (hear (texts_of (codes "hi" ∷ []) ++ decode_replace (codes "now") ∷ []) listener.host)
      (receive_data
        (chunk (b'K' ∷ [])
          ∷ map chunk (
              (tail_of_hi ++ b'K' ∷ b'K' ∷ 0 ∷ 2 ∷ 0 ∷ 0 ∷ 0 ∷ 3 ∷ b'n' ∷ b'o' ∷ b'w' ∷ b'K' ∷ [])
              ∷ []))
        listener)
receive_data-stops_example =
    receive_data-stops picky b'K' []
      ((tail_of_hi ++ b'K' ∷ b'K' ∷ 0 ∷ 2 ∷ 0 ∷ 0 ∷ 0 ∷ 3 ∷ b'n' ∷ b'o' ∷ b'w' ∷ b'K' ∷ []) ∷ [])
      (codes "hi" ∷ []) (codes "now") (b'K' ∷ []) other_error listener refl refl refl refl
      ((λ e. ground arith), tt) (hi-IsSendable, tt) (hi-accepted, tt) now-IsSendable no_beat
      now-refused two_frames

-- A querier that waits for a reply
abbrev querier : Querier
querier = record {
  app_id = some (codes "app");
  open_socket_id = some (codes "id");
  client = connected_to internal_data_recv (record idle { is_querying = true });
}

receive_data-replied_example :
    ((receive_data (chunk (b'K' ∷ []) ∷ map chunk (tail_of_hi ∷ [])) querier.client).0 ≡ ok tt)
    × ((receive_data (chunk (b'K' ∷ []) ∷ map chunk (tail_of_hi ∷ [])) querier.client).1.host
        ≡ replied (texts_of (codes "hi" ∷ [])) querier.client.host)
receive_data-replied_example =
    receive_data-replied b'K' [] (tail_of_hi ∷ []) (codes "hi" ∷ []) querier.client refl refl refl
      ((λ e. ground arith), tt) (hi-IsSendable, tt) one_frame (tt, tt)
      (record { asking = refl; in_time = refl })

-- A querier whose query has timed out just now
abbrev late : Client Waiting
late =
    connected_to internal_data_recv
      (record idle { is_querying = true; timeout_occurred = true; callback = some (λ text. ok tt) })

receive_data-call_back_example :
    ((receive_data (chunk (b'K' ∷ []) ∷ map chunk (tail_of_hi ∷ [])) late).0 ≡ ok tt)
    × ((receive_data (chunk (b'K' ∷ []) ∷ map chunk (tail_of_hi ∷ [])) late).1.host
        ≡ record late.host { heard = late.host.heard ++ texts_of (codes "hi" ∷ []) })
receive_data-call_back_example =
    receive_data-call_back b'K' [] (tail_of_hi ∷ []) (codes "hi" ∷ []) late refl refl refl
      ((λ e. ground arith), tt) (hi-IsSendable, tt) one_frame (λ text. ok tt) refl (refl, tt)
      (inr refl)
