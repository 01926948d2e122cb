-- ===== src/Examples/Writers.antt =====
-- tcpclient.py: two threads that send, and callbacks that call methods.
use knot_link_sdk.Base.{
  Bool, false, seq_eq, ◌≡◌, refl, ap, true, some, none, List, [], ◌∷◌, ◌++◌, map, concat, codes,
  arith, length, ltb, drop,
}
use knot_link_sdk.Text.Utf8.{Text, Bytes, encode, encode_point, decode_replace}
use knot_link_sdk.Text.Utf8.RoundTrip.{decode-encode}
use knot_link_sdk.Wire.{IsSendable, frame, pack_u32, heartbeat, heartbeat_response}
use knot_link_sdk.Wire.Scanning.{next_message_short}
use knot_link_sdk.Tcp.{Client, init, chunk, failure, receive_data}
use knot_link_sdk.Tcp.Net.{fresh}
use knot_link_sdk.Tcp.Frames.{frames, returning}
use knot_link_sdk.Tcp.Writers.Torn.{torn_at, IsGivenUp, receive_data-torn}
use knot_link_sdk.Tcp.Reentrant.{receive_data_by}
use knot_link_sdk.Roles.Querier.{Waiting, idle}
use knot_link_sdk.Tcp.Reentrant.Raising.{IsDown}
use knot_link_sdk.Roles.Querier.Nested.{
  internal_data_recv_by, ask, timed_out, receive_data_by-timed_out,
}
use knot_link_sdk.Roles.Subscriber.{Listener}
use knot_link_sdk.Roles.Subscriber.Signals.{texts_of}
use knot_link_sdk.Roles.Subscriber.Leaving.{
  data_recv_by, leave_if, any, HasLeft, receive_data_by-HasLeft,
}

abbrev keep : Bytes → List Bytes → List Bytes
keep msg heard = heard ++ msg ∷ []

abbrev reader : Client (List Bytes)
reader = record {
  tcp = record (init (fresh true [])) {
    connected = true;
    received_data_callback = some (returning keep);
  };
  host = [];
}

abbrev torn_rest : Bytes
torn_rest =
    b'K'
    ∷ 0
    ∷ 2
    ∷ b'K'
    ∷ b'K'
    ∷ 0
    ∷ 2
    ∷ 0
    ∷ 0
    ∷ 0
    ∷ 9
    ∷ (codes "heartbeat" ++ 0 ∷ 0 ∷ 0 ∷ 2 ∷ codes "hi")

torn : (b'K' ∷ []) ++ concat (torn_rest ∷ []) ≡ (torn_at 4 (codes "hi") heartbeat).sent
unfolding frame pack_u32
torn = refl

-- A heartbeat between the magic number and the length of a message
receive_data-torn_example :
    IsGivenUp [] (receive_data (chunk (b'K' ∷ []) ∷ map chunk (torn_rest ∷ [])) reader)
receive_data-torn_example =
    receive_data-torn 4 (codes "hi") heartbeat b'K' [] (torn_rest ∷ []) reader (omega arith)
      (omega arith) refl refl ((λ e. ground arith), tt) torn

-- A subscriber's function that disconnects on texts of at most one character
abbrev short : Text → Bool
short s = ltb (length s) 2

abbrev listener : Client Listener
listener = record {
  tcp = record (init (fresh true [])) { connected = true };
  host = record { callback = none; heard = [] };
}

x_encodes : encode (codes "x") ≡ some (codes "x")
unfolding encode encode_point
x_encodes = refl

x-IsSendable : IsSendable (codes "x")
x-IsSendable = record { some_byte = omega arith; in_limit = omega arith }

hi-IsSendable : IsSendable (codes "hi")
hi-IsSendable = record { some_byte = omega arith; in_limit = omega arith }

-- The frames of "x" and of "hi", and the first byte of another, without the first byte of all
abbrev stream_tail : Bytes
stream_tail =
    b'K' ∷ 0 ∷ 2 ∷ 0 ∷ 0 ∷ 0 ∷ 1 ∷ b'x' ∷ b'K' ∷ b'K' ∷ 0 ∷ 2 ∷ 0 ∷ 0 ∷ 0 ∷ 2 ∷ b'h' ∷ b'i' ∷ b'K'
    ∷ []

stream : [] ++ b'K' ∷ stream_tail ≡ frames (codes "x" ∷ codes "hi" ∷ []) ++ b'K' ∷ []
unfolding frame pack_u32
stream = refl

x_leaves : any short (texts_of (codes "x" ∷ codes "hi" ∷ [])) ≡ true
unfolding seq_eq
x_leaves =
    ap (λ s. any short (s ∷ decode_replace (codes "hi") ∷ []))
      (decode-encode (codes "x") (codes "x") x_encodes).1

receive_data_by-HasLeft_example : HasLeft (texts_of (codes "x" ∷ codes "hi" ∷ [])) (
    receive_data_by
      (data_recv_by (leave_if short))
      (chunk (b'K' ∷ stream_tail) ∷ failure ∷ [])
      listener)
receive_data_by-HasLeft_example =
    receive_data_by-HasLeft short b'K' stream_tail (codes "x" ∷ codes "hi" ∷ []) (b'K' ∷ [])
      (failure ∷ []) listener refl stream (x-IsSendable, (hi-IsSendable, tt))
      (next_message_short (b'K' ∷ []) (omega arith)) x_leaves

-- A querier whose function asks "x" on each text
abbrev asker : Client Waiting
asker = record { tcp = record (init (fresh true [])) { connected = true }; host = idle }

key_encodes : encode (codes "a-b&*&") ≡ some (codes "a-b&*&")
unfolding encode encode_point
key_encodes = refl

x_stream : [] ++ b'K' ∷ stream_tail ≡ frame (codes "x") ++ drop 8 stream_tail
unfolding frame pack_u32
x_stream = refl

x_no_beat : seq_eq (codes "x") heartbeat_response ≡ false
unfolding seq_eq
x_no_beat = refl

-- A text and the reply to the question behind it, in one chunk
receive_data_by-timed_out_example : IsDown (timed_out (decode_replace (codes "x")) idle) (
    receive_data_by
      (internal_data_recv_by (ask (some (codes "a")) (some (codes "b")) (codes "x") 5))
      (chunk (b'K' ∷ stream_tail) ∷ [])
      asker)
receive_data_by-timed_out_example =
    receive_data_by-timed_out (some (codes "a")) (some (codes "b")) (codes "x") 5 (codes "x")
      (codes "a-b&*&") b'K' stream_tail (codes "x") (drop 8 stream_tail) [] asker x_encodes
      key_encodes (omega arith) refl refl x_stream x-IsSendable x_no_beat
