-- ===== src/Examples/Connection.antt =====
-- tcpclient.py at concrete streams and calls.
use knot_link_sdk.Base.{
  false, ◌+◌, ◌<◌, true, ◌≡◌, refl, some, List, [], ◌∷◌, ◌++◌, codes, map, concat, length, arith,
  All,
}
use knot_link_sdk.Exec.{ok}
use knot_link_sdk.Wire.{pack_u32, Bytes, IsByte, IsSendable, frame, next_message}
use knot_link_sdk.Tcp.{
  Callback, Client, chunk, failure, init, connect_to_server, send_data, disconnect, process_buffer,
  process_round, receive_data,
}
use knot_link_sdk.Tcp.Net.{fresh}
use knot_link_sdk.Tcp.Frames.{frames, returning, consumed}
use knot_link_sdk.Tcp.Rounds.{process_buffer_lem}
use knot_link_sdk.Tcp.Refinement.{Parsed, process_buffer-Parsed}
use knot_link_sdk.Tcp.Receive.{SameView, receive_data-chunks}
use knot_link_sdk.Tcp.Memory.{recv_size, frame_limit, buffer-receive_data}
use knot_link_sdk.Tcp.Sending.{Sent, send_data-Sent}
use knot_link_sdk.Tcp.Invariant.{IsValid, IsValid-init}
use knot_link_sdk.Tcp.Calls.{with_tcp, here, next, connecting, sending, starting, Reach-IsValid}
use knot_link_sdk.Tcp.{start_heart_beat}
use knot_link_sdk.Tcp.Streams.{IsStream-empty}
use knot_link_sdk.Tcp.Soundness.{IsSound, Reach-IsSound}
use knot_link_sdk.Tcp.Final.{IsFinal, disconnect-IsFinal}
use knot_link_sdk.Tcp.Delivery.{receive_data-frames}

-- A callback that keeps what it gets
abbrev keep : Bytes → List Bytes → List Bytes
keep msg heard = heard ++ msg ∷ []

abbrev connected_to : Callback (List Bytes) → Bytes → Client (List Bytes)
connected_to callback buffer = record {
  tcp = record (init (fresh true [])) {
    connected = true;
    received_data_callback = some callback;
    buffer = buffer;
  };
  host = [];
}

-- The frame of "hi"
abbrev hi_frame : Bytes
hi_frame = b'K' ∷ b'K' ∷ 0 ∷ 2 ∷ 0 ∷ 0 ∷ 0 ∷ 2 ∷ b'h' ∷ b'i' ∷ []

abbrev reader : Client (List Bytes)
reader = connected_to (returning keep) (hi_frame ++ b'K' ∷ [])

reader_bytes : All IsByte (hi_frame ++ b'K' ∷ [])
reader_bytes = (
  omega arith,
  (
    omega arith,
    (
      omega arith,
      (
        omega arith,
        (
          omega arith,
          (
            omega arith,
            (omega arith, (omega arith, (omega arith, (omega arith, (omega arith, tt))))),
          ),
        ),
      ),
    ),
  ),
)

process_buffer-Parsed_example :
    (c' : Client (List Bytes)) × (process_buffer reader ≡ (ok tt, c')) × Parsed keep reader c'
process_buffer-Parsed_example = process_buffer-Parsed keep reader refl reader_bytes

receive_data-chunks_example :
    SameView
      (receive_data (chunk (1 ∷ []) ∷ map chunk ((2 ∷ []) ∷ hi_frame ∷ [])) reader)
      (receive_data (chunk ((1 ∷ []) ++ concat ((2 ∷ []) ∷ hi_frame ∷ [])) ∷ []) reader)
receive_data-chunks_example =
    receive_data-chunks 1 [] ((2 ∷ []) ∷ hi_frame ∷ []) reader refl
      ((λ e. ground arith), ((λ e. ground arith), tt))

abbrev new_client : Client (List Bytes)
new_client = record { tcp = init (fresh true []); host = [] }

abbrev online : Client (List Bytes)
online = with_tcp (connect_to_server (codes "127.0.0.1") 6370 new_client.tcp).1 new_client

abbrev after_sending : Client (List Bytes)
after_sending = with_tcp (send_data (codes "hi") online.tcp).1 online

Reach-IsValid_example : IsValid after_sending.tcp
Reach-IsValid_example =
    Reach-IsValid {c = new_client} {d = after_sending} (IsValid-init true [])
      (next (next here (connecting (codes "127.0.0.1") 6370)) (sending (codes "hi"))) ((tt, tt), tt)

new_client-IsSound : IsSound new_client.tcp
new_client-IsSound = record { linked = λ e. cc; before = λ _. refl; stream = IsStream-empty false }

-- The program starts a second timer.
abbrev two_timers : Client (List Bytes)
two_timers = with_tcp (start_heart_beat after_sending.tcp) after_sending

Reach-IsSound_example : IsSound two_timers.tcp
Reach-IsSound_example =
    Reach-IsSound {c = new_client} {d = two_timers} new_client-IsSound (
      next (next (next here (connecting (codes "127.0.0.1") 6370)) (sending (codes "hi"))) starting)

abbrev gone : Client (List Bytes)
gone = with_tcp (disconnect new_client.tcp) new_client

disconnect-IsFinal_example :
    IsFinal new_client.tcp.tcp_socket.sent new_client.host
      (with_tcp (send_data (codes "hi") gone.tcp).1 gone)
disconnect-IsFinal_example =
    disconnect-IsFinal {c = new_client} {d = with_tcp (send_data (codes "hi") gone.tcp).1 gone}
      (IsValid-init true []) (next here (sending (codes "hi")))

process_buffer_lem_example :
    process_buffer reader ≡ process_round process_buffer (next_message reader.tcp.buffer) reader
process_buffer_lem_example = process_buffer_lem reader

hi-IsSendable : IsSendable (codes "hi")
hi-IsSendable = record { some_byte = omega arith; in_limit = omega arith }

send_data-Sent_example :
    Sent
      (codes "hi")
      reader.tcp
      (send_data (codes "hi") reader.tcp).0
      (send_data (codes "hi") reader.tcp).1
send_data-Sent_example = send_data-Sent (codes "hi") reader.tcp refl

buffer-receive_data_example :
    length (receive_data (chunk hi_frame ∷ failure ∷ []) reader).1.tcp.buffer
    < frame_limit + recv_size
buffer-receive_data_example =
    buffer-receive_data (chunk hi_frame ∷ failure ∷ []) reader (omega arith) (omega arith, (tt, tt))

abbrev listener : Client (List Bytes)
listener = connected_to (returning keep) []

-- The stream of "hi" and "hi", in three chunks
two_frames :
    (b'K' ∷ []) ++ concat ((b'K' ∷ 0 ∷ []) ∷ (2 ∷ 0 ∷ 0 ∷ 0 ∷ 2 ∷ b'h' ∷ b'i' ∷ hi_frame) ∷ [])
    ≡ frames (codes "hi" ∷ codes "hi" ∷ [])
unfolding frame pack_u32
two_frames = refl

receive_data-frames_example :
    ((receive_data
        (chunk (b'K' ∷ [])
          ∷ map chunk ((b'K' ∷ 0 ∷ []) ∷ (2 ∷ 0 ∷ 0 ∷ 0 ∷ 2 ∷ b'h' ∷ b'i' ∷ hi_frame) ∷ []))
        listener).0
      ≡ ok tt)
    × ((receive_data
          (chunk (b'K' ∷ [])
            ∷ map chunk ((b'K' ∷ 0 ∷ []) ∷ (2 ∷ 0 ∷ 0 ∷ 0 ∷ 2 ∷ b'h' ∷ b'i' ∷ hi_frame) ∷ []))
          listener).1.host
        ≡ consumed keep (codes "hi" ∷ codes "hi" ∷ []) [])
receive_data-frames_example =
    receive_data-frames keep b'K' []
      ((b'K' ∷ 0 ∷ []) ∷ (2 ∷ 0 ∷ 0 ∷ 0 ∷ 2 ∷ b'h' ∷ b'i' ∷ hi_frame) ∷ [])
      (codes "hi" ∷ codes "hi" ∷ []) listener refl refl refl
      ((λ e. ground arith), ((λ e. ground arith), tt)) (hi-IsSendable, (hi-IsSendable, tt))
      two_frames
