-- ===== src/Qt/Subscriber/Signals.antt =====
-- SignalSubscriber.py of the PyQt variant: the signals that a stream gives rise to.
use knot_link_sdk.Base.{
  ◌≡◌, ap, sym, ◌∙◌, some, List, [], ◌∷◌, ◌++◌, append_assoc, append-nil, concat, All, if_false,
}
use knot_link_sdk.Text.Utf8.{Text, Bytes, decode}
use knot_link_sdk.Text.Utf8.RoundTrip.{decode-encode}
use knot_link_sdk.Tcp.Frames.{frames, consumed}
use knot_link_sdk.Qt.{Toolkit}
use knot_link_sdk.Qt.Texts.{IsMessage, bytes_of, IsSendable-bytes_of}
use knot_link_sdk.Qt.Connection.{QtClient}
use knot_link_sdk.Qt.Connection.Readings.{read_all}
use knot_link_sdk.Qt.Connection.Delivery.{read_all-frames}
use knot_link_sdk.Qt.Subscriber.{
  Output, received_data_a, received_data, data_recv, on_message, slots,
}

-- For each message the signal with its bytes, and then the one with its text.
abbrev pub outputs_of : List (Text × Bytes) → List Output
outputs_of [] = []
outputs_of ((s, b) ∷ signals) = received_data_a b ∷ received_data s ∷ outputs_of signals

on_message_text :
    (s : Text) (b : Bytes) (out : List Output)
    → decode b ≡ some s
    → on_message b out ≡ out ++ (received_data_a b ∷ received_data s ∷ [])
unfolding on_message data_recv
on_message_text s b out e =
    rw (e, on_message, data_recv) (append_assoc out (received_data_a b ∷ []) (received_data s ∷ []))

consumed_signals :
    (signals : List (Text × Bytes)) (out : List Output)
    → All IsMessage signals
    → consumed on_message (bytes_of signals) out ≡ out ++ outputs_of signals
consumed_signals [] out _ = sym (append-nil out)
consumed_signals ((s, b) ∷ signals) out (h, hs) =
    ap (consumed on_message (bytes_of signals)) (
      if_false out (on_message b out) h.no_heartbeat
      ∙ on_message_text s b out (decode-encode s b h.encodes).0)
    ∙ consumed_signals signals (out ++ (received_data_a b ∷ received_data s ∷ [])) hs
    ∙ append_assoc out (received_data_a b ∷ received_data s ∷ []) (outputs_of signals)

-- If the buffer is empty and the frames of texts arrive that are 1 byte to 16 MB long and no
-- heartbeat responses, cut in any way, the subscriber emits for each in order its bytes and then
-- its text, and nothing else.
pub read_all-outputs_of :
    (qt : Toolkit) (first : Bytes) (pieces : List Bytes) (signals : List (Text × Bytes))
    (c : QtClient qt (List Output))
    → c.buffer ≡ []
    → All IsMessage signals
    → first ++ concat pieces ≡ frames (bytes_of signals)
    → (read_all qt (slots qt) (first ∷ pieces) c).host ≡ c.host ++ outputs_of signals
read_all-outputs_of qt first pieces signals c empty h e =
    (read_all-frames qt on_message first pieces (bytes_of signals) c empty
      (IsSendable-bytes_of signals h) e).hosts
    ∙ consumed_signals signals c.host h
