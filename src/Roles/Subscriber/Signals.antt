-- ===== src/Roles/Subscriber/Signals.antt =====
-- SignalSubscriber.py over its TcpClient: what the user's callback gets of a stream, and how an
-- exception of it ends the reading.
use knot_link_sdk.Base.{
  ℕ, ◌≡◌, ◌≢◌, refl, ap, sym, ◌∙◌, true, false, inl, inr, some, List, [], ◌∷◌, ◌++◌, append_assoc,
  append-nil, map, concat, All, seq_eq, if◌then◌else◌, Bool-cases,
}
use knot_link_sdk.Exec.{Exc, ok, raised}
use knot_link_sdk.Text.Utf8.{Text, Bytes, decode_replace}
use knot_link_sdk.Wire.{IsSendable, frame, heartbeat_response}
use knot_link_sdk.Tcp.{Client, chunk, receive_data}
use knot_link_sdk.Tcp.Frames.{frames, consumed}
use knot_link_sdk.Tcp.Returns.{Returns, receive_data-returns}
use knot_link_sdk.Tcp.Raises.{IsStopped, receive_data-raises}
use knot_link_sdk.Roles.{UserFunction}
use knot_link_sdk.Roles.Subscriber.{Listener, call_back, data_recv}

-- The texts of the messages that are no heartbeat responses.
abbrev pub texts_of : List Bytes → List Text
texts_of [] = []
texts_of (msg ∷ msgs) =
    let texts = texts_of msgs in
    if seq_eq msg heartbeat_response then texts else decode_replace msg ∷ texts

abbrev pub hear : List Text → Listener → Listener
hear texts l = record l { heard = l.heard ++ texts }

abbrev step : Bytes → Listener → Listener
step msg = hear (decode_replace msg ∷ [])

hear-nil : (l : Listener) → hear [] l ≡ l
hear-nil l = ap (λ texts. record l { heard = texts }) (append-nil l.heard)

hear-append : (xs ys : List Text) (l : Listener) → hear ys (hear xs l) ≡ hear (xs ++ ys) l
hear-append xs ys l = ap (λ texts. record l { heard = texts }) (append_assoc l.heard xs ys)

consumed-hear : (msgs : List Bytes) (l : Listener) → consumed step msgs l ≡ hear (texts_of msgs) l
consumed-hear [] l = sym (hear-nil l)
consumed-hear (msg ∷ msgs) l = elim (Bool-cases (seq_eq msg heartbeat_response)) [
  | inl e ↦ rw e (consumed-hear msgs l)
  | inr e ↦
      rw e
        (consumed-hear msgs (step msg l) ∙ hear-append (decode_replace msg ∷ []) (texts_of msgs) l)
]

-- The function returns on the text of this message.
abbrev pub Accepts : UserFunction (Unit {0}) → Bytes → Type 0
Accepts f msg = f (decode_replace msg) ≡ ok tt

data_recv-set :
    (f : UserFunction (Unit {0})) (msg : Bytes) (l : Listener)
    → l.callback ≡ some f
    → data_recv msg l ≡ (f (decode_replace msg), step msg l)
unfolding data_recv call_back
data_recv-set f msg l set = rw set refl

data_recv-Returns :
    (f : UserFunction (Unit {0})) → Returns (λ l. l.callback ≡ some f) (Accepts f) data_recv step
data_recv-Returns f = record {
  returns = λ msg l q set. data_recv-set f msg l set ∙ ap (λ r. (r, step msg l)) q;
  keeps = λ msg l q set. set;
}

-- On a connected subscriber with an empty buffer whose user's function is set and returns on the
-- texts of these messages, the frames of the messages (1 byte to 16 MB), cut in any way into
-- chunks that are not empty, are received without an exception, and the function is called with
-- the texts in their order, bytes that are no UTF-8 replaced and heartbeat responses left out.
pub receive_data-heard :
    (f : UserFunction (Unit {0})) (x : ℕ) (xs : Bytes) (chunks msgs : List Bytes)
    (c : Client Listener)
    → c.tcp.connected ≡ true
    → c.tcp.received_data_callback ≡ some data_recv
    → c.tcp.buffer ≡ []
    → c.host.callback ≡ some f
    → All (λ piece. piece ≢ []) chunks
    → All IsSendable msgs
    → All (Accepts f) msgs
    → (x ∷ xs) ++ concat chunks ≡ frames msgs
    → ((receive_data (chunk (x ∷ xs) ∷ map chunk chunks) c).0 ≡ ok tt)
      × ((receive_data (chunk (x ∷ xs) ∷ map chunk chunks) c).1.host.heard
          ≡ c.host.heard ++ texts_of msgs)
receive_data-heard f x xs chunks msgs c on set empty has_f full s qs stream =
    let (result, hosts) =
      receive_data-returns (λ l. l.callback ≡ some f) (Accepts f) data_recv step
        (data_recv-Returns f) x xs chunks msgs c on set empty has_f full s qs stream in
    (result, ap (λ l. l.heard) (hosts ∙ consumed-hear msgs c.host))

-- On a connected subscriber with an empty buffer, if the user's function returns on the texts of
-- some messages and raises on that of the next one, which is no heartbeat response, then of a
-- stream that begins with the frames of these, cut in any way into chunks that are not empty, the
-- function is called with the texts up to and including that one, and with no later one. A socket
-- error ends the reading quietly and leaves the client not connected; any other exception
-- escapes, and the client still counts as connected.
pub receive_data-stops :
    (f : UserFunction (Unit {0})) (x : ℕ) (xs : Bytes) (chunks msgs : List Bytes) (msg rest : Bytes)
    (e : Exc) (c : Client Listener)
    → c.tcp.connected ≡ true
    → c.tcp.received_data_callback ≡ some data_recv
    → c.tcp.buffer ≡ []
    → c.host.callback ≡ some f
    → All (λ piece. piece ≢ []) chunks
    → All IsSendable msgs
    → All (Accepts f) msgs
    → IsSendable msg
    → seq_eq msg heartbeat_response ≡ false
    → f (decode_replace msg) ≡ raised e
    → (x ∷ xs) ++ concat chunks ≡ frames msgs ++ (frame msg ++ rest)
    → IsStopped e
        (hear (texts_of msgs ++ decode_replace msg ∷ []) c.host)
        (receive_data (chunk (x ∷ xs) ∷ map chunk chunks) c)
receive_data-stops f x xs chunks msgs msg rest e c on set empty has_f full ss qs s no_beat raises
      stream =
    receive_data-raises (λ l. l.callback ≡ some f) (Accepts f) data_recv step (data_recv-Returns f)
      x xs chunks msgs msg rest e (hear (texts_of msgs ++ decode_replace msg ∷ []) c.host) c on set
      empty has_f full ss qs s no_beat
      (ap (data_recv msg) (consumed-hear msgs c.host)
        ∙ data_recv-set f msg (hear (texts_of msgs) c.host) has_f
        ∙ ap (λ r. (r, step msg (hear (texts_of msgs) c.host))) raises
        ∙ ap (λ l. (raised e, l)) (hear-append (texts_of msgs) (decode_replace msg ∷ []) c.host))
      stream
