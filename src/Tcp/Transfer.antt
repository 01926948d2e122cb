-- ===== src/Tcp/Transfer.antt =====
-- tcpclient.py: one client sends messages, and what its socket has taken arrives at another client.
use knot_link_sdk.Base.{
  ℕ, zero, suc, Option, ◌≡◌, ◌≢◌, refl, ap, sym, ◌∙◌, true, false, some, List, [], ◌∷◌, ◌++◌,
  append-nil, append_assoc, arith, take, drop, take-append-drop, map, concat, All,
}
use knot_link_sdk.Exec.{Result, ok, Exec, pure, continue, ◌>>◌}
use knot_link_sdk.Wire.{Bytes, IsSendable, frame, incomplete, next_message}
use knot_link_sdk.Wire.Scanning.{next_message_short}
use knot_link_sdk.Wire.Prefixes.{next_message_part}
use knot_link_sdk.Tcp.{TcpClient, Client, chunk, send_data, receive_data}
use knot_link_sdk.Tcp.Frames.{frames, returning, consumed}
use knot_link_sdk.Tcp.Returns.{no_condition, receive_data-partial}
use knot_link_sdk.Tcp.Delivery.{returning-Returns}
use knot_link_sdk.Tcp.Sending.{
  Sent, too_long, whole, broken, dead, taken, send_data-Sent, send_data-off,
}

-- A program that sends these messages, one `send_data` each.
abbrev pub send_all : {S : Type 0} → List Bytes → Exec (TcpClient S) (Unit {0})
send_all [] = pure tt
send_all (msg ∷ msgs) = send_data msg >> send_all msgs

waits_empty : next_message [] ≡ incomplete
waits_empty = next_message_short [] (omega arith)

module _ {S : Type 0} where
  -- The calls did not raise. The socket has taken the frames of the first `count` messages, and
  -- perhaps a part of the next one; if the client is still connected, `count` is all of them.
  record Transmitted (msgs : List Bytes) (t : TcpClient S) (r : Result (Unit {0}))
      (t' : TcpClient S) : Type 0 where
    count : ℕ
    part : Bytes
    result : r ≡ ok tt
    sent : t'.tcp_socket.sent ≡ t.tcp_socket.sent ++ (frames (take count msgs) ++ part)
    waits : next_message part ≡ incomplete
    complete : t'.connected ≡ true → take count msgs ≡ msgs

  send_all-off :
      (msgs : List Bytes) (t : TcpClient S) → t.connected ≡ false → send_all msgs t ≡ (ok tt, t)
  send_all-off [] t off = refl
  send_all-off (msg ∷ msgs) t off = rw (send_data-off msg t off) (send_all-off msgs t off)

  -- A client that has lost its connection with the first message.
  module _ (msg : Bytes) (msgs : List Bytes) (t t' : TcpClient S) (off : t'.connected ≡ false)
      (sendable : IsSendable msg) where
    lost :
        (part : Bytes)
        → t'.tcp_socket.sent ≡ t.tcp_socket.sent ++ part
        → next_message part ≡ incomplete
        → Transmitted (msg ∷ msgs) t (ok tt) t'
    lost part e w = record {
      count = 0;
      part = part;
      result = refl;
      sent = e;
      waits = w;
      complete = λ on. cc;
    }

    broken_off :
        (part rest : Bytes)
        → part ++ rest ≡ frame msg
        → t'.tcp_socket.sent ≡ t.tcp_socket.sent ++ part
        → Transmitted (msg ∷ msgs) t (ok tt) t'
    broken_off part (y ∷ rest) split e =
        lost part e (next_message_part part y rest msg sendable split)
    broken_off part [] split e = record {
      count = 1;
      part = [];
      result = refl;
      sent =
          e ∙ ap (λ b. t.tcp_socket.sent ++ b) (sym (append-nil part) ∙ split ∙ simp (append-nil));
      waits = waits_empty;
      complete = λ on. cc;
    }

  -- After the first message, sent as a whole, the others.
  later :
      (msg : Bytes) (msgs : List Bytes) (faults : List (Option ℕ)) (t : TcpClient S)
      (r : Result (Unit {0})) (t' : TcpClient S)
      → Transmitted msgs (taken t (frame msg) faults) r t'
      → Transmitted (msg ∷ msgs) t r t'
  later msg msgs faults t r t' h = record {
    count = suc h.count;
    part = h.part;
    result = h.result;
    sent = h.sent ∙ simp (append_assoc);
    waits = h.waits;
    complete = λ on. ap (λ xs. msg ∷ xs) (h.complete on);
  }

  send_all-sent :
      (msg : Bytes) (msgs : List Bytes) (t : TcpClient S) (r : Result (Unit {0})) (t' : TcpClient S)
      → t.connected ≡ true
      → IsSendable msg
      → ((u : TcpClient S)
          → u.connected ≡ true
          → Transmitted msgs u (send_all msgs u).0 (send_all msgs u).1)
      → Sent msg t r t'
      → (let (r', t'') = continue r (λ _. send_all msgs) t' in Transmitted (msg ∷ msgs) t r' t'')
  send_all-sent msg msgs t r t' on s ih (too_long long _ _) =
      absurd (omega (arith, s.in_limit, long))
  send_all-sent msg msgs t r t' on s ih (whole faults _ e e') =
      rw (e, e') (later msg msgs faults t _ _ (ih (taken t (frame msg) faults) on))
  send_all-sent msg msgs t r t' on s ih (broken n faults _ e e') =
      let u = record (taken t (take n (frame msg)) faults) { connected = false } in
      rw (e, e', send_all-off msgs u refl)
        (broken_off msg msgs t u refl s (take n (frame msg)) (drop n (frame msg))
          (take-append-drop n (frame msg)) refl)
  send_all-sent msg msgs t r t' on s ih (dead _ _ e e') =
      let u = record t { connected = false } in
      rw (e, e', send_all-off msgs u refl)
        (lost msg msgs t u refl s [] (sym (append-nil t.tcp_socket.sent)) waits_empty)

  send_all-Transmitted :
      (msgs : List Bytes) (t : TcpClient S)
      → t.connected ≡ true
      → All IsSendable msgs
      → Transmitted msgs t (send_all msgs t).0 (send_all msgs t).1
  send_all-Transmitted [] t on _ = record {
    count = 0;
    part = [];
    result = refl;
    sent = sym (append-nil t.tcp_socket.sent);
    waits = waits_empty;
    complete = λ _. refl;
  }
  send_all-Transmitted (msg ∷ msgs) t on (s, ss) =
      send_all-sent msg msgs t (send_data msg t).0 (send_data msg t).1 on s
        (λ u up. send_all-Transmitted msgs u up ss) (send_data-Sent msg t on)

-- At the receiver: it has read without an exception, its callback has got the first `count` messages,
-- heartbeat responses left out; if the sender is still connected, these are all.
pub record Received {S R : Type 0} (step : Bytes → R → R) (msgs : List Bytes) (host : R)
    (sender : Result (Unit {0}) × TcpClient S) (receiver : Result (Unit {0}) × Client R)
    : Type 0 where
  pub count : ℕ
  pub sending : sender.0 ≡ ok tt
  pub receiving : receiver.0 ≡ ok tt
  pub hosts : receiver.1.host ≡ consumed step (take count msgs) host
  pub complete : sender.1.connected ≡ true → take count msgs ≡ msgs

All-take : {A : Type 0} (P : A → Type 0) (n : ℕ) (xs : List A) → All P xs → All P (take n xs)
All-take P zero xs h = tt
All-take P (suc n) [] h = tt
All-take P (suc n) (x ∷ xs) (p, ps) = (p, All-take P n xs ps)

module _ {S R : Type 0} (step : Bytes → R → R) where
  -- A connected client that has sent nothing sends messages of 1 byte to 16 MB, one `send_data`
  -- each, whatever errors its socket meets. What its socket has taken arrives, cut in any way
  -- into chunks that are not empty, the first one included, at a connected client with an empty
  -- buffer whose callback returns. No call raises, and the callback gets the first messages in
  -- their order, heartbeat responses left out: all of them, if the sender is still connected.
  pub receive_data-send_all :
      (msgs : List Bytes) (t : TcpClient S) (x : ℕ) (xs : Bytes) (chunks : List Bytes)
      (c : Client R)
      → t.connected ≡ true
      → t.tcp_socket.sent ≡ []
      → All IsSendable msgs
      → c.tcp.connected ≡ true
      → c.tcp.received_data_callback ≡ some (returning step)
      → c.tcp.buffer ≡ []
      → All (λ piece. piece ≢ []) chunks
      → (x ∷ xs) ++ concat chunks ≡ (send_all msgs t).1.tcp_socket.sent
      → Received step msgs c.host
          (send_all msgs t)
          (receive_data (chunk (x ∷ xs) ∷ map chunk chunks) c)
  receive_data-send_all msgs t x xs chunks c up new s on set empty full stream =
      let h = send_all-Transmitted msgs t up s in
      let first = take h.count msgs in
      let (receiving, hosts) =
        receive_data-partial (λ _. Unit {0}) (λ _. Unit {0}) (returning step) step
          (returning-Returns step) x xs chunks first h.part c on set empty tt full
          (All-take IsSendable h.count msgs s) (no_condition first) h.waits
          (stream ∙ h.sent ∙ ap (λ b. b ++ (frames first ++ h.part)) new) in
      record {
        count = h.count;
        sending = h.result;
        receiving = receiving;
        hosts = hosts;
        complete = h.complete;
      }
