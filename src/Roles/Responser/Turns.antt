-- ===== src/Roles/Responser/Turns.antt =====
-- OpenSocketResponser.py: the reading thread and the thread of `_process_queue` take turns, in any order.
use knot_link_sdk.Base.{
  ℕ, ◌+◌, ◌≡◌, refl, ap, sym, subst, ◌∙◌, Option, some, List, [], ◌∷◌, ◌++◌, append-nil,
  append_assoc, arith, length, length-append, All, All-append_left, All-append_right,
}
use knot_link_sdk.Exec.{Result, ok, Exec, pure, ◌>>◌}
use knot_link_sdk.Text.Utf8.{Text, Bytes}
use knot_link_sdk.Wire.{incomplete, next_message, frame}
use knot_link_sdk.Tcp.{Client, chunk, receive_data, with_buffer}
use knot_link_sdk.Tcp.Frames.{frames}
use knot_link_sdk.Tcp.Splits.{Split-frames}
use knot_link_sdk.Tcp.Returns.{no_condition, receive_data-event}
use knot_link_sdk.Roles.{UserFunction}
use knot_link_sdk.Roles.Responser.{Queue, Responser, internal_data_recv, process_queue}
use knot_link_sdk.Roles.Responser.Service.{IsUp, idle, step, items_of, message_of}
use knot_link_sdk.Roles.Responser.Deliveries.{
  requests_bytes, queue, queued, recv_step, recv_step-Returns, consumed_requests,
  IsSendable-requests,
}
use knot_link_sdk.Roles.Responser.Exchanges.{
  Exchange, IsExchange, job_of, requests_of, jobs_of, incoming, outgoing, IsRequest-requests_of,
  items_of-queued, outgoing-append, length-requests_of, requests_split,
}

-- The reading thread gets a chunk that is not empty, or the other thread does a round of its loop.
pub data Turn : Type 0 where
  reads : ℕ → Bytes → Turn
  serves : Turn

abbrev pub take_turn : Turn → Exec Responser (Unit {0})
take_turn (reads x xs) s =
    let (r, c) = receive_data (chunk (x ∷ xs) ∷ []) s.client in (r, record s { client = c })
take_turn serves s = process_queue 1 s

abbrev pub run : List Turn → Exec Responser (Unit {0})
run [] = pure tt
run (turn ∷ turns) = take_turn turn >> run turns

abbrev pub stream_of : List Turn → Bytes
stream_of [] = []
stream_of (reads x xs ∷ turns) = (x ∷ xs) ++ stream_of turns
stream_of (serves ∷ turns) = stream_of turns

-- Some exchanges are done, some wait in the queue, and `rest` completes the others.
pub record Holds (f : UserFunction (Option Text)) (es : List Exchange) (sent rest : Bytes)
    (s : Responser) : Type 0 where
  pub done : List Exchange
  pub pending : List Exchange
  pub future : List Exchange
  pub all : es ≡ (done ++ pending) ++ future
  pub answered : s.client.tcp.tcp_socket.sent ≡ sent ++ outgoing done
  pub items : s.client.host.items ≡ items_of (jobs_of pending)
  pub counted : s.client.host.unfinished ≡ length pending
  pub coming : s.client.tcp.buffer ++ rest ≡ incoming future
  pub waits : next_message s.client.tcp.buffer ≡ incomplete
  pub up : IsUp s.client.tcp
  pub set : s.client.tcp.received_data_callback ≡ some internal_data_recv
  pub func : s.recv_func ≡ some f

-- The turn returned, and so it stands afterwards.
abbrev pub Goes :
    UserFunction (Option Text)
    → List Exchange
    → Bytes
    → Bytes
    → Result (Unit {0}) × Responser
    → Type 0
Goes f es sent rest p = (p.0 ≡ ok tt) × Holds f es sent rest p.1

-- The client when these exchanges have arrived and `part` is left.
abbrev fed : Bytes → List Exchange → Client Queue → Client Queue
fed part now c = record (with_buffer part c) {
  host =
      queue (c.host.items ++ queued (requests_of now))
        (c.host.unfinished + length (requests_of now));
}

module _ (f : UserFunction (Option Text)) (es : List Exchange) (good : All (IsExchange f) es)
    (sent : Bytes) where
  pub good_future :
      (rest : Bytes) (s : Responser) (h : Holds f es sent rest s) → All (IsExchange f) h.future
  good_future rest s h =
      All-append_right (IsExchange f) (h.done ++ h.pending) h.future
        (subst (All (IsExchange f)) h.all good)

  pub good_pending :
      (rest : Bytes) (s : Responser) (h : Holds f es sent rest s) → All (IsExchange f) h.pending
  good_pending rest s h = All-append_right (IsExchange f) h.done h.pending (
      All-append_left (IsExchange f) (h.done ++ h.pending) h.future
        (subst (All (IsExchange f)) h.all good))

  -- The event hands over the exchanges `now`.
  receive_data-fed :
      (x : ℕ) (xs part : Bytes) (now : List Exchange) (c : Client Queue)
      → IsUp c.tcp
      → c.tcp.received_data_callback ≡ some internal_data_recv
      → All (IsExchange f) now
      → next_message part ≡ incomplete
      → c.tcp.buffer ++ x ∷ xs ≡ incoming now ++ part
      → receive_data (chunk (x ∷ xs) ∷ []) c ≡ (ok tt, fed part now c)
  receive_data-fed x xs part now c up set hs waits stream =
      let asked = IsRequest-requests_of f now hs in
      let msgs = requests_bytes (requests_of now) in
      receive_data-event (λ _. Unit {0}) (λ _. Unit {0}) internal_data_recv recv_step
        recv_step-Returns x xs msgs part c up.on set tt
        (IsSendable-requests (requests_of now) asked) (no_condition msgs) waits stream
      ∙ ap (λ q. (ok tt, record (with_buffer part c) { host = q }))
          (consumed_requests (requests_of now) c.host asked)

  Holds-fed :
      (part rest rest' : Bytes) (now later : List Exchange) (s : Responser)
      (h : Holds f es sent rest s)
      → h.future ≡ now ++ later
      → part ++ rest' ≡ incoming later
      → next_message part ≡ incomplete
      → Holds f es sent rest' (record s { client = fed part now s.client })
  Holds-fed part rest rest' now later s h all coming waits = record {
    done = h.done;
    pending = h.pending ++ now;
    future = later;
    all = h.all ∙ ap (λ z. (h.done ++ h.pending) ++ z) all ∙ simp (append_assoc);
    answered = h.answered;
    items = ap (λ z. z ++ queued (requests_of now)) h.items ∙ items_of-queued h.pending now;
    counted = omega (arith, h.counted, length-requests_of now, length-append h.pending now);
    coming = coming;
    waits = waits;
    up = record { on = h.up.on; open_ = h.up.open_; faultless = h.up.faultless };
    set = h.set;
    func = h.func;
  }

  reads-Goes :
      (x : ℕ) (xs rest : Bytes) (s : Responser)
      → Holds f es sent ((x ∷ xs) ++ rest) s
      → Goes f es sent rest (take_turn (reads x xs) s)
  reads-Goes x xs rest s h =
      let split =
        Split-frames (requests_bytes (requests_of h.future)) (s.client.tcp.buffer ++ x ∷ xs) rest
          (IsSendable-requests (requests_of h.future)
            (IsRequest-requests_of f h.future (good_future ((x ∷ xs) ++ rest) s h)))
          (append_assoc s.client.tcp.buffer (x ∷ xs) rest ∙ h.coming) in
      let (now, later, all, first, second) =
        requests_split h.future split.now split.later split.all in
      let good_now =
        All-append_left (IsExchange f) now later
          (subst (All (IsExchange f)) all (good_future ((x ∷ xs) ++ rest) s h)) in
      let event =
        receive_data-fed x xs split.part now s.client h.up h.set good_now split.waits
          (split.taken ∙ ap (λ z. frames z ++ split.part) (sym first)) in
      rw event (
        refl,
        Holds-fed split.part ((x ∷ xs) ++ rest) rest now later s h all
            (split.left ∙ ap frames (sym second)) split.waits,
      )

  serve-Goes :
      (p : Exchange) (ps : List Exchange) (rest : Bytes) (s : Responser)
      (h : Holds f es sent rest s)
      → h.pending ≡ p ∷ ps
      → Goes f es sent rest (process_queue 1 s)
  unfolding process_queue
  serve-Goes p ps rest s h e =
      let (good_p, _) = subst (All (IsExchange f)) e (good_pending rest s h) in
      rw
        (step f 0 (job_of p) (items_of (jobs_of ps)) s h.func h.up good_p.answers
          (h.items ∙ ap (λ z. items_of (jobs_of z)) e))
        (
          refl,
          record {
            done = h.done ++ p ∷ [];
            pending = ps;
            future = h.future;
            all = h.all ∙ ap (λ z. (h.done ++ z) ++ h.future) e ∙ simp (append_assoc);
            answered =
                ap (λ z. s.client.tcp.tcp_socket.sent ++ z)
                  (sym (append-nil (frame (message_of (job_of p)))))
                ∙ ap (λ z. z ++ outgoing (p ∷ [])) h.answered
                ∙ append_assoc sent (outgoing h.done) (outgoing (p ∷ []))
                ∙ ap (λ z. sent ++ z) (sym (outgoing-append h.done (p ∷ [])));
            items = refl;
            counted = omega (arith, h.counted, ap length e);
            coming = h.coming;
            waits = h.waits;
            up = record { on = h.up.on; open_ = h.up.open_; faultless = refl };
            set = h.set;
            func = h.func;
          },
        )

  serves-Goes :
      (rest : Bytes) (s : Responser)
      → Holds f es sent rest s
      → Goes f es sent rest (take_turn serves s)
  serves-Goes rest s h = go h.pending refl
    where
      go :
          (pending : List Exchange) → h.pending ≡ pending → Goes f es sent rest (take_turn serves s)
      go [] e = rw (idle f 1 s (h.items ∙ ap (λ z. items_of (jobs_of z)) e)) (refl, h)
      go (p ∷ ps) e = serve-Goes p ps rest s h e

  pub run-Goes :
      (turns : List Turn) (rest : Bytes) (s : Responser)
      → Holds f es sent (stream_of turns ++ rest) s
      → Goes f es sent rest (run turns s)
  run-Goes [] rest s h = (refl, h)
  run-Goes (reads x xs ∷ turns) rest s h =
      let (returned, h') =
        reads-Goes x xs (stream_of turns ++ rest) s
          (subst (λ z. Holds f es sent z s) (append_assoc (x ∷ xs) (stream_of turns) rest) h) in
      rw returned (run-Goes turns rest (take_turn (reads x xs) s).1 h')
  run-Goes (serves ∷ turns) rest s h =
      let (returned, h') = serves-Goes (stream_of turns ++ rest) s h in
      rw returned (run-Goes turns rest (take_turn serves s).1 h')
