-- ===== src/Roles/Responser/Interleavings.antt =====
-- OpenSocketResponser.py: the service as a whole, whichever way its two threads take turns.
use knot_link_sdk.Base.{
  ℕ, ◌≤◌, ◌≡◌, refl, ap, sym, ◌∙◌, Option, some, List, [], ◌∷◌, ◌++◌, append-nil, append_assoc,
  arith, length, length-append, All,
}
use knot_link_sdk.Exec.{Result, ok, ◌>>◌}
use knot_link_sdk.Text.Utf8.{Text, Bytes}
use knot_link_sdk.Wire.{incomplete, next_message}
use knot_link_sdk.Wire.Scanning.{next_message-frame, next_message_short}
use knot_link_sdk.Roles.{UserFunction}
use knot_link_sdk.Roles.Responser.{Responser, internal_data_recv, process_queue}
use knot_link_sdk.Roles.Responser.Service.{IsUp, items_of, process_queue-Served}
use knot_link_sdk.Roles.Responser.Deliveries.{request_bytes}
use knot_link_sdk.Roles.Responser.Exchanges.{
  Exchange, IsExchange, jobs_of, incoming, outgoing, IsJob-jobs_of, outgoing-append, length-jobs_of,
}
use knot_link_sdk.Roles.Responser.Turns.{
  Turn, run, stream_of, Holds, good_future, good_pending, run-Goes,
}

-- The responses sent are those to the first requests, `done`, in their order; the requests `pending`
-- behind them are the queue, each as one unfinished task; and what has not arrived as a whole is behind
-- these.
pub record InOrder (es : List Exchange) (sent : Bytes) (p : Result (Unit {0}) × Responser)
    : Type 0 where
  pub done : List Exchange
  pub pending : List Exchange
  pub future : List Exchange
  pub all : es ≡ (done ++ pending) ++ future
  pub returned : p.0 ≡ ok tt
  pub answered : p.1.client.tcp.tcp_socket.sent ≡ sent ++ outgoing done
  pub items : p.1.client.host.items ≡ items_of (jobs_of pending)
  pub counted : p.1.client.host.unfinished ≡ length pending

-- A responder that serves `f`: its connection is up, no sending fails, its callback is set, and nothing
-- is in its buffer or in its queue.
pub record IsServing (f : UserFunction (Option Text)) (s : Responser) : Type 0 where
  pub up : IsUp s.client.tcp
  pub set : s.client.tcp.received_data_callback ≡ some internal_data_recv
  pub func : s.recv_func ≡ some f
  pub no_bytes : s.client.tcp.buffer ≡ []
  pub no_items : s.client.host.items ≡ []
  pub no_tasks : s.client.host.unfinished ≡ 0

Holds-IsServing :
    (f : UserFunction (Option Text)) (es : List Exchange) (bytes : Bytes) (s : Responser)
    → IsServing f s
    → bytes ≡ incoming es
    → Holds f es s.client.tcp.tcp_socket.sent bytes s
Holds-IsServing f es bytes s h e = record {
  done = [];
  pending = [];
  future = es;
  all = refl;
  answered = sym (append-nil s.client.tcp.tcp_socket.sent);
  items = h.no_items;
  counted = h.no_tasks;
  coming = ap (λ b. b ++ bytes) h.no_bytes ∙ e;
  waits = ap next_message h.no_bytes ∙ next_message_short [] (omega arith);
  up = h.up;
  set = h.set;
  func = h.func;
}

-- A responder that serves a user's function gets the beginning of a stream of such requests, in
-- chunks that are not empty, between which rounds of its other thread are done, in any order.
-- Nothing is raised; the responses that have been sent are those to the first requests, in their
-- order; the queue holds the requests behind these, in their order, each counted as one
-- unfinished task; and the other requests have not been queued.
pub run-InOrder :
    (f : UserFunction (Option Text)) (es : List Exchange) (turns : List Turn) (rest : Bytes)
    (s : Responser)
    → IsServing f s
    → All (IsExchange f) es
    → stream_of turns ++ rest ≡ incoming es
    → InOrder es s.client.tcp.tcp_socket.sent (run turns s)
run-InOrder f es turns rest s serving good stream =
    let sent = s.client.tcp.tcp_socket.sent in
    let (returned, h) =
      run-Goes f es good sent turns rest s
        (Holds-IsServing f es (stream_of turns ++ rest) s serving stream) in
    record {
      done = h.done;
      pending = h.pending;
      future = h.future;
      all = h.all;
      returned = returned;
      answered = h.answered;
      items = h.items;
      counted = h.counted;
    }

-- If nothing is to come, nothing is left in the buffer.
no_future :
    (f : UserFunction (Option Text)) (future : List Exchange) (buffer : Bytes)
    → All (IsExchange f) future
    → next_message buffer ≡ incomplete
    → buffer ++ [] ≡ incoming future
    → future ≡ []
no_future f [] buffer _ waits coming = refl
no_future f (e ∷ future) buffer (h, _) waits coming = cc (
  waits,
  append-nil buffer,
  coming,
  next_message-frame (request_bytes e.request) (incoming future) h.asks.sendable,
)

-- All responses have been sent in the order of the requests, and nothing is left to do.
pub record Answered (es : List Exchange) (sent : Bytes) (p : Result (Unit {0}) × Responser)
    : Type 0 where
  pub returned : p.0 ≡ ok tt
  pub answered : p.1.client.tcp.tcp_socket.sent ≡ sent ++ outgoing es
  pub items : p.1.client.host.items ≡ []
  pub counted : p.1.client.host.unfinished ≡ 0

-- A responder that serves a user's function (connection up, no sending fails, buffer and queue
-- empty) gets the frames of requests: each a key without `&`, the separator and a text that is
-- not empty, at most 16 MB together and no heartbeat response, to which the function gives a
-- response that can be sent under the key. However the stream is cut into chunks that are not
-- empty, and in whatever order the reading thread's chunks and rounds of the other thread follow
-- each other, at least as many more rounds as there are requests return, after which all
-- responses have been sent in the order of the requests, the queue is empty and no task is
-- unfinished.
pub process_queue-run :
    (f : UserFunction (Option Text)) (es : List Exchange) (turns : List Turn) (rounds : ℕ)
    (s : Responser)
    → IsServing f s
    → All (IsExchange f) es
    → stream_of turns ≡ incoming es
    → length es ≤ rounds
    → Answered es s.client.tcp.tcp_socket.sent ((run turns >> process_queue rounds) s)
process_queue-run f es turns rounds s serving good stream enough =
    let sent = s.client.tcp.tcp_socket.sent in
    let (returned, h) = run-Goes f es good sent turns [] s (
      Holds-IsServing f es (stream_of turns ++ []) s serving
        (append-nil (stream_of turns) ∙ stream)) in
    let t = (run turns s).1 in
    let nothing =
      no_future f h.future t.client.tcp.buffer (good_future f es good sent [] t h) h.waits
        h.coming in
    let all =
      h.all ∙ ap (λ z. (h.done ++ h.pending) ++ z) nothing ∙ append-nil (h.done ++ h.pending) in
    let served =
      process_queue-Served f rounds (jobs_of h.pending) t h.func h.up h.items
        (IsJob-jobs_of f h.pending (good_pending f es good sent [] t h))
        (omega (
          arith,
          enough,
          ap length all,
          length-append h.done h.pending,
          length-jobs_of h.pending,
        )) in
    rw returned (record {
      returned = served.returned;
      answered =
          served.sent
          ∙ ap (λ z. z ++ outgoing h.pending) h.answered
          ∙ append_assoc sent (outgoing h.done) (outgoing h.pending)
          ∙ ap (λ z. sent ++ z) (sym (outgoing-append h.done h.pending) ∙ ap outgoing (sym all));
      items = served.emptied;
      counted = omega (arith, served.counted, h.counted, length-jobs_of h.pending);
    })
