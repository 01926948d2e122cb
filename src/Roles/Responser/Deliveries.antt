-- ===== src/Roles/Responser/Deliveries.antt =====
-- OpenSocketResponser.py over its TcpClient: the requests of a stream, however it is cut, get into the
-- queue.
use knot_link_sdk.Base.{
  ℕ, ◌+◌, ◌≡◌, ◌≢◌, ap, sym, ◌∙◌, true, false, some, List, [], ◌∷◌, ◌++◌, append_assoc, append-nil,
  arith, length, map, concat, seq_eq, All, if_false,
}
use knot_link_sdk.Exec.{ok}
use knot_link_sdk.Text.Utf8.{Text, Bytes, encode}
use knot_link_sdk.Text.Search.{separator}
use knot_link_sdk.Text.Search.Laws.{Lacks}
use knot_link_sdk.Wire.{IsSendable, heartbeat_response}
use knot_link_sdk.Tcp.{Client, chunk, receive_data}
use knot_link_sdk.Tcp.Frames.{frames, consumed}
use knot_link_sdk.Tcp.Returns.{Returns, no_condition, receive_data-returns}
use knot_link_sdk.Roles.Responser.{Queue, internal_data_recv, put}
use knot_link_sdk.Roles.Responser.Answers.{internal_data_recv-request, internal_data_recv-ok}

-- A request: its key and its text, and the bytes of both.
pub record Request : Type 0 where
  pub key : Text
  pub payload : Text
  pub key_bytes : Bytes
  pub payload_bytes : Bytes

abbrev pub request_bytes : Request → Bytes
request_bytes r = r.key_bytes ++ (separator ++ r.payload_bytes)

pub record IsRequest (r : Request) : Type 0 where
  pub key_encodes : encode r.key ≡ some r.key_bytes
  pub payload_encodes : encode r.payload ≡ some r.payload_bytes
  pub key_lacks : Lacks b'&' r.key
  pub some_payload : r.payload_bytes ≢ []
  pub sendable : IsSendable (request_bytes r)
  pub no_heartbeat : seq_eq (request_bytes r) heartbeat_response ≡ false

abbrev pub requests_bytes : List Request → List Bytes
requests_bytes [] = []
requests_bytes (r ∷ rs) = request_bytes r ∷ requests_bytes rs

abbrev pub queued : List Request → List (Text × Text)
queued [] = []
queued (r ∷ rs) = (r.payload, r.key) ∷ queued rs

-- What the callback does to the queue; it returns always.
abbrev pub recv_step : Bytes → Queue → Queue
recv_step bytes q = (internal_data_recv bytes q).1

pub recv_step-Returns : Returns (λ _. Unit {0}) (λ _. Unit {0}) internal_data_recv recv_step
recv_step-Returns = record {
  returns = λ bytes q _ _. ap (λ r. (r, recv_step bytes q)) (internal_data_recv-ok bytes q);
  keeps = λ bytes q _ _. tt;
}

abbrev pub queue : List (Text × Text) → ℕ → Queue
queue items unfinished = record { items = items; unfinished = unfinished }

same_queue : (xs ys : List (Text × Text)) (m n : ℕ) → xs ≡ ys → m ≡ n → queue xs m ≡ queue ys n
same_queue xs ys m n e f = ap (λ items. queue items m) e ∙ ap (queue ys) f

pub consumed_requests :
    (rs : List Request) (q : Queue)
    → All IsRequest rs
    → consumed recv_step (requests_bytes rs) q
      ≡ queue (q.items ++ queued rs) (q.unfinished + length rs)
consumed_requests [] q _ =
    same_queue q.items (q.items ++ []) q.unfinished (q.unfinished + 0) (sym (append-nil q.items))
      (omega arith)
consumed_requests (r ∷ rs) q (h, hs) =
    let q' = put (r.payload, r.key) q in
    ap (consumed recv_step (requests_bytes rs)) (
      if_false q (recv_step (request_bytes r) q) h.no_heartbeat
      ∙ ap (λ x. x.1)
          (internal_data_recv-request r.key r.payload r.key_bytes r.payload_bytes q h.key_encodes
            h.payload_encodes h.key_lacks h.some_payload))
    ∙ consumed_requests rs q' hs
    ∙ same_queue (q'.items ++ queued rs) (q.items ++ queued (r ∷ rs)) (q'.unfinished + length rs)
        (q.unfinished + length (r ∷ rs))
        (append_assoc q.items ((r.payload, r.key) ∷ []) (queued rs)) (omega arith)

pub IsSendable-requests :
    (rs : List Request) → All IsRequest rs → All IsSendable (requests_bytes rs)
IsSendable-requests [] _ = tt
IsSendable-requests (r ∷ rs) (h, hs) = (h.sendable, IsSendable-requests rs hs)

-- On a connected client with an empty buffer whose callback is the responder's, the frames of
-- requests (a key without `&`, the separator and a text that is not empty, together no heartbeat
-- response and at most 16 MB), cut into chunks that are not empty in any way, are received
-- without an exception, and the texts with their keys are put at the end of the queue in their
-- order, each as one unfinished task.
pub receive_data-queued :
    (x : ℕ) (xs : Bytes) (chunks : List Bytes) (rs : List Request) (c : Client Queue)
    → c.tcp.connected ≡ true
    → c.tcp.received_data_callback ≡ some internal_data_recv
    → c.tcp.buffer ≡ []
    → All (λ piece. piece ≢ []) chunks
    → All IsRequest rs
    → (x ∷ xs) ++ concat chunks ≡ frames (requests_bytes rs)
    → ((receive_data (chunk (x ∷ xs) ∷ map chunk chunks) c).0 ≡ ok tt)
      × ((receive_data (chunk (x ∷ xs) ∷ map chunk chunks) c).1.host
          ≡ queue (c.host.items ++ queued rs) (c.host.unfinished + length rs))
receive_data-queued x xs chunks rs c on set empty full hs stream =
    let (returned, host) =
      receive_data-returns (λ _. Unit {0}) (λ _. Unit {0}) internal_data_recv recv_step
        recv_step-Returns x xs chunks (requests_bytes rs) c on set empty tt full
        (IsSendable-requests rs hs) (no_condition (requests_bytes rs)) stream in
    (returned, host ∙ consumed_requests rs c.host hs)
