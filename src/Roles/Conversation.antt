-- ===== src/Roles/Conversation.antt =====
-- OpenSocketQuerier.py and OpenSocketResponser.py with the server between them, which is another program and
-- a parameter here: it hands a question to the responder under an identifier and the response to the querier.
use knot_link_sdk.Base.{
  ℕ, ◌≡◌, ap, sym, ◌∙◌, Option, some, List, [], ◌∷◌, ◌++◌, append_assoc, append-nil, arith,
}
use knot_link_sdk.Exec.{ok, ◌>>◌}
use knot_link_sdk.Text.Utf8.{Text, Bytes, encode, decode_replace}
use knot_link_sdk.Text.Utf8.Append.{encode-append}
use knot_link_sdk.Text.Utf8.RoundTrip.{decode-encode}
use knot_link_sdk.Text.Search.{separator}
use knot_link_sdk.Text.Search.Laws.{Lacks}
use knot_link_sdk.Wire.{frame}
use knot_link_sdk.Tcp.Sending.{taken}
use knot_link_sdk.Tcp.Streams.{IsInLimit}
use knot_link_sdk.Roles.{UserFunction, channel_key}
use knot_link_sdk.Roles.Sender.Signals.{sep}
use knot_link_sdk.Roles.Querier.{
  Querier, arrives, ends, begin_query, on_host, query, query_async, send_query,
}
use knot_link_sdk.Roles.Querier.Queries.{query-outcome}
use knot_link_sdk.Roles.Querier.Waits.{outcome, last_reply}
use knot_link_sdk.Roles.Responser.{Responser, process_queue}
use knot_link_sdk.Roles.Responser.Service.{IsUp, send_data-IsUp}
use knot_link_sdk.Roles.Responser.Exchanges.{Exchange, IsExchange}
use knot_link_sdk.Roles.Responser.Turns.{Turn, run, stream_of}
use knot_link_sdk.Roles.Responser.Interleavings.{IsServing, process_queue-run}

-- What the server makes of a querier's message, and of the responder's message to it.
pub record Server : Type 0 where
  pub question_id : Text
  pub asks : Bytes → Bytes
  pub answers : Bytes → Bytes

-- A key or an identifier with a payload behind the separator.
abbrev pub addressed : Bytes → Bytes → Bytes
addressed key payload = (key ++ separator) ++ payload

-- The payload of a question gets to the responder under the identifier, and that of the message under the
-- identifier gets to the querier alone.
pub record IsRelay (server : Server) (id : Bytes) : Type 0 where
  pub passes_on :
      (key payload : Bytes)
      → Lacks b'&' key
      → server.asks (addressed key payload) ≡ addressed id payload
  pub brings_back : (payload : Bytes) → server.answers (addressed id payload) ≡ payload

abbrev pub exchange : Server → Bytes → Text → Bytes → Text → Bytes → Exchange
exchange server id question question_bytes response response_bytes = record {
  request = record {
    key = server.question_id;
    payload = question;
    key_bytes = id;
    payload_bytes = question_bytes;
  };
  response = response;
  response_bytes = response_bytes;
}

-- The querier once its question has been sent.
abbrev asked : Bytes → Querier → Querier
asked bytes q = record (on_host begin_query q) {
  client = record (on_host begin_query q).client { tcp = taken q.client.tcp (frame bytes) [] };
}

query_async-asked :
    (question : Text) (key payload : Bytes) (q : Querier)
    → IsUp q.client.tcp
    → encode (channel_key q.app_id q.open_socket_id) ≡ some key
    → encode question ≡ some payload
    → IsInLimit (addressed key payload)
    → query_async question (on_host begin_query q) ≡ (ok tt, asked (addressed key payload) q)
unfolding query_async send_query
query_async-asked question key payload q up ek eq fits =
    let prefix =
      encode-append (channel_key q.app_id q.open_socket_id) separator key separator ek sep in
    rw (eq, prefix)
      (ap
        (λ r. (
          r.0,
          record (on_host begin_query q) {
            client = record (on_host begin_query q).client { tcp = r.1 };
          },
        ))
        (send_data-IsUp (addressed key payload) q.client.tcp up fits))

-- The question went out, the response went out, and the query returns its text.
pub record IsConversation (server : Server) (timeout : Option ℕ) (turns : List Turn) (q : Querier)
    (r : Responser) (question response : Text) (asking answering : Bytes) : Type 0 where
  pub sent :
      (query_async question (on_host begin_query q)).1.client.tcp.tcp_socket.sent
      ≡ q.client.tcp.tcp_socket.sent ++ frame asking
  pub responded :
      ((run turns >> process_queue 1) r).1.client.tcp.tcp_socket.sent
      ≡ r.client.tcp.tcp_socket.sent ++ frame answering
  pub returns :
      (query question timeout (ends (arrives (server.answers answering)) []) [] q).0
      ≡ ok (some response)

-- A querier asks a responder that serves a user's function, over a server that hands the payload
-- of the question to the responder under an identifier, and the payload of a message under that
-- identifier to the querier. Both connections are up and no sending fails; the querier's key has
-- no `&`; the function gives the question a response, and all messages can be sent. However the
-- responder's stream is cut and its two threads take turns before one round more, the querier
-- sends the question as one frame, the responder sends the response as one frame, and `query`, to
-- which the server brings it, returns the text of the response.
pub query-process_queue :
    (server : Server) (f : UserFunction (Option Text)) (timeout : Option ℕ)
    (question response : Text) (id key payload payload' : Bytes) (turns : List Turn) (q : Querier)
    (r : Responser)
    → IsRelay server id
    → IsUp q.client.tcp
    → encode (channel_key q.app_id q.open_socket_id) ≡ some key
    → Lacks b'&' key
    → encode question ≡ some payload
    → IsInLimit (addressed key payload)
    → IsServing f r
    → IsExchange f (exchange server id question payload response payload')
    → stream_of turns ≡ frame (server.asks (addressed key payload))
    → IsConversation server timeout turns q r question response
        (addressed key payload)
        (addressed id payload')
unfolding outcome last_reply
query-process_queue server f timeout question response id key payload payload' turns q r relay up ek
      lacks eq fits serving good stream =
    let e = exchange server id question payload response payload' in
    let asked_ = query_async-asked question key payload q up ek eq fits in
    let answered =
      process_queue-run f (e ∷ []) turns 1 r serving (good, tt)
        (stream
          ∙ ap frame (relay.passes_on key payload lacks ∙ append_assoc id separator payload)
          ∙ sym (append-nil (frame (id ++ (separator ++ payload)))))
        (omega arith) in
    record {
      sent = ap (λ p. p.1.client.tcp.tcp_socket.sent) asked_;
      responded =
          answered.answered
          ∙ ap (λ b. r.client.tcp.tcp_socket.sent ++ b)
              (append-nil (frame (addressed id payload')));
      returns =
          query-outcome question timeout
            (ends (arrives (server.answers (addressed id payload'))) []) [] q
            (asked (addressed key payload) q) asked_
          ∙ ap (λ s. ok (some s))
              (ap decode_replace (relay.brings_back payload')
                ∙ (decode-encode response payload' good.answers.response_encodes).1);
    }
