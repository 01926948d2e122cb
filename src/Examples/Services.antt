-- ===== src/Examples/Services.antt =====
-- A responder and a subscriber at concrete channels, and a stream of requests.
use knot_link_sdk.Text.Search.{separator, cut}
use knot_link_sdk.Text.Search.Laws.{Lacks, cut-append}
use knot_link_sdk.Roles.Conversation.{
  Server, IsRelay, addressed, IsConversation, query-process_queue,
}
use knot_link_sdk.Roles.Querier.{Querier, idle}
use knot_link_sdk.Base.{
  ◌≡◌, refl, ap, append_assoc, ◌∙◌, Option, none, some, [], ◌∷◌, ◌++◌, true, false, codes, arith,
  seq_eq,
}
use knot_link_sdk.Exec.{ok}
use knot_link_sdk.Wire.{Bytes, frame, pack_u32}
use knot_link_sdk.Text.Utf8.{Text, encode, encode_point}
use knot_link_sdk.Tcp.{init}
use knot_link_sdk.Tcp.Net.{fresh}
use knot_link_sdk.Roles.{UserFunction}
use knot_link_sdk.Roles.Responser.{Responser, process_queue}
use knot_link_sdk.Roles.Responser.Service.{Job, IsJob}
use knot_link_sdk.Roles.Responser.Deliveries.{Request, IsRequest}
use knot_link_sdk.Base.{List}
use knot_link_sdk.Exec.{◌>>◌}
use knot_link_sdk.Tcp.Starting.{online}
use knot_link_sdk.Tcp.Sending.{taken}
use knot_link_sdk.Roles.{local_host}
use knot_link_sdk.Roles.Responser.{responser_port}
use knot_link_sdk.Roles.Responser.Registration.{registered}
use knot_link_sdk.Roles.Responser.Exchanges.{Exchange, IsExchange, incoming}
use knot_link_sdk.Roles.Responser.Turns.{Turn, reads, serves, run, stream_of}
use knot_link_sdk.Roles.Responser.Interleavings.{
  InOrder, IsServing, Answered, run-InOrder, process_queue-run,
}

one_byte : encode (codes "k") ≡ some (codes "k")
unfolding encode encode_point
one_byte = refl

abbrev echo : UserFunction (Option Text)
echo payload = ok (some payload)

abbrev job : Job
job = record {
  payload = codes "k";
  key = codes "k";
  response = codes "k";
  key_bytes = codes "k";
  response_bytes = codes "k";
}

job-IsJob : IsJob echo job
job-IsJob = record {
  responds = refl;
  key_encodes = one_byte;
  response_encodes = one_byte;
  fits = omega arith;
}

abbrev request : Request
request = record {
  key = codes "k";
  payload = codes "k";
  key_bytes = codes "k";
  payload_bytes = codes "k";
}

no_beat : seq_eq (codes "k&*&k") (codes "heartbeat_response") ≡ false
unfolding seq_eq
no_beat = refl

request-IsRequest : IsRequest request
request-IsRequest = record {
  key_encodes = one_byte;
  payload_encodes = one_byte;
  key_lacks = ((λ e. omega arith), tt);
  some_payload = λ e. ground arith;
  sendable = record { some_byte = omega arith; in_limit = omega arith };
  no_heartbeat = no_beat;
}

-- The request, and its echo
abbrev exchange : Exchange
exchange = record { request = request; response = codes "k"; response_bytes = codes "k" }

exchange-IsExchange : IsExchange echo exchange
exchange-IsExchange = record { asks = request-IsRequest; answers = job-IsJob }

-- A responder that has registered, and that echoes
abbrev serving : Responser
serving =
    record (registered (taken (online local_host responser_port []) (frame (codes "app-id")) [])
      (codes "app") (codes "id")) { recv_func = some echo }

serving-IsServing : IsServing echo serving
serving-IsServing = record {
  up = record { on = refl; open_ = refl; faultless = refl };
  set = refl;
  func = refl;
  no_bytes = refl;
  no_items = refl;
  no_tasks = refl;
}

-- The frame of "k&*&k", without its first byte
abbrev tail_of_frame : Bytes
tail_of_frame = b'K' ∷ 0 ∷ 2 ∷ 0 ∷ 0 ∷ 0 ∷ 5 ∷ codes "k&*&k"

-- A chunk, a round of the other thread, the rest of one frame and the start of another, and again a round
abbrev turns : List Turn
turns =
    reads b'K' []
    ∷ serves
    ∷ reads b'K' (0 ∷ 2 ∷ 0 ∷ 0 ∷ 0 ∷ 5 ∷ codes "k&*&k" ++ b'K' ∷ [])
    ∷ serves
    ∷ []

half_arrived : stream_of turns ++ tail_of_frame ≡ incoming (exchange ∷ exchange ∷ [])
unfolding frame pack_u32
half_arrived = refl

run-InOrder_example :
    InOrder (exchange ∷ exchange ∷ []) (frame (codes "app-id")) (run turns serving)
run-InOrder_example =
    run-InOrder echo (exchange ∷ exchange ∷ []) turns tail_of_frame serving serving-IsServing
      (exchange-IsExchange, (exchange-IsExchange, tt)) half_arrived

-- The rest of the second frame arrives.
abbrev all_turns : List Turn
all_turns = turns ++ reads b'K' (0 ∷ 2 ∷ 0 ∷ 0 ∷ 0 ∷ 5 ∷ codes "k&*&k") ∷ []

all_arrived : stream_of all_turns ≡ incoming (exchange ∷ exchange ∷ [])
unfolding frame pack_u32
all_arrived = refl

process_queue-run_example :
    Answered
      (exchange ∷ exchange ∷ [])
      (frame (codes "app-id"))
      ((run all_turns >> process_queue 2) serving)
process_queue-run_example =
    process_queue-run echo (exchange ∷ exchange ∷ []) all_turns 2 serving serving-IsServing
      (exchange-IsExchange, (exchange-IsExchange, tt)) all_arrived (omega arith)

-- A server that gives the identifier "k" to the question
abbrev server : Server
server = record {
  question_id = codes "k";
  asks = λ bytes. elim (cut separator bytes) [
    | none ↦ []
    | some (key, payload) ↦ addressed (codes "k") payload
  ];
  answers = λ bytes. elim (cut separator bytes) [ none ↦ [] | some (key, payload) ↦ payload ];
}

cut-addressed :
    (key payload : Bytes)
    → Lacks b'&' key
    → cut separator (addressed key payload) ≡ some (key, payload)
cut-addressed key payload lacks =
    ap (cut separator) (append_assoc key separator payload)
    ∙ cut-append b'&' (b'*' ∷ b'&' ∷ []) key payload lacks

server-IsRelay : IsRelay server (codes "k")
server-IsRelay = record {
  passes_on = λ key payload lacks. rw (server, cut-addressed key payload lacks) refl;
  brings_back =
      λ payload. rw (server, cut-addressed (codes "k") payload ((λ e. omega arith), tt)) refl;
}

abbrev querier : Querier
querier = record {
  app_id = some (codes "app");
  open_socket_id = some (codes "id");
  client = record { tcp = record (init (fresh true [])) { connected = true }; host = idle };
}

querier_key : encode (codes "app-id") ≡ some (codes "app-id")
unfolding encode encode_point
querier_key = refl

querier_key-Lacks : Lacks b'&' (codes "app-id")
querier_key-Lacks = (
  (λ e. omega arith),
  (
    (λ e. omega arith),
    ((λ e. omega arith), ((λ e. omega arith), ((λ e. omega arith), ((λ e. omega arith), tt)))),
  ),
)

abbrev asking_turns : List Turn
asking_turns = reads b'K' [] ∷ serves ∷ reads b'K' (0 ∷ 2 ∷ 0 ∷ 0 ∷ 0 ∷ 5 ∷ codes "k&*&k") ∷ []

asked : stream_of asking_turns ≡ frame (server.asks (addressed (codes "app-id") (codes "k")))
unfolding frame pack_u32
asked = rw (server, cut-addressed (codes "app-id") (codes "k") querier_key-Lacks) refl

query-process_queue_example :
    IsConversation server none asking_turns querier serving
      (codes "k")
      (codes "k")
      (addressed (codes "app-id") (codes "k"))
      (addressed (codes "k") (codes "k"))
query-process_queue_example =
    query-process_queue server echo none (codes "k") (codes "k") (codes "k") (codes "app-id")
      (codes "k") (codes "k") asking_turns querier serving server-IsRelay
      (record { on = refl; open_ = refl; faultless = refl }) querier_key querier_key-Lacks one_byte
      (omega arith) serving-IsServing exchange-IsExchange asked
