-- ===== src/Examples/Requests.antt =====
-- OpenSocketQuerier.py at concrete messages.
use knot_link_sdk.Base.{true, ◌≡◌, refl, some, [], ◌∷◌, codes, map}
use knot_link_sdk.Exec.{unicode_encode_error, ok, raised}
use knot_link_sdk.Wire.{frame, pack_u32}
use knot_link_sdk.Text.Utf8.{Text, encode, encode_point}
use knot_link_sdk.Tcp.{init, send_data, write_with_length_prefix}
use knot_link_sdk.Tcp.Net.{fresh, sendall}
use knot_link_sdk.Roles.Querier.{
  Querier, idle, arrives, ends, times_out, arrive_all, on_host, begin_query, query, query_async,
  send_query,
}
use knot_link_sdk.Roles.Querier.Queries.{query-outcome, query-unsent}
use knot_link_sdk.Roles.Querier.Waits.{outcome}

-- A querier that is connected.
abbrev querier : Querier
querier = record {
  app_id = some (codes "app");
  open_socket_id = some (codes "id");
  client = record { tcp = record (init (fresh true [])) { connected = true }; host = idle };
}

-- The querier whose question "q" is sent.
abbrev asking : Querier
asking = record querier {
  client = record {
    tcp = record querier.client.tcp {
      tcp_socket = record querier.client.tcp.tcp_socket { sent = frame (codes "app-id&*&q") };
    };
    host = begin_query idle;
  };
}

query_async_sent : query_async (codes "q") (on_host begin_query querier) ≡ (ok tt, asking)
unfolding query_async send_query encode encode_point send_data write_with_length_prefix sendall
    frame pack_u32
query_async_sent = refl

-- The second of two replies is the result.
query-outcome_example :
    (query
      (codes "q")
      (some 5)
      (ends (arrives (codes "1")) [])
      (arrives (codes "2") ∷ [])
      querier).0
    ≡ outcome (arrives (codes "1") ∷ []) (arrives (codes "2") ∷ [])
query-outcome_example =
    query-outcome (codes "q") (some 5) (ends (arrives (codes "1")) []) (arrives (codes "2") ∷ [])
      querier asking query_async_sent

-- A question with a surrogate
abbrev unsendable : Text
unsendable = 0xd800 ∷ []

query_async_fails :
    query_async unsendable (on_host begin_query querier)
    ≡ (raised unicode_encode_error, on_host begin_query querier)
unfolding query_async encode
query_async_fails = refl

query-unsent_example :
    ((query unsendable (some 5) (times_out 5) [] querier).0 ≡ raised unicode_encode_error)
    × ((arrive_all
          (map arrives (codes "news" ∷ []))
          (query unsendable (some 5) (times_out 5) [] querier).1).client.host.heard
        ≡ querier.client.host.heard)
query-unsent_example =
    query-unsent unsendable (some 5) (times_out 5) [] (codes "news" ∷ []) unicode_encode_error
      querier (on_host begin_query querier) query_async_fails
