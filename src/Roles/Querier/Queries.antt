-- ===== src/Roles/Querier/Queries.antt =====
-- What `query` returns, and what a query that cannot be sent leaves behind.
use knot_link_sdk.Base.{ℕ, Option, true, some, List, [], ◌∷◌, ap, refl, map, ◌∙◌, sym, ◌≡◌}
use knot_link_sdk.Exec.{Exc, ok, raised}
use knot_link_sdk.Text.Utf8.{Text, Bytes, decode_replace}
use knot_link_sdk.Roles.Querier.{
  Waiting, Querier, Wait, during, Arrival, arrives, arrive_all, begin_query, on_host, query,
  query_async,
}
use knot_link_sdk.Roles.Querier.Waits.{
  outcome, query_async-host, IsAsking, arrive-IsAsking, outcome-asking,
}

sent-host :
    (data_ : Text) (s s1 : Querier) (w : Waiting)
    → s.client.host ≡ w
    → ((query_async data_ s).1 ≡ s1)
    → s1.client.host ≡ w
sent-host data_ s s1 w before after =
    sym (ap (λ t. t.client.host) after) ∙ query_async-host data_ s ∙ before

deaf :
    (messages : List Bytes) (s : Querier)
    → IsAsking s.client.host
    → (arrive_all (map arrives messages) s).client.host.heard ≡ s.client.host.heard
unfolding arrive_all
deaf [] s h = refl
deaf (bytes ∷ messages) s h =
    ap (λ t. (arrive_all (map arrives messages) t).client.host.heard) (arrive-IsAsking bytes s h)
    ∙ deaf messages
        (on_host (λ w. record w { query_result = some (decode_replace bytes); query_event = true })
          s)
        (record { asking = h.asking; in_time = h.in_time })

-- A query whose message goes out without an exception: if it has a timeout that passes while
-- nothing arrives and nobody calls `disconnect`, it raises TimeoutError. If something happens
-- during its wait, with a timeout or without, it returns the last message that arrived before the
-- first `disconnect`, be it during the wait or before the lock is taken again, and None if no
-- message came before it.
pub query-outcome :
    (data_ : Text) (timeout : Option ℕ) (wait : Wait timeout) (late : List Arrival) (s s1 : Querier)
    → query_async data_ (on_host begin_query s) ≡ (ok tt, s1)
    → (query data_ timeout wait late s).0 ≡ outcome (during wait) late
unfolding query begin_query
query-outcome data_ timeout wait late s s1 sent = rw sent (
    outcome-asking (during wait) late s1
      (record {
        asking = ap (λ w. w.is_querying) host;
        in_time = ap (λ w. w.timeout_occurred) host;
      })
      (ap (λ w. w.query_result) host) (ap (λ w. w.query_event) host))
  where
    host : s1.client.host ≡ begin_query s.client.host
    host =
        sent-host data_ (on_host begin_query s) s1 (begin_query s.client.host) refl
          (ap (λ r. r.1) sent)

-- A query whose sending raises an exception raises it too, and none of the messages that arrive
-- afterwards reaches the callback, as long as nobody calls `disconnect` or starts another query.
pub query-unsent :
    (data_ : Text) (timeout : Option ℕ) (wait : Wait timeout) (late : List Arrival)
    (messages : List Bytes) (e : Exc) (s s1 : Querier)
    → query_async data_ (on_host begin_query s) ≡ (raised e, s1)
    → ((query data_ timeout wait late s).0 ≡ raised e)
      × ((arrive_all (map arrives messages) (query data_ timeout wait late s).1).client.host.heard
          ≡ s.client.host.heard)
unfolding query begin_query
query-unsent data_ timeout wait late messages e s s1 failed = rw failed (
  refl,
  deaf messages s1 (record {
    asking = ap (λ w. w.is_querying) host;
    in_time = ap (λ w. w.timeout_occurred) host;
  })
      ∙ ap (λ w. w.heard) host,
)
  where
    host : s1.client.host ≡ begin_query s.client.host
    host =
        sent-host data_ (on_host begin_query s) s1 (begin_query s.client.host) refl
          (ap (λ r. r.1) failed)
