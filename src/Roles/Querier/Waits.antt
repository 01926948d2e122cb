-- ===== src/Roles/Querier/Waits.antt =====
-- OpenSocketQuerier.py: what arrives while `query` waits.
use knot_link_sdk.Base.{
  true, false, ◌&&◌, not, Option, none, some, List, [], ◌∷◌, ◌++◌, ap, arith, refl, Option-cases,
  Bool-cases, subst, inl, inr, ◌∙◌, sym, ◌≡◌,
}
use knot_link_sdk.Exec.{timeout_error, Result, ok, raised, Exec, continue}
use knot_link_sdk.Text.Utf8.{Text, Bytes, decode_replace, encode}
use knot_link_sdk.Tcp.{send_data}
use knot_link_sdk.Roles.{channel_key, key_prefix, or_unicode_error, UserFunction}
use knot_link_sdk.Roles.Querier.{
  Waiting, Querier, Arrival, arrives, leaves, arrive, arrive_all, finish_query, wake, leave,
  on_host, on_querier, conclude, query_async, send_query, internal_data_recv, call_back,
}

-- The last message that arrives before the first `disconnect`; `so_far` if there is none.
unfoldable pub last_reply : List Arrival → Option Text → Option Text
last_reply [] so_far = so_far
last_reply (arrives bytes ∷ arrivals) so_far = last_reply arrivals (some (decode_replace bytes))
last_reply (leaves ∷ arrivals) so_far = so_far

-- What a query that has been sent gives.
unfoldable pub outcome : List Arrival → List Arrival → Result (Option Text)
outcome [] late = raised timeout_error
outcome (a ∷ during) late = ok (last_reply (a ∷ during ++ late) none)

continue-host :
    {A B : Type 0} (r : Result A) (f : A → Exec Querier B) (s : Querier)
    → ((a : A) → (f a s).1.client.host ≡ s.client.host)
    → (continue r f s).1.client.host ≡ s.client.host
continue-host (ok a) f s h = h a
continue-host (raised e) f s h = refl

send_query-host :
    (app id : Option Text) (bytes : Bytes) (s : Querier)
    → (send_query app id bytes s).1.client.host ≡ s.client.host
unfolding send_query
send_query-host app id bytes s =
    continue-host (or_unicode_error (encode (key_prefix (channel_key app id))))
      (λ key. on_querier (send_data (key ++ bytes))) s (λ key. refl)

pub query_async-host :
    (data_ : Text) (s : Querier) → (query_async data_ s).1.client.host ≡ s.client.host
unfolding query_async
query_async-host data_ s =
    continue-host (or_unicode_error (encode data_)) (send_query s.app_id s.open_socket_id) s
      (λ bytes. send_query-host s.app_id s.open_socket_id bytes s)

-- The state of a query that waits.
pub record IsAsking (w : Waiting) : Type 0 where
  pub asking : w.is_querying ≡ true
  pub in_time : w.timeout_occurred ≡ false

pub arrive-IsAsking :
    (bytes : Bytes) (s : Querier)
    → IsAsking s.client.host
    → arrive (arrives bytes) s
      ≡ on_host (λ w. record w { query_result = some (decode_replace bytes); query_event = true }) s
unfolding arrive internal_data_recv
arrive-IsAsking bytes s h = grind (arith, h.asking, h.in_time)

-- After a `disconnect`: the event is set, and the result stays what it is.
record IsOver (result : Option Text) (w : Waiting) : Type 0 where
  over : w.timeout_occurred ≡ true
  awake : w.query_event ≡ true
  settled : w.query_result ≡ result

call_back-IsOver :
    (f : Option (UserFunction (Unit {0}))) (text : Text) (result : Option Text) (w : Waiting)
    → IsOver result w
    → IsOver result (call_back f text w).1
unfolding call_back
call_back-IsOver none text result w h = h
call_back-IsOver (some f) text result w h = record {
  over = h.over;
  awake = h.awake;
  settled = h.settled;
}

hear-over :
    (bytes : Bytes) (w : Waiting)
    → w.timeout_occurred ≡ true
    → internal_data_recv bytes w ≡ call_back w.callback (decode_replace bytes) w
unfolding internal_data_recv
hear-over bytes w over = elim (Bool-cases w.is_querying) [
  | inl e ↦ grind (arith, over, e)
  | inr e ↦ grind (arith, over, e)
]

hear-IsOver :
    (bytes : Bytes) (result : Option Text) (w : Waiting)
    → IsOver result w
    → IsOver result (internal_data_recv bytes w).1
hear-IsOver bytes result w h =
    subst (λ r. IsOver result r.1) (sym (hear-over bytes w h.over))
      (call_back-IsOver w.callback (decode_replace bytes) result w h)

arrive_all-IsOver :
    (arrivals : List Arrival) (result : Option Text) (s : Querier)
    → IsOver result s.client.host
    → IsOver result (arrive_all arrivals s).client.host
unfolding arrive_all arrive leave wake
arrive_all-IsOver [] result s h = h
arrive_all-IsOver (arrives bytes ∷ arrivals) result s h =
    arrive_all-IsOver arrivals result (arrive (arrives bytes) s)
      (hear-IsOver bytes result s.client.host h)
arrive_all-IsOver (leaves ∷ arrivals) result s h =
    arrive_all-IsOver arrivals result (leave s)
      (record { over = refl; awake = refl; settled = h.settled })

arrive_all-asking :
    (arrivals : List Arrival) (s : Querier)
    → IsAsking s.client.host
    → (arrive_all arrivals s).client.host.query_result
      ≡ last_reply arrivals s.client.host.query_result
unfolding arrive_all last_reply arrive leave wake
arrive_all-asking [] s h = refl
arrive_all-asking (leaves ∷ arrivals) s h =
    (arrive_all-IsOver arrivals s.client.host.query_result (leave s)
      (record { over = refl; awake = refl; settled = refl })).settled
arrive_all-asking (arrives bytes ∷ arrivals) s h =
    ap (λ t. (arrive_all arrivals t).client.host.query_result) (arrive-IsAsking bytes s h)
    ∙ arrive_all-asking arrivals
        (on_host (λ w. record w { query_result = some (decode_replace bytes); query_event = true })
          s)
        (record { asking = h.asking; in_time = h.in_time })

-- Arrivals never clear the event.
arrive-event :
    (a : Arrival) (s : Querier)
    → s.client.host.query_event ≡ true
    → (arrive a s).client.host.query_event ≡ true
unfolding arrive leave wake internal_data_recv call_back
arrive-event (arrives bytes) s event =
    elim (Bool-cases (s.client.host.is_querying && not s.client.host.timeout_occurred)) [
      | inl e ↦ grind (arith, e, event)
      | inr e ↦ elim (Option-cases s.client.host.callback) [
        | inl none_ ↦ grind (arith, e, event, none_)
        | inr (f, some_) ↦ grind (arith, e, event, some_)
      ]
    ]
arrive-event leaves s event = refl

arrive_all-event :
    (arrivals : List Arrival) (s : Querier)
    → s.client.host.query_event ≡ true
    → (arrive_all arrivals s).client.host.query_event ≡ true
unfolding arrive_all
arrive_all-event [] s event = event
arrive_all-event (a ∷ arrivals) s event =
    arrive_all-event arrivals (arrive a s) (arrive-event a s event)

first-event :
    (a : Arrival) (s : Querier)
    → IsAsking s.client.host
    → (arrive a s).client.host.query_event ≡ true
unfolding arrive leave wake
first-event (arrives bytes) s h = ap (λ t. t.client.host.query_event) (arrive-IsAsking bytes s h)
first-event leaves s h = refl

arrive_all-append :
    (xs ys : List Arrival) (s : Querier) → arrive_all ys (arrive_all xs s) ≡ arrive_all (xs ++ ys) s
unfolding arrive_all
arrive_all-append [] ys s = refl
arrive_all-append (a ∷ xs) ys s = arrive_all-append xs ys (arrive a s)

conclude-success : (s : Querier) → (conclude true s).0 ≡ ok s.client.host.query_result
unfolding finish_query
conclude-success s = refl

pub outcome-asking :
    (during late : List Arrival) (s : Querier)
    → IsAsking s.client.host
    → s.client.host.query_result ≡ none
    → s.client.host.query_event ≡ false
    → (conclude
        (arrive_all during s).client.host.query_event
        (arrive_all late (arrive_all during s))).0
      ≡ outcome during late
unfolding outcome arrive_all finish_query
outcome-asking [] late s h result event = rw event
outcome-asking (a ∷ during) late s h result event =
    ap (λ e. (conclude e (arrive_all late (arrive_all (a ∷ during) s))).0)
      (arrive_all-event during (arrive a s) (first-event a s h))
    ∙ ap (λ t. ok t.client.host.query_result) (arrive_all-append (a ∷ during) late s)
    ∙ ap (λ r. ok r)
        (arrive_all-asking (a ∷ during ++ late) s h ∙ ap (last_reply (a ∷ during ++ late)) result)
