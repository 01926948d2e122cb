-- ===== src/Roles/Querier/Nested.antt =====
-- OpenSocketQuerier.py with a user's function that queries, in the thread that alone could take the reply.
use knot_link_sdk.Base.{
  ℕ, ◌≤◌, ◌≡◌, refl, ap, subst, true, false, ◌&&◌, not, Option, some, List, [], ◌∷◌, ◌++◌, length,
  seq_eq, if_false, ◌∙◌, if◌then◌else◌,
}
use knot_link_sdk.Exec.{timeout_error, ok, raised, Exec, continue}
use knot_link_sdk.Text.Utf8.{Text, Bytes, encode, decode_replace}
use knot_link_sdk.Wire.{IsSendable, max_msg_size, frame, heartbeat_response}
use knot_link_sdk.Tcp.{Client, Recv, chunk, with_buffer}
use knot_link_sdk.Tcp.Sending.{send_data_returns}
use knot_link_sdk.Tcp.Reentrant.{Handler, receive_data_by}
use knot_link_sdk.Tcp.Reentrant.Raising.{IsDown, receive_data_by-IsDown}
use knot_link_sdk.Roles.{channel_key, key_prefix}
use knot_link_sdk.Roles.Querier.{
  Waiting, Querier, times_out, begin_query, finish_query, on_host, arrive_all, query, query_async,
  send_query,
}
use knot_link_sdk.Roles.Querier.Waits.{query_async-host}

-- `_internal_data_recv`, the user's function being a program that works on the querier's client too.
unfoldable pub internal_data_recv_by : (Text → Exec (Client Waiting) (Unit {0})) → Handler Waiting
internal_data_recv_by program bytes c =
    let s = decode_replace bytes in
    if c.host.is_querying && not c.host.timeout_occurred
    then (ok tt, record c { host = record c.host { query_result = some s; query_event = true } })
    else program s (record c { host = record c.host { heard = c.host.heard ++ s ∷ [] } })

-- A user's function that asks `question` with a timeout, whatever the text is. While it waits nothing arrives, since
-- the reading thread is the one that waits.
unfoldable pub ask : Option Text → Option Text → Text → ℕ → Text → Exec (Client Waiting) (Unit {0})
ask app id question seconds s c =
    let (r, q) =
      query question (some seconds) (times_out seconds) []
        (record { app_id = app; open_socket_id = id; client = c }) in
    (continue r (λ _ d. (ok tt, d)) q.client)

-- The fields after a text came whose query has timed out.
abbrev pub timed_out : Text → Waiting → Waiting
timed_out s w = record (begin_query (record w { heard = w.heard ++ s ∷ [] })) {
  is_querying = false;
  timeout_occurred = true;
}

query_async_returns :
    (question : Text) (qb kb : Bytes) (s : Querier)
    → encode question ≡ some qb
    → encode (key_prefix (channel_key s.app_id s.open_socket_id)) ≡ some kb
    → length (kb ++ qb) ≤ max_msg_size
    → (query_async question s).0 ≡ ok tt
unfolding query_async send_query
query_async_returns question qb kb s eq ek fits =
    rw (eq, ek) (send_data_returns (kb ++ qb) s.client.tcp fits)

-- The wait of a query for which nothing comes.
query-timed_out :
    (question : Text) (seconds : ℕ) (s : Querier)
    → (query_async question (on_host begin_query s)).0 ≡ ok tt
    → ((query question (some seconds) (times_out seconds) [] s).0 ≡ raised timeout_error)
      × ((query question (some seconds) (times_out seconds) [] s).1.client.host
          ≡ record (begin_query s.client.host) { is_querying = false; timeout_occurred = true })
unfolding query arrive_all finish_query begin_query
query-timed_out question seconds s sent =
    let host = query_async-host question (on_host begin_query s) in rw sent (rw host (refl, refl))

ask-timed_out :
    (app id : Option Text) (question s : Text) (seconds : ℕ) (qb kb : Bytes) (c : Client Waiting)
    → encode question ≡ some qb
    → encode (key_prefix (channel_key app id)) ≡ some kb
    → length (kb ++ qb) ≤ max_msg_size
    → ((ask app id question seconds s c).0 ≡ raised timeout_error)
      × ((ask app id question seconds s c).1.host
          ≡ record (begin_query c.host) { is_querying = false; timeout_occurred = true })
unfolding ask
ask-timed_out app id question s seconds qb kb c eq ek fits =
    let q : Querier = record { app_id = app; open_socket_id = id; client = c } in
    let (out, host) =
      query-timed_out question seconds q
        (query_async_returns question qb kb (on_host begin_query q) eq ek fits) in
    rw out (refl, host)

-- On a connected querier that is not in a query and whose user's function sends a query with a
-- timeout, a chunk completes the frame of a message that is no heartbeat response; the question
-- and the key have encodings of at most 16 MB together. Whatever stands behind that frame and
-- arrives later, the reading thread, where the query times out, takes the TimeoutError for a
-- socket error: it returns, the client is not connected, and of all texts the function has got
-- only that of the message.
pub receive_data_by-timed_out :
    (app id : Option Text) (question : Text) (seconds : ℕ) (qb kb : Bytes) (x : ℕ)
    (xs msg rest : Bytes) (events : List Recv) (c : Client Waiting)
    → encode question ≡ some qb
    → encode (key_prefix (channel_key app id)) ≡ some kb
    → length (kb ++ qb) ≤ max_msg_size
    → c.tcp.connected ≡ true
    → c.host.is_querying ≡ false
    → c.tcp.buffer ++ x ∷ xs ≡ frame msg ++ rest
    → IsSendable msg
    → seq_eq msg heartbeat_response ≡ false
    → IsDown (timed_out (decode_replace msg) c.host) (
        receive_data_by
          (internal_data_recv_by (ask app id question seconds))
          (chunk (x ∷ xs) ∷ events)
          c)
unfolding internal_data_recv_by
receive_data_by-timed_out app id question seconds qb kb x xs msg rest events c eq ek fits on idle
      stream s no_beat =
    let text = decode_replace msg in
    let c' = with_buffer rest c in
    let d = record c' { host = record c.host { heard = c.host.heard ++ text ∷ [] } } in
    let (out, host) = ask-timed_out app id question text seconds qb kb d eq ek fits in
    subst
      (λ w. IsDown w (
        receive_data_by (internal_data_recv_by (ask app id question seconds))
          (chunk (x ∷ xs) ∷ events) c))
      host
      (receive_data_by-IsDown (internal_data_recv_by (ask app id question seconds)) x xs msg rest
        events timeout_error c (ask app id question seconds text d).1 on stream s no_beat refl
        (if_false _ _ (ap (λ b. b && not c.host.timeout_occurred) idle)
          ∙ ap (λ r. (r, (ask app id question seconds text d).1)) out))
