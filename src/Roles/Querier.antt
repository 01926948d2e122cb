-- ===== src/Roles/Querier.antt =====
-- knotlink-sdk-python/knotlink/knotlink/OpenSocketQuerier.py
pub mod Waits
pub mod Queries
pub mod Arrivals
pub mod Nested
pub mod Concurrent
use knot_link_sdk.Base.{
  ℕ, Bool, true, false, ◌&&◌, not, Option, none, some, List, [], ◌∷◌, ◌++◌, if◌then◌else◌,
}
use knot_link_sdk.Exec.{Exc, timeout_error, Result, ok, raised, Exec, continue, ◌>>=◌, ◌>>◌}
use knot_link_sdk.Text.Utf8.{Text, Bytes, decode_replace}
use knot_link_sdk.Tcp.{TcpClient, Client, Callback, init, connect_to_server, send_data, disconnect}
use knot_link_sdk.Tcp.Net.{fresh}
use knot_link_sdk.Roles.{channel_key, key_prefix, encoded, on_tcp, local_host, UserFunction}

-- The fields that `_state_lock` protects, the callback, and the texts that it got.
pub record Waiting : Type 0 where
  pub query_result : Option Text
  pub query_event : Bool
  pub is_querying : Bool
  pub timeout_occurred : Bool
  pub callback : Option (UserFunction (Unit {0}))
  pub heard : List Text

pub record Querier : Type 0 where
  pub app_id : Option Text
  pub open_socket_id : Option Text
  pub client : Client Waiting

abbrev pub querier_port : ℕ
querier_port = 6376

abbrev pub on_querier : {A : Type 0} → Exec (TcpClient Waiting) A → Exec Querier A
on_querier m s = let (r, c) = on_tcp m s.client in (r, record s { client = c })

abbrev pub on_host : (Waiting → Waiting) → Querier → Querier
on_host f s = record s { client = record s.client { host = f s.client.host } }

pub call_back : Option (UserFunction (Unit {0})) → Text → Exec Waiting (Unit {0})
call_back none s w = (ok tt, w)
call_back (some f) s w = (f s, record w { heard = w.heard ++ s ∷ [] })

-- `_internal_data_recv`
unfoldable pub internal_data_recv : Callback Waiting
internal_data_recv bytes w =
    if w.is_querying && not w.timeout_occurred
    then (ok tt, record w { query_result = some (decode_replace bytes); query_event = true })
    else call_back w.callback (decode_replace bytes) w

-- `_query`
unfoldable pub send_query : Option Text → Option Text → Bytes → Exec Querier (Unit {0})
send_query app id bytes = do
  key ← encoded (key_prefix (channel_key app id))
  on_querier (send_data (key ++ bytes))

unfoldable pub query_async : Text → Exec Querier (Unit {0})
query_async data_ s = (do bytes ← encoded data_; send_query s.app_id s.open_socket_id bytes) s

-- The first locked part of `query`
unfoldable pub begin_query : Waiting → Waiting
begin_query w = record w {
  query_result = none;
  query_event = false;
  is_querying = true;
  timeout_occurred = false;
}

-- The second locked part of `query`
unfoldable pub finish_query : Bool → Exec Waiting (Option Text)
finish_query false w =
    (raised timeout_error, record w { is_querying = false; timeout_occurred = true })
finish_query true w = (ok w.query_result, record w { is_querying = false })

-- The locked part of `disconnect`
pub wake : Waiting → Waiting
wake w = record w { timeout_occurred = true; query_event = true }

-- `disconnect`, and `close` and `__exit__`, which call it
pub leave : Querier → Querier
leave s = record s { client = record { tcp = disconnect s.client.tcp; host = wake s.client.host } }

-- What other threads do while `query` waits: the reading thread hands over a message, or somebody
-- calls `disconnect`.
pub data Arrival : Type 0 where
  arrives : Bytes → Arrival
  leaves : Arrival

pub arrive : Arrival → Querier → Querier
arrive (arrives bytes) s = on_host (λ w. (internal_data_recv bytes w).1) s
arrive leaves s = leave s

pub arrive_all : List Arrival → Querier → Querier
arrive_all [] s = s
arrive_all (a ∷ arrivals) s = arrive_all arrivals (arrive a s)

abbrev pub conclude : Bool → Exec Querier (Option Text)
conclude success s =
    let (r, w) = finish_query success s.client.host in
    (r, record s { client = record s.client { host = w } })

-- How `query_event.wait(timeout=timeout)` comes to its end: a timeout that is set passes with nothing having
-- happened, or something happens, and perhaps more before the thread goes on. Without a timeout the thread
-- waits until something happens.
pub data Wait : Option ℕ → Type 0 where
  times_out : (seconds : ℕ) → Wait (some seconds)
  ends : {timeout : Option ℕ} → Arrival → List Arrival → Wait timeout

abbrev pub during : {timeout : Option ℕ} → Wait timeout → List Arrival
during (times_out seconds) = []
during (ends a arrivals) = a ∷ arrivals

-- `query` in one thread; `late` happens between the end of the wait and the lock. The wait succeeds if the
-- event has been set during it, and else it has timed out.
pub query : Text → (timeout : Option ℕ) → Wait timeout → List Arrival → Exec Querier (Option Text)
query data_ timeout wait late s =
    (query_async data_ >> λ s1.
    let s2 = arrive_all (during wait) s1 in
    conclude s2.client.host.query_event (arrive_all late s2))
      (on_host begin_query s)

pub set_config : Text → Text → Querier → Querier
set_config app id s = record s { app_id = some app; open_socket_id = some id }

pub set_recv_func : UserFunction (Unit {0}) → Querier → Querier
set_recv_func f s = on_host (λ w. record w { callback = some f }) s

abbrev pub idle : Waiting
idle = record {
  query_result = none;
  query_event = false;
  is_querying = false;
  timeout_occurred = false;
  callback = none;
  heard = [];
}

-- `__init__` and `init`
pub start : Bool → List (Option ℕ) → Option Text → Option Text → Result (Unit {0}) × Querier
start up faults app id =
    (on_querier (connect_to_server local_host querier_port) >> λ s. (
      ok tt,
      record s {
        client = record s.client {
          tcp = record s.client.tcp { received_data_callback = some internal_data_recv };
        };
      },
    ))
      (record {
        app_id = app;
        open_socket_id = id;
        client = record { tcp = init (fresh up faults); host = idle };
      })
