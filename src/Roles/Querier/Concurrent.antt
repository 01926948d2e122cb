-- ===== src/Roles/Querier/Concurrent.antt =====
-- OpenSocketQuerier.py, `query` in two threads at once, step by step: the parts under the lock, the sending
-- and the wait take turns with each other, with the reading thread and with `disconnect`.
pub mod Fresh
pub mod Shared
use knot_link_sdk.Base.{Bool, true, false, Option, List, [], ◌∷◌, if◌then◌else◌}
use knot_link_sdk.Exec.{Exc, Result, raised}
use knot_link_sdk.Text.Utf8.{Text, Bytes, decode_replace}
use knot_link_sdk.Roles.Querier.{Waiting, begin_query, finish_query, internal_data_recv, wake}

-- Where a thread is: before the first lock, before or in the sending, in the wait, before the second lock
-- with what the wait has returned, or at the end.
pub data Stage : Type 0 where
  calling sending waiting : Stage
  woken : Bool → Stage
  returned : Result (Option Text) → Stage

-- How a thread goes on: `fails` is a sending that raises, `times_out` a wait whose time is over.
pub data Go : Type 0 where
  goes times_out : Go
  fails : Exc → Go

-- `self._query(…)`; it leaves the fields as they are.
abbrev pub send_at : Go → Stage
send_at goes = waiting
send_at times_out = waiting
send_at (fails e) = returned (raised e)

-- `self.query_event.wait(timeout=timeout)`, with the event set or not
abbrev pub wait_at : Go → Bool → Stage
wait_at times_out event = woken event
wait_at goes event = if event then woken true else waiting
wait_at (fails e) event = if event then woken true else waiting

abbrev pub query_at : Go → Stage → Waiting → Stage × Waiting
query_at go calling w = (sending, begin_query w)
query_at go sending w = (send_at go, w)
query_at go waiting w = (wait_at go w.query_event, w)
query_at go (woken success) w = let (r, w') = finish_query success w in (returned r, w')
query_at go (returned r) w = (returned r, w)

-- The locked fields, and where the two threads are.
pub record Queries : Type 0 where
  pub host : Waiting
  pub first : Stage
  pub second : Stage

-- `query_event.set()` wakes every thread that waits, also if another one clears the event before it goes on.
abbrev pub awaken : Bool → Stage → Stage
awaken true waiting = woken true
awaken _ s = s

abbrev pub wake_all : Queries → Queries
wake_all q = record q {
  first = awaken q.host.query_event q.first;
  second = awaken q.host.query_event q.second;
}

pub data Event : Type 0 where
  first_does second_does : Go → Event
  hears : Bytes → Event
  somebody_leaves : Event

unfoldable pub query_step : Event → Queries → Queries
query_step (first_does go) q =
    let (s, w) = query_at go q.first q.host in record q { first = s; host = w }
query_step (second_does go) q =
    let (s, w) = query_at go q.second q.host in record q { second = s; host = w }
query_step (hears bytes) q = wake_all (record q { host = (internal_data_recv bytes q.host).1 })
query_step somebody_leaves q = wake_all (record q { host = wake q.host })

unfoldable pub query_steps : List Event → Queries → Queries
query_steps [] q = q
query_steps (event ∷ events) q = query_steps events (query_step event q)

-- The texts of the messages that arrive.
abbrev pub texts_heard : List Event → List Text
texts_heard [] = []
texts_heard (hears bytes ∷ events) = decode_replace bytes ∷ texts_heard events
texts_heard (first_does go ∷ events) = texts_heard events
texts_heard (second_does go ∷ events) = texts_heard events
texts_heard (somebody_leaves ∷ events) = texts_heard events
