-- ===== src/Roles/Responser.antt =====
-- knotlink-sdk-python/knotlink/knotlink/OpenSocketResponser.py
pub mod Answers
pub mod Service
pub mod Deliveries
pub mod Exchanges
pub mod Encodings
pub mod Validity
pub mod Turns
pub mod Interleavings
pub mod Registration
use knot_link_sdk.Base.{
  ℕ, zero, suc, ◌+◌, ◌-◌, Bool, Option, none, some, List, [], ◌∷◌, ◌++◌, if◌then◌else◌,
}
use knot_link_sdk.Exec.{Exc, Result, ok, raised, Exec, pure, continue, ◌>>=◌, ◌>>◌}
use knot_link_sdk.Text.Utf8.{Text, Bytes, decode, decode_replace}
use knot_link_sdk.Text.Search.{separator, cut}
use knot_link_sdk.Tcp.{TcpClient, Client, Callback, init, connect_to_server, send_data, disconnect}
use knot_link_sdk.Tcp.Net.{fresh}
use knot_link_sdk.Roles.{channel_key, key_prefix, encoded, on_tcp, local_host, UserFunction}

-- `data_queue`: the payloads with their keys, and the count of `task_done` calls that are outstanding.
pub record Queue : Type 0 where
  pub items : List (Text × Text)
  pub unfinished : ℕ

pub record Responser : Type 0 where
  pub app_id : Option Text
  pub open_socket_id : Option Text
  pub recv_func : Option (UserFunction (Option Text))
  pub client : Client Queue

abbrev pub responser_port : ℕ
responser_port = 6378

abbrev pub on_responser : {A : Type 0} → Exec (TcpClient Queue) A → Exec Responser A
on_responser m s = let (r, c) = on_tcp m s.client in (r, record s { client = c })

-- `Queue.put`
abbrev pub put : Text × Text → Queue → Queue
put item q = record { items = q.items ++ item ∷ []; unfinished = q.unfinished + 1 }

-- A payload that is not empty goes into the queue under its key.
pub enqueue : Bytes → Text → Queue → Queue
enqueue [] key q = q
enqueue payload key q = put (decode_replace payload, key) q

-- The key is decoded strictly: if that fails, the request is dropped.
pub enqueue_under : Option Text → Bytes → Queue → Queue
enqueue_under none payload q = q
enqueue_under (some key) payload q = enqueue payload key q

-- `_internal_data_recv`
pub internal_data_recv : Callback Queue
internal_data_recv bytes q = elim (cut separator bytes) [
  | none ↦ (ok tt, q)
  | some (key, payload) ↦ (ok tt, enqueue_under (decode key) payload q)
]

pub send_back : Text → Text → Exec Responser (Unit {0})
send_back data_ key = do
  prefix ← encoded (key_prefix key)
  bytes ← encoded data_
  on_responser (send_data (prefix ++ bytes))

-- A response that is `None` is not sent.
pub send_response : Option Text → Text → Exec Responser (Unit {0})
send_response none key = pure tt
send_response (some response) key = send_back response key

-- The body of the `try`
pub answer : Option (UserFunction (Option Text)) → Text → Text → Exec Responser (Unit {0})
answer none payload key s = (ok tt, s)
answer (some f) payload key s = continue (f payload) (λ response. send_response response key) s

-- `finally: self.data_queue.task_done()`
pub task_done : Responser → Responser
task_done s = record s {
  client = record s.client {
    host = record s.client.host { unfinished = s.client.host.unfinished - 1 };
  };
}

abbrev pub with_items : List (Text × Text) → Responser → Responser
with_items items s = record s {
  client = record s.client { host = record s.client.host { items = items } };
}

-- `self.data_queue.get(timeout=0.5)` and what follows it: an empty queue makes the thread look again.
pub serve : List (Text × Text) → Exec Responser (Unit {0})
serve [] s = (ok tt, s)
serve ((payload, key) ∷ items) s =
    let (r, s') = answer s.recv_func payload key (with_items items s) in (r, task_done s')

-- The loop of `_process_queue`, for some rounds; an exception ends the thread.
pub process_queue : ℕ → Exec Responser (Unit {0})
process_queue zero s = (ok tt, s)
process_queue (suc rounds) s =
    if s.client.tcp.connected
    then (serve s.client.host.items >> process_queue rounds) s
    else (ok tt, s)

unfoldable pub register : Responser → Responser
register s = record s {
  client = record s.client {
    tcp = record s.client.tcp { received_data_callback = some internal_data_recv };
  };
}

unfoldable pub send_key : Exec Responser (Unit {0})
send_key s =
    (do key ← encoded (channel_key s.app_id s.open_socket_id); on_responser (send_data key)) s

-- `__init__` and `init`; the thread of `_process_queue` starts after it.
unfoldable pub start : Bool → List (Option ℕ) → Text → Text → Result (Unit {0}) × Responser
start up faults app id =
    (on_responser (connect_to_server local_host responser_port) >> λ s. send_key (register s))
      (record {
        app_id = some app;
        open_socket_id = some id;
        recv_func = none;
        client = record {
          tcp = init (fresh up faults);
          host = record { items = []; unfinished = 0 };
        };
      })

unfoldable pub set_recv_func : UserFunction (Option Text) → Responser → Responser
set_recv_func f s = record s { recv_func = some f }

-- `disconnect`, and `close` and `__exit__`, which call it
unfoldable pub leave : Responser → Responser
leave s = record s { client = record s.client { tcp = disconnect s.client.tcp } }
