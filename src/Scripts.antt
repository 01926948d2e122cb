-- ===== src/Scripts.antt =====
-- The examples of use at the end of tcpclient.py, SignalSender.py, SignalSubscriber.py,
-- OpenSocketResponser.py, OpenSocketQuerier.py and kludf.py, which run as programs of their own.
pub mod Endings
use knot_link_sdk.Base.{ℕ, Bool, Option, none, some, List, [], ◌∷◌, codes}
use knot_link_sdk.Exec.{Result, ok, Exec, pure, continue, ◌>>=◌, ◌>>◌}
use knot_link_sdk.Text.Utf8.{Text}
use knot_link_sdk.Tcp.{Client, Recv, connect_to_server, send_data, fire, receive_data, disconnect}
use knot_link_sdk.Roles.{local_host, on_tcp, UserFunction}
use knot_link_sdk.Roles.Sender as Sender
use knot_link_sdk.Roles.Sender.{SignalSender, sender_port, text, emitt}
use knot_link_sdk.Roles.Subscriber as Subscriber
use knot_link_sdk.Roles.Subscriber.{SignalSubscriber}
use knot_link_sdk.Roles.Responser as Responser
use knot_link_sdk.Roles.Responser.{process_queue}
use knot_link_sdk.Roles.Querier as Querier
use knot_link_sdk.Roles.Querier.{Arrival, ends, query, query_async, on_querier}
use knot_link_sdk.KvMap.{KvMap, serialize, set_item, deserialize, get}

-- What a client's own threads do while the main thread sleeps: its timer fires, if one runs, or the
-- reading thread gets an event.
pub data Meanwhile : Type 0 where
  beats : Meanwhile
  reads : Recv → Meanwhile

module _ {S : Type 0} where
  abbrev pub beat : List ℕ → Client S → Client S
  beat [] c = c
  beat (timer ∷ timers) c = record c { tcp = (fire timer c.tcp).1 }

  unfoldable pub meet : Meanwhile → Client S → Client S
  meet beats c = beat c.tcp.running c
  meet (reads event) c = (receive_data (event ∷ []) c).1

  -- `time.sleep(…)`
  unfoldable pub sleep : List Meanwhile → Client S → Client S
  sleep [] c = c
  sleep (m ∷ ms) c = sleep ms (meet m c)

abbrev pub hello : Text
hello = codes "Hello, Server!"

-- tcpclient.py
unfoldable pub tcp_client : List Meanwhile → List Meanwhile → Exec (Client (Unit {0})) (Unit {0})
tcp_client second minute = on_tcp (connect_to_server local_host sender_port) >> λ c1.
    (on_tcp (send_data hello) >> λ c2.
    (ok tt, let c = sleep minute c2 in record c { tcp = disconnect c.tcp }))
      (sleep second c1)

-- SignalSender.py
unfoldable pub sender : Bool → List (Option ℕ) → List Meanwhile → Result (Unit {0}) × SignalSender
sender up faults wait =
    let (r, s) = Sender.start up faults (some (codes "1")) (some (codes "1")) in
    continue r
      (λ _. emitt (text hello) >> λ s1.
        let c = sleep wait (record { tcp = s1.tcp; host = tt }) in
        (ok tt, record s1 { tcp = disconnect c.tcp }))
      s

-- `my_callback`, which prints the text
abbrev printing : UserFunction (Unit {0})
printing data_ = ok tt

-- SignalSubscriber.py
unfoldable pub subscriber :
    Bool → List (Option ℕ) → List Meanwhile → Result (Unit {0}) × SignalSubscriber
subscriber up faults wait =
    let (r, s) = Subscriber.start up faults (codes "1") (codes "1") in
    continue r
      (λ _ s1.
        let s2 = Subscriber.set_recv_func printing s1 in
        (ok tt, Subscriber.leave (record s2 { client = sleep wait s2.client })))
      s

-- `on_received_data`
abbrev pub thanks : UserFunction (Option Text)
thanks data_ = ok (some (codes "Hello, Client! Your message has been received."))

-- What the responder's own threads do while the main thread sleeps: as above, or a round of `_process_queue`.
pub data Service : Type 0 where
  meets : Meanwhile → Service
  serves : Service

unfoldable pub attend : List Service → Responser.Responser → Responser.Responser
attend [] s = s
attend (meets m ∷ rest) s = attend rest (record s { client = meet m s.client })
attend (serves ∷ rest) s = attend rest (process_queue 1 s).1

-- OpenSocketResponser.py
unfoldable pub responser :
    Bool → List (Option ℕ) → List Service → Result (Unit {0}) × Responser.Responser
responser up faults minute =
    let (r, s) = Responser.start up faults (codes "0x00000001") (codes "0x00000002") in
    continue r
      (λ _ s1. (ok tt, Responser.leave (attend minute (Responser.set_recv_func thanks s1)))) s

-- OpenSocketQuerier.py. The query has no timeout; `arrival` ends its wait.
unfoldable pub querier :
    Bool
    → List (Option ℕ)
    → Arrival
    → List Arrival
    → List Arrival
    → List Meanwhile
    → Result (Unit {0}) × Querier.Querier
querier up faults arrival during late minute =
    let (r, s) = Querier.start up faults (some (codes "0x00000001")) (some (codes "0x00000011")) in
    continue r
      (λ _ s1.
        (query hello none (ends arrival during) late
            >> query_async (codes "Another message")
            >> λ s2.
                let c = sleep minute s2.client in
                (ok tt, record s2 { client = record c { tcp = disconnect c.tcp } }))
          (Querier.set_recv_func printing s1))
      s

-- kludf.py: the text, the map that is read from it, and the values of "key1" and of "key3" in it
unfoldable pub kv_map : (List ℕ) × KvMap × (List ℕ) × (List ℕ)
kv_map =
    let kv =
      set_item (set_item [] (codes "key1") (codes "value1")) (codes "key2") (codes "value2") in
    let serialized = serialize kv in
    let new_kv = deserialize [] serialized in
    (serialized, new_kv, get new_kv (codes "key1") [], get new_kv (codes "key3") [])
