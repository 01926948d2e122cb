-- ===== src/Scripts/Endings.antt =====
-- The examples of use come to their end, whatever the network and the client's own threads do.
use knot_link_sdk.Base.{
  ℕ, Bool, ◌≡◌, refl, ap, true, false, inl, inr, Option, some, List, [], ◌∷◌, arith, codes,
}
use knot_link_sdk.Exec.{Result, ok}
use knot_link_sdk.Text.Utf8.{Bytes, encode, encode_point}
use knot_link_sdk.Tcp.{TcpClient, Client, Callback, init, connect_to_server, send_data, disconnect}
use knot_link_sdk.Tcp.Net.{fresh}
use knot_link_sdk.Tcp.Sending.{send_data_returns}
use knot_link_sdk.Tcp.Invariant.{
  IsValid, IsValid-init, connect_to_server_lem, connect_to_server-IsValid, send_data-IsValid,
  disconnect-IsValid,
}
use knot_link_sdk.Tcp.Calls.{firing, reading, Step-IsValid, here}
use knot_link_sdk.Tcp.Final.{disconnect-IsFinal}
use knot_link_sdk.Roles.{local_host}
use knot_link_sdk.Roles.Subscriber as Subscriber
use knot_link_sdk.Roles.Subscriber.{Listener, subscriber_port, data_recv}
use knot_link_sdk.Roles.Responser as Responser
use knot_link_sdk.Roles.Responser.{
  Queue, Responser, responser_port, internal_data_recv, process_queue,
}
use knot_link_sdk.Roles.Responser.Validity.{process_queue-IsValid}
use knot_link_sdk.Roles.Sender as Sender
use knot_link_sdk.Roles.Sender.{SignalSender, sender_port, text, emitt, on_sender}
use knot_link_sdk.Roles.Sender.Signals.{emitt-sends}
use knot_link_sdk.Scripts.{
  Meanwhile, beats, reads, beat, meet, sleep, tcp_client, sender, subscriber, thanks, Service,
  meets, serves, attend, responser,
}

module _ {S : Type 0} where
  beat-IsValid :
      (timers : List ℕ) (c : Client S)
      → c.tcp.running ≡ timers
      → IsValid c.tcp
      → IsValid (beat timers c).tcp
  beat-IsValid [] c e v = v
  beat-IsValid (timer ∷ timers) c e v = Step-IsValid {c = c} (firing timer [] timers e) tt v

  meet-IsValid : (m : Meanwhile) (c : Client S) → IsValid c.tcp → IsValid (meet m c).tcp
  unfolding meet
  meet-IsValid beats c v = beat-IsValid c.tcp.running c refl v
  meet-IsValid (reads event) c v = Step-IsValid {c = c} (reading event) tt v

  sleep-IsValid : (ms : List Meanwhile) (c : Client S) → IsValid c.tcp → IsValid (sleep ms c).tcp
  unfolding sleep
  sleep-IsValid [] c v = v
  sleep-IsValid (m ∷ ms) c v = sleep-IsValid ms (meet m c) (meet-IsValid m c v)

  connect_to_server_returns :
      (ip : Bytes) (port : ℕ) (t : TcpClient S) → (connect_to_server ip port t).0 ≡ ok tt
  connect_to_server_returns ip port t = elim (connect_to_server_lem ip port t) [
    | inl e ↦ ap (λ p. p.0) e
    | inr (_, e) ↦ ap (λ p. p.0) e
  ]

-- The program has returned; its client is valid and not connected, the socket is closed, and no timer runs.
pub record Ended {S : Type 0} (r : Result (Unit {0})) (t : TcpClient S) : Type 0 where
  pub returned : r ≡ ok tt
  pub valid : IsValid t
  pub off : t.connected ≡ false
  pub shut : t.tcp_socket.closed ≡ true
  pub idle : t.running ≡ []

module _ {S : Type 0} where
  disconnect-Ended : (c : Client S) → IsValid c.tcp → Ended (ok tt) (disconnect c.tcp)
  disconnect-Ended c v =
      let f = disconnect-IsFinal {c = c} v here in
      record {
        returned = refl;
        valid = disconnect-IsValid c.tcp v;
        off = f.off;
        shut = f.shut;
        idle = f.idle;
      }

pub tcp_client-Ended :
    (second minute : List Meanwhile) (c : Client (Unit {0}))
    → IsValid c.tcp
    → Ended (tcp_client second minute c).0 (tcp_client second minute c).1.tcp
unfolding tcp_client
tcp_client-Ended second minute c v =
    let c1 : Client (Unit {0}) = record c {
      tcp = (connect_to_server local_host sender_port c.tcp).1;
    } in
    let c2 = sleep second c1 in
    let v2 = sleep-IsValid second c1 (connect_to_server-IsValid local_host sender_port c.tcp v) in
    let c3 : Client (Unit {0}) = record c2 {
      tcp = (send_data (codes "Hello, Server!") c2.tcp).1;
    } in
    let v3 = sleep-IsValid minute c3 (send_data-IsValid (codes "Hello, Server!") c2.tcp v2) in
    rw (connect_to_server_returns local_host sender_port c.tcp) (
      rw (send_data_returns (codes "Hello, Server!") c2.tcp (omega arith))
        (disconnect-Ended (sleep minute c3) v3))

one : encode (codes "1") ≡ some (codes "1")
unfolding encode encode_point
one = refl

hello_encodes : encode (codes "Hello, Server!") ≡ some (codes "Hello, Server!")
unfolding encode encode_point
hello_encodes = refl

abbrev signal : Bytes
signal = codes "1-1&*&Hello, Server!"

pub sender-Ended :
    (up : Bool) (faults : List (Option ℕ)) (wait : List Meanwhile)
    → Ended (sender up faults wait).0 (sender up faults wait).1.tcp
unfolding sender Sender.start
sender-Ended up faults wait =
    let t : TcpClient (Unit {0}) =
      (connect_to_server local_host sender_port (init (fresh up faults))).1 in
    let v : IsValid t =
      connect_to_server-IsValid local_host sender_port (init (fresh up faults))
        (IsValid-init up faults) in
    let s : SignalSender = record {
      app_id = some (codes "1");
      signal_id = some (codes "1");
      tcp = t;
    } in
    let sends =
      (emitt-sends (codes "Hello, Server!") (codes "1") (codes "1") (codes "Hello, Server!") s one
        one hello_encodes).0 in
    let t' : Client (Unit {0}) = record { tcp = (send_data signal t).1; host = tt } in
    rw (connect_to_server_returns local_host sender_port (init {S = Unit {0}} (fresh up faults))) (
      rw sends (
        rw (send_data_returns signal t (omega arith)) (
          disconnect-Ended (sleep wait t') (sleep-IsValid wait t' (send_data-IsValid signal t v)))))

key_encodes : encode (codes "1-1") ≡ some (codes "1-1")
unfolding encode encode_point
key_encodes = refl

registered-IsValid :
    {S : Type 0} (callback : Callback S) (t : TcpClient S)
    → IsValid t
    → IsValid (record t { received_data_callback = some callback })
registered-IsValid callback t v = record {
  linked = v.linked;
  before = v.before;
  one_timer = v.one_timer;
  stream = v.stream;
}

pub subscriber-Ended :
    (up : Bool) (faults : List (Option ℕ)) (wait : List Meanwhile)
    → Ended (subscriber up faults wait).0 (subscriber up faults wait).1.client.tcp
unfolding subscriber Subscriber.start Subscriber.send_key Subscriber.register
    Subscriber.set_recv_func Subscriber.leave
subscriber-Ended up faults wait =
    let t : TcpClient Listener =
      (connect_to_server local_host subscriber_port (init (fresh up faults))).1 in
    let t' = record t { received_data_callback = some data_recv } in
    let v = registered-IsValid data_recv t (
      connect_to_server-IsValid local_host subscriber_port (init (fresh up faults))
        (IsValid-init up faults)) in
    let c : Client Listener = record {
      tcp = (send_data (codes "1-1") t').1;
      host = record { callback = some (λ _. ok tt); heard = [] };
    } in
    rw
      (connect_to_server_returns local_host subscriber_port (init {S = Listener} (fresh up faults)))
      (rw (key_encodes, send_data_returns (codes "1-1") t' (omega arith))
        (disconnect-Ended (sleep wait c)
          (sleep-IsValid wait c (send_data-IsValid (codes "1-1") t' v))))

attend-IsValid :
    (doings : List Service) (s : Responser)
    → IsValid s.client.tcp
    → IsValid (attend doings s).client.tcp
unfolding attend
attend-IsValid [] s v = v
attend-IsValid (meets m ∷ rest) s v =
    attend-IsValid rest (record s { client = meet m s.client }) (meet-IsValid m s.client v)
attend-IsValid (serves ∷ rest) s v =
    attend-IsValid rest (process_queue 1 s).1 (process_queue-IsValid 1 s v)

responser_key_encodes :
    encode (codes "0x00000001-0x00000002") ≡ some (codes "0x00000001-0x00000002")
unfolding encode encode_point
responser_key_encodes = refl

pub responser-Ended :
    (up : Bool) (faults : List (Option ℕ)) (minute : List Service)
    → Ended (responser up faults minute).0 (responser up faults minute).1.client.tcp
unfolding responser Responser.start Responser.send_key Responser.register Responser.set_recv_func
    Responser.leave
responser-Ended up faults minute =
    let key = codes "0x00000001-0x00000002" in
    let t : TcpClient Queue =
      (connect_to_server local_host responser_port (init (fresh up faults))).1 in
    let t' = record t { received_data_callback = some internal_data_recv } in
    let v = registered-IsValid internal_data_recv t (
      connect_to_server-IsValid local_host responser_port (init (fresh up faults))
        (IsValid-init up faults)) in
    let s : Responser = record {
      app_id = some (codes "0x00000001");
      open_socket_id = some (codes "0x00000002");
      recv_func = some thanks;
      client = record { tcp = (send_data key t').1; host = record { items = []; unfinished = 0 } };
    } in
    rw (connect_to_server_returns local_host responser_port (init {S = Queue} (fresh up faults))) (
      rw (responser_key_encodes, send_data_returns key t' (omega arith))
        (disconnect-Ended (attend minute s).client
          (attend-IsValid minute s (send_data-IsValid key t' v))))

-- The examples of use of the client, the sender, the subscriber and the responder return, whether
-- the server answers or not, whatever errors sending meets, and whatever happens while they
-- sleep: firings of the client's timer, events of its reading thread and, for the responder,
-- rounds of its other thread. At the end the client is valid and not connected, its socket is
-- closed and no timer runs.
pub examples-Ended :
    (up : Bool) (faults : List (Option ℕ)) (second wait : List Meanwhile) (doings : List Service)
    → (let p = tcp_client second wait (record { tcp = init (fresh up faults); host = tt }) in
        Ended p.0 p.1.tcp)
      × (let p = sender up faults wait in Ended p.0 p.1.tcp)
      × (let p = subscriber up faults wait in Ended p.0 p.1.client.tcp)
      × (let p = responser up faults doings in Ended p.0 p.1.client.tcp)
examples-Ended up faults second wait doings = (
  tcp_client-Ended second wait (record { tcp = init (fresh up faults); host = tt })
      (IsValid-init up faults),
  sender-Ended up faults wait,
  subscriber-Ended up faults wait,
  responser-Ended up faults doings,
)
