-- ===== src/Roles/Subscriber.antt =====
-- knotlink-sdk-python/knotlink/knotlink/SignalSubscriber.py
pub mod Registration
pub mod Signals
pub mod Leaving
pub mod Encodings
use knot_link_sdk.Base.{ℕ, Bool, Option, none, some, List, [], ◌∷◌, ◌++◌}
use knot_link_sdk.Exec.{Result, ok, Exec, ◌>>=◌, ◌>>◌}
use knot_link_sdk.Text.Utf8.{Text, decode_replace}
use knot_link_sdk.Tcp.{TcpClient, Client, Callback, init, connect_to_server, send_data, disconnect}
use knot_link_sdk.Tcp.Net.{fresh}
use knot_link_sdk.Roles.{channel_key, encoded, on_tcp, local_host, UserFunction}

-- The fields that the receiving thread works on; `heard` are the texts that the user's callback got.
pub record Listener : Type 0 where
  pub callback : Option (UserFunction (Unit {0}))
  pub heard : List Text

pub record SignalSubscriber : Type 0 where
  pub app_id : Option Text
  pub signal_id : Option Text
  pub client : Client Listener

abbrev pub subscriber_port : ℕ
subscriber_port = 6372

-- A call of `self.KLsubscriber`
abbrev pub on_subscriber : {A : Type 0} → Exec (TcpClient Listener) A → Exec SignalSubscriber A
on_subscriber m s = let (r, c) = on_tcp m s.client in (r, record s { client = c })

-- `self.callback(received_text)`
pub call_back : Option (UserFunction (Unit {0})) → Text → Exec Listener (Unit {0})
call_back none s l = (ok tt, l)
call_back (some f) s l = (f s, record l { heard = l.heard ++ s ∷ [] })

-- `data_recv`; decoding with errors="replace" does not raise
pub data_recv : Callback Listener
data_recv bytes l = call_back l.callback (decode_replace bytes) l

-- The key goes out without a separator: it subscribes.
unfoldable pub send_key : Exec SignalSubscriber (Unit {0})
send_key s = (do key ← encoded (channel_key s.app_id s.signal_id); on_subscriber (send_data key)) s

unfoldable pub register : SignalSubscriber → SignalSubscriber
register s = record s {
  client = record s.client {
    tcp = record s.client.tcp { received_data_callback = some data_recv };
  };
}

-- `__init__` and `init`
unfoldable pub start : Bool → List (Option ℕ) → Text → Text → Result (Unit {0}) × SignalSubscriber
start up faults app id =
    (on_subscriber (connect_to_server local_host subscriber_port) >> λ s. send_key (register s))
      (record {
        app_id = some app;
        signal_id = some id;
        client = record {
          tcp = init (fresh up faults);
          host = record { callback = none; heard = [] };
        };
      })

pub subscribe : Text → Text → Exec SignalSubscriber (Unit {0})
subscribe app id s = send_key (record s { app_id = some app; signal_id = some id })

unfoldable pub set_recv_func : UserFunction (Unit {0}) → SignalSubscriber → SignalSubscriber
set_recv_func f s = record s {
  client = record s.client { host = record s.client.host { callback = some f } };
}

-- `disconnect`, and `close` and `__exit__`, which call it
unfoldable pub leave : SignalSubscriber → SignalSubscriber
leave s = record s { client = record s.client { tcp = disconnect s.client.tcp } }
