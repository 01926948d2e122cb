-- ===== src/Roles/Sender.antt =====
-- knotlink-sdk-python/knotlink/knotlink/SignalSender.py
pub mod Signals
pub mod Messages
use knot_link_sdk.Base.{ℕ, Bool, Option, some, List, ◌++◌}
use knot_link_sdk.Exec.{Result, Exec, ◌>>=◌}
use knot_link_sdk.Text.Utf8.{Text, Bytes}
use knot_link_sdk.Tcp.{TcpClient, init, connect_to_server, send_data, disconnect}
use knot_link_sdk.Tcp.Net.{fresh}
use knot_link_sdk.Roles.{channel_key, key_prefix, encoded, local_host}

pub record SignalSender : Type 0 where
  pub app_id : Option Text
  pub signal_id : Option Text
  pub tcp : TcpClient (Unit {0})

abbrev pub sender_port : ℕ
sender_port = 6370

-- A call of `self.KLsender`
abbrev pub on_sender : {A : Type 0} → Exec (TcpClient (Unit {0})) A → Exec SignalSender A
on_sender m s = let (r, t) = m s.tcp in (r, record s { tcp = t })

-- `__init__`
unfoldable pub start :
    Bool → List (Option ℕ) → Option Text → Option Text → Result (Unit {0}) × SignalSender
start up faults app id =
    on_sender (connect_to_server local_host sender_port)
      (record { app_id = app; signal_id = id; tcp = init (fresh up faults) })

pub set_config : Text → Text → SignalSender → SignalSender
set_config app id s = record s { app_id = some app; signal_id = some id }

-- The argument of `emitt`: `isinstance(data, str)`, or bytes
pub data Payload : Type 0 where
  text : Text → Payload
  raw : Bytes → Payload

-- `__emitt`
pub emitt_bytes : Option Text → Option Text → Bytes → Exec SignalSender (Unit {0})
emitt_bytes app id bytes = do
  key ← encoded (key_prefix (channel_key app id))
  on_sender (send_data (key ++ bytes))

-- `_emitt`
pub emitt_payload : Option Text → Option Text → Payload → Exec SignalSender (Unit {0})
emitt_payload app id (text s) = do bytes ← encoded s; emitt_bytes app id bytes
emitt_payload app id (raw bytes) = emitt_bytes app id bytes

pub emitt : Payload → Exec SignalSender (Unit {0})
emitt payload s = emitt_payload s.app_id s.signal_id payload s

-- `disconnect`, and `close` and `__exit__`, which call it
unfoldable pub leave : SignalSender → SignalSender
leave s = record s { tcp = disconnect s.tcp }
