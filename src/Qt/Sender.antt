-- ===== src/Qt/Sender.antt =====
-- knotlink-sdk-pyqt/knotlink-pyqt/knotlink-pyqt/SignalSender.py
pub mod Agreement
use knot_link_sdk.Base.{ℕ, Bool, Option, some, List, [], ◌∷◌, ◌++◌}
use knot_link_sdk.Exec.{Result, ok, Exec, ◌>>=◌}
use knot_link_sdk.Text.Utf8.{Text, Bytes}
use knot_link_sdk.Roles.{channel_key, key_prefix, encoded, local_host}
use knot_link_sdk.Roles.Sender.{Payload, text, raw, sender_port}
use knot_link_sdk.Qt.{Toolkit}
use knot_link_sdk.Qt.Connection.{QtClient, Slots, connect_to_server, send_data}

pub record QtSender (qt : Toolkit) (S : Type 0) : Type 0 where
  pub app_id : Option Text
  pub signal_id : Option Text
  pub client : QtClient qt S

module _ (qt : Toolkit) {S : Type 0} where
  -- `__init__`, with the new client
  pub start : Slots qt S → Option Text → Option Text → QtClient qt S → QtSender qt S
  start slots app id client = record {
    app_id = app;
    signal_id = id;
    client = (connect_to_server qt slots local_host sender_port client).1;
  }

  pub set_config : Option Text → Option Text → QtSender qt S → QtSender qt S
  set_config app id s = record s { app_id = app; signal_id = id }

  -- A call of `self.KLsender.sendData`
  abbrev pub send : Bytes → Exec (QtSender qt S) (Unit {0})
  send bytes s = (ok tt, record s { client = send_data qt bytes s.client })

  -- `__emitt`
  pub emitt_bytes : Option Text → Option Text → Bytes → Exec (QtSender qt S) (Unit {0})
  emitt_bytes app id bytes = do key ← encoded (key_prefix (channel_key app id)); send (key ++ bytes)

  -- `_emitt`
  pub emitt_payload : Option Text → Option Text → Payload → Exec (QtSender qt S) (Unit {0})
  emitt_payload app id (text s) = do bytes ← encoded s; emitt_bytes app id bytes
  emitt_payload app id (raw bytes) = emitt_bytes app id bytes

  unfoldable pub emitt : Payload → Exec (QtSender qt S) (Unit {0})
  unfolding emitt_payload emitt_bytes
  emitt payload s = emitt_payload s.app_id s.signal_id payload s
