-- ===== src/Qt/Responser.antt =====
-- knotlink-sdk-pyqt/knotlink-pyqt/knotlink-pyqt/OpenSocketResponser.py
pub mod Requests
use knot_link_sdk.Base.{ℕ, Bool, Option, none, some, List, [], ◌∷◌, ◌++◌}
use knot_link_sdk.Exec.{Exc, unicode_decode_error, Result, ok, raised, Exec, ◌>>=◌}
use knot_link_sdk.Text.Utf8.{Text, Bytes, decode}
use knot_link_sdk.Text.Search.{separator, split}
use knot_link_sdk.Roles.{channel_key, key_prefix, encoded, local_host}
use knot_link_sdk.Roles.Responser.{responser_port}
use knot_link_sdk.Qt.{Toolkit}
use knot_link_sdk.Qt.Connection.{QtClient, Slots, connect_to_server, send_data}
use knot_link_sdk.Qt.Connection.Agreement.{hosting}

-- The signals of the responder, and exceptions of its slot.
pub data Output : Type 0 where
  received_data_a : Bytes → Text → Output
  received_data : Text → Text → Output
  unhandled : Exc → Output

-- `bytes.decode("utf-8")`
abbrev pub decoded : {S : Type 0} → Bytes → Exec S Text
decoded bytes s = elim (decode bytes) [
  | none ↦ (raised unicode_decode_error, s)
  | some t ↦ (ok t, s)
]

-- What follows the test on the number of parts
pub emit_parts : List Text → Exec (List Output) (Unit {0})
emit_parts (key ∷ t_data ∷ []) out =
    (do
      bytes ← encoded t_data
      λ out'. (ok tt, (out' ++ received_data_a bytes key ∷ []) ++ received_data t_data key ∷ []))
      out
emit_parts [] out = (ok tt, out)
emit_parts (part ∷ []) out = (ok tt, out)
emit_parts (a ∷ b ∷ c ∷ parts) out = (ok tt, out)

-- `dataRecv`
pub data_recv : Bytes → Exec (List Output) (Unit {0})
data_recv bytes = do s ← decoded bytes; emit_parts (split separator s)

abbrev pub told : Result (Unit {0}) × List Output → List Output
told (ok _, out) = out
told (raised e, out) = out ++ unhandled e ∷ []

-- The slot that is connected to `receivedData`
pub on_message : Bytes → List Output → List Output
on_message bytes out = told (data_recv bytes out)

pub record QtResponser (qt : Toolkit) : Type 0 where
  pub app_id : Text
  pub open_socket_id : Text
  pub client : QtClient qt (List Output)

module _ (qt : Toolkit) where
  abbrev pub slots : Slots qt (List Output)
  slots = hosting qt on_message

  abbrev pub send : Bytes → Exec (QtResponser qt) (Unit {0})
  send bytes s = (ok tt, record s { client = send_data qt bytes s.client })

  pub send_key : Exec (QtResponser qt) (Unit {0})
  send_key s = (do key ← encoded (channel_key (some s.app_id) (some s.open_socket_id)); send key) s

  -- `__init__` and `init`, with the new client
  pub start : Text → Text → QtClient qt (List Output) → Result (Unit {0}) × QtResponser qt
  start app id client = send_key (record {
    app_id = app;
    open_socket_id = id;
    client = (connect_to_server qt slots local_host responser_port client).1;
  })

  -- The bytes are decoded, put behind the key and encoded again.
  pub send_back_a : Bytes → Text → Exec (QtResponser qt) (Unit {0})
  send_back_a data_ question_id = do
    s ← decoded data_
    bytes ← encoded (key_prefix question_id ++ s)
    send bytes

  pub send_back : Text → Text → Exec (QtResponser qt) (Unit {0})
  send_back data_ question_id = do bytes ← encoded data_; send_back_a bytes question_id
