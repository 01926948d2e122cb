-- ===== src/Qt/Subscriber.antt =====
-- knotlink-sdk-pyqt/knotlink-pyqt/knotlink-pyqt/SignalSubscriber.py
pub mod Signals
use knot_link_sdk.Base.{ℕ, Bool, Option, none, some, List, [], ◌∷◌, ◌++◌}
use knot_link_sdk.Exec.{Exc, unicode_decode_error, Result, ok, raised, Exec, ◌>>=◌}
use knot_link_sdk.Text.Utf8.{Text, Bytes, decode}
use knot_link_sdk.Roles.{channel_key, encoded, local_host}
use knot_link_sdk.Roles.Subscriber.{subscriber_port}
use knot_link_sdk.Qt.{Toolkit}
use knot_link_sdk.Qt.Connection.{QtClient, Slots, connect_to_server, send_data}
use knot_link_sdk.Qt.Connection.Agreement.{hosting}

-- What leaves the subscriber: its two signals, and exceptions of its slot, which PyQt5 hands to
-- `sys.excepthook` (by default it aborts the program then).
pub data Output : Type 0 where
  received_data_a : Bytes → Output
  received_data : Text → Output
  unhandled : Exc → Output

-- `dataRecv`
unfoldable pub data_recv : Bytes → Exec (List Output) (Unit {0})
data_recv bytes out =
    let out' = out ++ received_data_a bytes ∷ [] in
    elim (decode bytes) [
      | none ↦ (raised unicode_decode_error, out')
      | some s ↦ (ok tt, out' ++ received_data s ∷ [])
    ]

abbrev pub told : Result (Unit {0}) × List Output → List Output
told (ok _, out) = out
told (raised e, out) = out ++ unhandled e ∷ []

-- The slot that is connected to `receivedData`
unfoldable pub on_message : Bytes → List Output → List Output
unfolding data_recv
on_message bytes out = told (data_recv bytes out)

pub record QtSubscriber (qt : Toolkit) : Type 0 where
  pub app_id : Option Text
  pub signal_id : Option Text
  pub client : QtClient qt (List Output)

module _ (qt : Toolkit) where
  abbrev pub slots : Slots qt (List Output)
  slots = hosting qt on_message

  -- The key goes out without a separator.
  pub send_key : Exec (QtSubscriber qt) (Unit {0})
  send_key s =
      (do
        key ← encoded (channel_key s.app_id s.signal_id)
        λ t. (ok tt, record t { client = send_data qt key t.client }))
        s

  -- `__init__` and `init`, with the new client
  pub start :
      Option Text → Option Text → QtClient qt (List Output) → Result (Unit {0}) × QtSubscriber qt
  start app id client = send_key (record {
    app_id = app;
    signal_id = id;
    client = (connect_to_server qt slots local_host subscriber_port client).1;
  })

  unfoldable pub subscribe : Option Text → Option Text → Exec (QtSubscriber qt) (Unit {0})
  unfolding send_key
  subscribe app id s = send_key (record s { app_id = app; signal_id = id })
