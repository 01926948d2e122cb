-- ===== src/Qt/Querier.antt =====
-- knotlink-sdk-pyqt/knotlink-pyqt/knotlink-pyqt/OpenSocketQuerier.py. Of the two methods `__init__` in
-- the class the second replaces the first.
pub mod Messages
pub mod Loops
pub mod Replies
use knot_link_sdk.Base.{
  ℕ, Bool, true, false, Option, none, some, List, [], ◌∷◌, ◌++◌, if◌then◌else◌, ◌||◌,
}
use knot_link_sdk.Exec.{Exc, unicode_decode_error, Result, ok, raised, Exec, continue, ◌>>=◌}
use knot_link_sdk.Text.Utf8.{Text, Bytes, decode}
use knot_link_sdk.Roles.{channel_key, key_prefix, encoded, local_host}
use knot_link_sdk.Roles.Querier.{querier_port}
use knot_link_sdk.Qt.{Toolkit}
use knot_link_sdk.Qt.Connection.{QtClient, Slots, connect_to_server, send_data, read_data}
use knot_link_sdk.Qt.Connection.Agreement.{hosting}

-- The signals of the querier, and exceptions of its slots.
pub data Output : Type 0 where
  data_back_a : Bytes → Output
  data_back : Text → Output
  unhandled : Exc → Output

-- The variables of a `query_l`: its result, and whether its event loop has been told to quit.
pub record Loop : Type 0 where
  pub result : Text
  pub quit : Bool

-- `lock`, what has left the querier, the `query_l` whose slot is connected, and whether PyQt5 has aborted the
-- program, as it does by default after an exception that a slot does not handle.
pub record Listening : Type 0 where
  pub lock : Bool
  pub outputs : List Output
  pub loop : Option Loop
  pub aborted : Bool

abbrev pub tell : Output → Listening → Listening
tell o w = record w { outputs = w.outputs ++ o ∷ [] }

-- What `dataRecv` does with the text, or where there is none.
pub emit_text : Option Text → Exec Listening (Unit {0})
emit_text none w = (raised unicode_decode_error, w)
emit_text (some s) w = (ok tt, tell (data_back s) w)

-- `dataRecv`
pub data_recv : Bytes → Exec Listening (Unit {0})
unfolding emit_text
data_recv bytes w =
    if w.lock then (ok tt, w) else emit_text (decode bytes) (tell (data_back_a bytes) w)

-- What `on_data_received` does with the text, or where there is none, if it is connected.
pub keep_result : Option Loop → Option Text → Exec Listening (Unit {0})
keep_result none d w = (ok tt, w)
keep_result (some l) none w = (raised unicode_decode_error, w)
keep_result (some l) (some s) w =
    (ok tt, record w { lock = false; loop = some (record { result = s; quit = true }) })

pub on_data_received : Bytes → Exec Listening (Unit {0})
unfolding keep_result
on_data_received bytes w = keep_result w.loop (decode bytes) w

abbrev pub told : Result (Unit {0}) × Listening → Listening
told (ok _, w) = w
told (raised e, w) = record (tell (unhandled e) w) { aborted = true }

-- A slot runs as long as the program does.
abbrev pub run_slot : Exec Listening (Unit {0}) → Listening → Listening
run_slot slot w = if w.aborted then w else told (slot w)

-- The two slots of `receivedData`, in the order in which they were connected.
pub on_message : Bytes → Listening → Listening
on_message bytes w = run_slot (on_data_received bytes) (run_slot (data_recv bytes) w)

pub record QtQuerier (qt : Toolkit) : Type 0 where
  pub app_id : Text
  pub open_socket_id : Text
  pub client : QtClient qt Listening

-- How a `query_l` ends, if it does.
pub data Outcome : Type 0 where
  returns : Text → Outcome
  raises : Exc → Outcome
  aborts : Outcome
  blocks : Outcome

abbrev pub quits : Option Loop → Bool
quits none = false
quits (some l) = l.quit

abbrev pub result_of : Option Loop → Text
result_of none = []
result_of (some l) = l.result

module _ (qt : Toolkit) where
  abbrev pub slots : Slots qt Listening
  slots = hosting qt on_message

  abbrev pub on_host : (Listening → Listening) → QtQuerier qt → QtQuerier qt
  on_host f s = record s { client = record s.client { host = f s.client.host } }

  -- `__init__` and `init`, with the new client
  pub start : Text → Text → QtClient qt Listening → QtQuerier qt
  start app id client =
      on_host (λ w. record w { lock = false })
        (record {
          app_id = app;
          open_socket_id = id;
          client = (connect_to_server qt slots local_host querier_port client).1;
        })

  pub set_config : Text → Text → QtQuerier qt → QtQuerier qt
  set_config app id s = record s { app_id = app; open_socket_id = id }

  -- `_query_a`
  unfoldable pub send_query_a : Text → Text → Bytes → Exec (QtQuerier qt) (Unit {0})
  send_query_a app id bytes = do
    key ← encoded (key_prefix (channel_key (some app) (some id)))
    λ s. (ok tt, record s { client = send_data qt (key ++ bytes) s.client })

  -- `_query`
  pub send_query : Text → Text → Text → Exec (QtQuerier qt) (Unit {0})
  send_query app id data_ = do bytes ← encoded data_; send_query_a app id bytes

  pub query_a : Bytes → Exec (QtQuerier qt) (Unit {0})
  query_a bytes s = send_query_a s.app_id s.open_socket_id bytes s

  unfoldable pub query : Text → Exec (QtQuerier qt) (Unit {0})
  query data_ s = (do bytes ← encoded data_; send_query_a s.app_id s.open_socket_id bytes) s

  -- `loop.exec_()` over the events of `readyRead`: it ends after an event in which it was told to quit or
  -- the program was aborted, and `false` says that it still waits at the end.
  pub exec : List Bytes → QtClient qt Listening → Bool × QtClient qt Listening
  exec [] c = (false, c)
  exec (bytes ∷ events) c =
      let c' = read_data qt slots bytes c in
      let later = exec events c' in
      if c'.host.aborted || quits c'.host.loop then (true, c') else later

  abbrev pub leave_loop : Bool × QtClient qt Listening → QtQuerier qt → Outcome × QtQuerier qt
  leave_loop (false, c) s = (blocks, record s { client = c })
  leave_loop (true, c) s = if c.host.aborted then (aborts, record s { client = c }) else (
    returns (result_of c.host.loop),
    on_host (λ w. record w { loop = none }) (record s { client = c }),
  )

  -- `query_l` from `self.lock = True` on. Where the sending raises, the slot stays connected.
  pub wait_for_reply : List Bytes → Result (Unit {0}) × QtQuerier qt → Outcome × QtQuerier qt
  wait_for_reply events (raised e, s) = (raises e, s)
  wait_for_reply events (ok _, s) =
      let s' = on_host (λ w. record w { lock = true }) s in leave_loop (exec events s'.client) s'

  -- `query_l`; `events` are what `readAll` brings while its event loop runs.
  pub query_l : Text → List Bytes → QtQuerier qt → Outcome × QtQuerier qt
  query_l data_ events s = wait_for_reply events (
      query data_
        (on_host (λ w. record w { loop = some (record { result = []; quit = false }) }) s))
