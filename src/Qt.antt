-- ===== src/Qt.antt =====
-- knotlink-sdk-pyqt/knotlink-pyqt/knotlink-pyqt/: the variant of the SDK over PyQt5. What it uses of
-- PyQt5 is a parameter, a Toolkit.
pub mod Connection
pub mod Texts
pub mod Sender
pub mod Subscriber
pub mod Responser
pub mod Querier
use knot_link_sdk.Base.{ℕ, ◌≡◌, ◌≢◌, Bool, true, false, List, ◌++◌}
use knot_link_sdk.Wire.{Bytes}

-- A QTcpSocket and a QTimer. `wait_for_connected` says whether the socket got connected in time, and
-- `disconnect_from_host` whether the socket emits its signal `disconnected` before it returns.
-- `written` is what the socket has taken from `write` since it was made.
pub record Toolkit : Type 1 where
  pub Socket : Type 0
  pub Timer : Type 0
  pub connect_to_host : Bytes → ℕ → Socket → Socket
  pub wait_for_connected : Socket → Bool × Socket
  pub is_connected : Socket → Bool
  pub write : Bytes → Socket → Socket
  pub disconnect_from_host : Socket → Bool × Socket
  pub written : Socket → Bytes
  pub start : Timer → Timer
  pub stop : Timer → Timer
  pub is_active : Timer → Bool

-- What PyQt5 documents of them.
pub record IsQt (qt : Toolkit) : Type 0 where
  -- a connected socket buffers all that it is given, and stays connected
  pub write-written :
      (b : Bytes) (s : qt.Socket)
      → qt.is_connected s ≡ true
      → qt.written (qt.write b s) ≡ qt.written s ++ b
  pub write-is_connected :
      (b : Bytes) (s : qt.Socket) → qt.is_connected s ≡ true → qt.is_connected (qt.write b s) ≡ true
  -- to connect and to disconnect writes nothing
  pub written-connect :
      (ip : Bytes) (port : ℕ) (s : qt.Socket)
      → qt.written (qt.connect_to_host ip port s) ≡ qt.written s
  pub written-wait : (s : qt.Socket) → qt.written (qt.wait_for_connected s).1 ≡ qt.written s
  pub written-disconnect : (s : qt.Socket) → qt.written (qt.disconnect_from_host s).1 ≡ qt.written s
  -- the socket is closing or unconnected afterwards
  pub disconnect-is_connected :
      (s : qt.Socket) → qt.is_connected (qt.disconnect_from_host s).1 ≡ false
  pub wait-is_connected :
      (s : qt.Socket)
      → (qt.wait_for_connected s).0 ≡ true
      → qt.is_connected (qt.wait_for_connected s).1 ≡ true
  pub start-is_active : (t : qt.Timer) → qt.is_active (qt.start t) ≡ true
  pub stop-is_active : (t : qt.Timer) → qt.is_active (qt.stop t) ≡ false
