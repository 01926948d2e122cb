-- ===== src/Examples/Toolkit.antt =====
-- A toolkit that keeps what is documented of PyQt5: a socket is a flag and the bytes written, a timer a
-- flag. Every connection succeeds, and `disconnected` is emitted at once.
use knot_link_sdk.Base.{refl, Bool, true, false, [], ◌++◌}
use knot_link_sdk.Wire.{Bytes}
use knot_link_sdk.Qt.{Toolkit, IsQt}
use knot_link_sdk.Qt.Connection.{QtClient}

pub record Wire : Type 0 where
  pub up : Bool
  pub bytes : Bytes

abbrev pub toolkit : Toolkit
toolkit = record {
  Socket = Wire;
  Timer = Bool;
  connect_to_host = λ ip port s. s;
  wait_for_connected = λ s. (true, record { up = true; bytes = s.bytes });
  is_connected = λ s. s.up;
  write = λ b s. record { up = s.up; bytes = s.bytes ++ b };
  disconnect_from_host = λ s. (true, record { up = false; bytes = s.bytes });
  written = λ s. s.bytes;
  start = λ t. true;
  stop = λ t. false;
  is_active = λ t. t;
}

pub toolkit-IsQt : IsQt toolkit
toolkit-IsQt = record {
  write-written = λ b s on. refl;
  write-is_connected = λ b s on. on;
  written-connect = λ ip port s. refl;
  written-wait = λ s. refl;
  written-disconnect = λ s. refl;
  disconnect-is_connected = λ s. refl;
  wait-is_connected = λ s up. refl;
  start-is_active = λ t. refl;
  stop-is_active = λ t. refl;
}

-- A connected client with these bytes in its buffer
abbrev pub client : {S : Type 0} → Bytes → S → QtClient toolkit S
client buffer host = record {
  tcp_socket = record { up = true; bytes = [] };
  heart_beat_timer = true;
  buffer = buffer;
  host = host;
}
