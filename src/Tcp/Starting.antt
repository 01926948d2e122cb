-- ===== src/Tcp/Starting.antt =====
-- tcpclient.py: the first connection of a new client.
use knot_link_sdk.Base.{ℕ, ◌≡◌, refl, true, false, Option, some, List, [], ◌∷◌}
use knot_link_sdk.Exec.{ok}
use knot_link_sdk.Wire.{Bytes}
use knot_link_sdk.Tcp.{TcpClient, init, connect_to_server, start_heart_beat}
use knot_link_sdk.Tcp.Net.{fresh, connect}

module _ {S : Type 0} (ip : Bytes) (port : ℕ) (faults : List (Option ℕ)) where
  -- The client after it has connected: its first timer runs.
  abbrev pub online : TcpClient S
  online = record (init (record (fresh true faults) { linked = true })) {
    connected = true;
    server = some (ip, port);
    heart_beat_timer = some 0;
    running = 0 ∷ [];
    timers_made = 1;
  }

  -- The client after nobody has answered.
  abbrev pub offline : TcpClient S
  offline = record (init (fresh false faults)) { server = some (ip, port) }

  pub connect_to_server-online :
      connect_to_server ip port (init (fresh true faults)) ≡ (ok tt, online)
  unfolding connect_to_server connect start_heart_beat
  connect_to_server-online = refl

  pub connect_to_server-offline :
      connect_to_server ip port (init (fresh false faults)) ≡ (ok tt, offline)
  unfolding connect_to_server connect
  connect_to_server-offline = refl
