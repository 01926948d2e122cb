-- ===== src/Roles/Responser/Registration.antt =====
-- OpenSocketResponser.py, `__init__` and `init`.
use knot_link_sdk.Base.{◌≡◌, refl, true, false, none, some, []}
use knot_link_sdk.Exec.{ok}
use knot_link_sdk.Text.Utf8.{Text, Bytes, encode}
use knot_link_sdk.Wire.{frame}
use knot_link_sdk.Tcp.{TcpClient}
use knot_link_sdk.Tcp.Sending.{send_data-off, taken}
use knot_link_sdk.Tcp.Starting.{
  online, offline, connect_to_server-online, connect_to_server-offline,
}
use knot_link_sdk.Tcp.Streams.{IsInLimit}
use knot_link_sdk.Roles.{channel_key, local_host}
use knot_link_sdk.Roles.Responser.{
  Queue, Responser, responser_port, internal_data_recv, start, register, send_key,
}
use knot_link_sdk.Roles.Responser.Service.{send_data-IsUp}

-- The responder after `init`, with what its client has sent.
abbrev pub registered : TcpClient Queue → Text → Text → Responser
registered tcp app id = record {
  app_id = some app;
  open_socket_id = some id;
  recv_func = none;
  client = record {
    tcp = record tcp { received_data_callback = some internal_data_recv };
    host = record { items = []; unfinished = 0 };
  };
}

module _ (app id : Text) (kb : Bytes)
    (ek : encode (channel_key (some app) (some id)) ≡ some kb) where
  -- If the key has an encoding of at most 16 MB and no sending fails, a new responder connects and sends
  -- the frame of its key where the server answers, and else sends nothing and raises nothing.
  pub start-registered :
      IsInLimit kb
      → (start true [] app id
          ≡ (ok tt, registered (taken (online local_host responser_port []) (frame kb) []) app id))
        × (start false [] app id
            ≡ (ok tt, registered (offline local_host responser_port []) app id))
  unfolding start register send_key
  start-registered fits = (
    rw
        (
          connect_to_server-online {S = Queue} local_host responser_port [],
          ek,
          send_data-IsUp kb (registered (online local_host responser_port []) app id).client.tcp
              (record { on = refl; open_ = refl; faultless = refl }) fits,
        )
        refl,
    rw
        (
          connect_to_server-offline {S = Queue} local_host responser_port [],
          ek,
          send_data-off kb (registered (offline local_host responser_port []) app id).client.tcp
              refl,
        )
        refl,
  )
