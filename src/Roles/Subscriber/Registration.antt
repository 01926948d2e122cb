-- ===== src/Roles/Subscriber/Registration.antt =====
-- SignalSubscriber.py, `init` and `subscribe`.
use knot_link_sdk.Base.{◌≡◌, refl, true, none, some, [], ◌++◌}
use knot_link_sdk.Exec.{ok}
use knot_link_sdk.Text.Utf8.{Text, Bytes, encode}
use knot_link_sdk.Wire.{frame}
use knot_link_sdk.Tcp.Sending.{taken}
use knot_link_sdk.Tcp.Starting.{online, connect_to_server-online}
use knot_link_sdk.Tcp.Streams.{IsInLimit}
use knot_link_sdk.Roles.{channel_key, local_host}
use knot_link_sdk.Roles.Subscriber.{
  Listener, SignalSubscriber, subscriber_port, data_recv, start, register, send_key, subscribe,
}
use knot_link_sdk.Roles.Responser.Service.{send_data-IsUp}

-- The subscriber of a channel, with what its client has sent.
abbrev pub subscribed : Bytes → Text → Text → SignalSubscriber
subscribed sent app id = record {
  app_id = some app;
  signal_id = some id;
  client = record {
    tcp = record (taken (online local_host subscriber_port []) sent []) {
      received_data_callback = some data_recv;
    };
    host = record { callback = none; heard = [] };
  };
}

module _ (app id app' id' : Text) (kb kb' : Bytes) where
  -- If both keys have encodings of at most 16 MB, the server answers and no sending fails, a
  -- new subscriber connects, starts its heartbeat timer, sets its callback and sends the frame
  -- of its key; and subscribing to another channel then changes its identifiers and sends the
  -- frame of the other key on the same connection.
  pub subscribe-start :
      encode (channel_key (some app) (some id)) ≡ some kb
      → encode (channel_key (some app') (some id')) ≡ some kb'
      → IsInLimit kb
      → IsInLimit kb'
      → (start true [] app id ≡ (ok tt, subscribed (frame kb) app id))
        × (subscribe app' id' (subscribed (frame kb) app id)
            ≡ (ok tt, subscribed (frame kb ++ frame kb') app' id'))
  unfolding start register send_key subscribe
  subscribe-start ek ek' fits fits' = (
    rw
        (
          connect_to_server-online {S = Listener} local_host subscriber_port [],
          ek,
          send_data-IsUp kb (subscribed [] app id).client.tcp
              (record { on = refl; open_ = refl; faultless = refl }) fits,
        )
        refl,
    rw
        (
          ek',
          send_data-IsUp kb' (subscribed (frame kb) app id).client.tcp
              (record { on = refl; open_ = refl; faultless = refl }) fits',
        )
        refl,
  )
