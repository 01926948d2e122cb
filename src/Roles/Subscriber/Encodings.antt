-- ===== src/Roles/Subscriber/Encodings.antt =====
-- SignalSubscriber.py: the texts that the user's function gets.
use knot_link_sdk.Base.{◌≡◌, some, none, Option, List, [], ◌∷◌, All, All-append}
use knot_link_sdk.Text.Utf8.{Text, Bytes, decode_replace}
use knot_link_sdk.Text.Utf8.Scalars.{IsEncodable, decode_replace-IsEncodable}
use knot_link_sdk.Tcp.{Client, Recv, receive_data}
use knot_link_sdk.Tcp.Hosts.{receive_data-Hosts}
use knot_link_sdk.Roles.{UserFunction}
use knot_link_sdk.Roles.Subscriber.{Listener, call_back, data_recv}

abbrev pub HearsText : Listener → Type 0
HearsText l = All IsEncodable l.heard

call_back-HearsText :
    (f : Option (UserFunction (Unit {0}))) (s : Text) (l : Listener)
    → IsEncodable s
    → HearsText l
    → HearsText (call_back f s l).1
unfolding call_back
call_back-HearsText none s l hs h = h
call_back-HearsText (some f) s l hs h = All-append IsEncodable l.heard (s ∷ []) h (hs, tt)

data_recv-HearsText : (bytes : Bytes) (l : Listener) → HearsText l → HearsText (data_recv bytes l).1
unfolding data_recv
data_recv-HearsText bytes l h =
    call_back-HearsText l.callback (decode_replace bytes) l (decode_replace-IsEncodable bytes) h

-- The texts that the function gets have encodings, whatever arrives.
pub receive_data-HearsText :
    (events : List Recv) (c : Client Listener)
    → c.tcp.received_data_callback ≡ some data_recv
    → HearsText c.host
    → HearsText (receive_data events c).1.host
receive_data-HearsText events c set h =
    (receive_data-Hosts HearsText data_recv data_recv-HearsText events c
      (record { set = set; holds = h })).holds
