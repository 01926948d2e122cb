-- ===== src/Roles/Sender/Signals.antt =====
-- What `emitt` puts on the wire.
use knot_link_sdk.Base.{◌≡◌, refl, some, [], ◌∷◌, ◌++◌}
use knot_link_sdk.Text.Utf8.{Text, Bytes, encode, encode_point}
use knot_link_sdk.Text.Utf8.Append.{encode-append}
use knot_link_sdk.Text.Search.{separator}
use knot_link_sdk.Tcp.{send_data}
use knot_link_sdk.Roles.{format_id, channel_key, key_prefix}
use knot_link_sdk.Roles.Sender.{
  SignalSender, on_sender, text, raw, emitt_bytes, emitt_payload, emitt,
}

dash : encode (b'-' ∷ []) ≡ some (b'-' ∷ [])
unfolding encode encode_point
dash = refl

pub sep : encode separator ≡ some separator
unfolding encode encode_point
sep = refl

-- If the two identifiers (`None` being written out) and the text have encodings, emitting a text
-- sends one message: the identifiers with "-" between them, the separator and the text, all
-- encoded; and it does the same as emitting the encoded text.
pub emitt-sends :
    (s : Text) (app id sb : Bytes) (sender : SignalSender)
    → encode (format_id sender.app_id) ≡ some app
    → encode (format_id sender.signal_id) ≡ some id
    → encode s ≡ some sb
    → (emitt (text s) sender
        ≡ on_sender (send_data (((app ++ (b'-' ∷ id)) ++ separator) ++ sb)) sender)
      × (emitt (text s) sender ≡ emitt (raw sb) sender)
unfolding emitt emitt_payload emitt_bytes
emitt-sends s app id sb sender ea ei es = (rw (es, key) refl, rw es refl)
  where
    dashed : encode (b'-' ∷ format_id sender.signal_id) ≡ some (b'-' ∷ id)
    dashed = encode-append (b'-' ∷ []) (format_id sender.signal_id) (b'-' ∷ []) id dash ei

    key :
        encode (key_prefix (channel_key sender.app_id sender.signal_id))
        ≡ some ((app ++ (b'-' ∷ id)) ++ separator)
    key =
        encode-append (channel_key sender.app_id sender.signal_id) separator (app ++ (b'-' ∷ id))
          separator
          (encode-append (format_id sender.app_id) (b'-' ∷ format_id sender.signal_id) app
            (b'-' ∷ id) ea dashed)
          sep
