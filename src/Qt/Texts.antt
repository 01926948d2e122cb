-- ===== src/Qt/Texts.antt =====
-- Texts that go out as messages of their own, as the roles of the PyQt variant write them.
use knot_link_sdk.Base.{◌≡◌, some, false, List, [], ◌∷◌, seq_eq, All}
use knot_link_sdk.Text.Utf8.{Text, Bytes, encode}
use knot_link_sdk.Wire.{IsSendable, heartbeat_response}

-- A text with its bytes, which can go out as a message and are not taken for a heartbeat response.
pub record IsMessage (message : Text × Bytes) : Type 0 where
  pub encodes : encode message.0 ≡ some message.1
  pub sendable : IsSendable message.1
  pub no_heartbeat : seq_eq message.1 heartbeat_response ≡ false

abbrev pub bytes_of : List (Text × Bytes) → List Bytes
bytes_of [] = []
bytes_of ((s, b) ∷ messages) = b ∷ bytes_of messages

pub IsSendable-bytes_of :
    (messages : List (Text × Bytes)) → All IsMessage messages → All IsSendable (bytes_of messages)
IsSendable-bytes_of [] _ = tt
IsSendable-bytes_of ((s, b) ∷ messages) (h, hs) = (h.sendable, IsSendable-bytes_of messages hs)
