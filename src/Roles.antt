-- ===== src/Roles.antt =====
-- knotlink-sdk-python/knotlink/knotlink/: what the four roles share: the key of a channel, the texts that
-- go out as UTF-8, and calls of the role's TcpClient.
pub mod Sender
pub mod Subscriber
pub mod Responser
pub mod Querier
pub mod Conversation
use knot_link_sdk.Base.{ℕ, Option, none, some, List, [], ◌∷◌, ◌++◌, codes}
use knot_link_sdk.Exec.{Exc, unicode_encode_error, Result, ok, raised, Exec}
use knot_link_sdk.Text.Utf8.{Text, Bytes, encode}
use knot_link_sdk.Text.Search.{separator}
use knot_link_sdk.Tcp.{TcpClient, Client}

-- `str(x)` inside an f-string, for an identifier that may be `None`
abbrev pub format_id : Option Text → Text
format_id none = codes "None"
format_id (some id) = id

-- `f"{APPID}-{ID}"`
abbrev pub channel_key : Option Text → Option Text → Text
channel_key app id = format_id app ++ (b'-' ∷ format_id id)

-- `f"{key}&*&"`
abbrev pub key_prefix : Text → Text
key_prefix key = key ++ separator

-- `s.encode("utf-8")`
abbrev pub or_unicode_error : Option Bytes → Result Bytes
or_unicode_error none = raised unicode_encode_error
or_unicode_error (some bytes) = ok bytes

abbrev pub encoded : {S : Type 0} → Text → Exec S Bytes
encoded s state = (or_unicode_error (encode s), state)

-- A call of the TcpClient, as one of the object that holds it.
abbrev pub on_tcp : {S A : Type 0} → Exec (TcpClient S) A → Exec (Client S) A
on_tcp m c = let (r, t) = m c.tcp in (r, record c { tcp = t })

-- `"127.0.0.1"`
abbrev pub local_host : Bytes
local_host = codes "127.0.0.1"

-- What a user's function does with a text: it returns, or it raises. It does not call the role back.
abbrev pub UserFunction : Type 0 → Type 0
UserFunction A = Text → Result A
