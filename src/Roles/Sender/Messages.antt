-- ===== src/Roles/Sender/Messages.antt =====
-- SignalSender.py: the bytes of the message that a signal is, or the exception in its place.
use knot_link_sdk.Base.{
  ℕ, ◌≡◌, refl, ap, sym, ◌∙◌, Option, none, some, [], ◌∷◌, ◌++◌, append_assoc, codes, Bool-cases,
  inl, inr,
}
use mathlib.Core.Option
use knot_link_sdk.Exec.{unicode_encode_error, Result, ok, raised, Exec, continue}
use knot_link_sdk.Text.Utf8.{Text, Bytes, encode, encode_point, is_scalar}
use knot_link_sdk.Tcp.{send_data}
use knot_link_sdk.Roles.{format_id, channel_key, key_prefix, or_unicode_error}
use knot_link_sdk.Roles.Sender.{
  SignalSender, Payload, text, raw, on_sender, emitt, emitt_payload, emitt_bytes,
}

-- The bytes of a payload and of an identifier, if they have an encoding; no identifier is the word None.
abbrev pub payload_bytes : Payload → Option Bytes
payload_bytes (text s) = encode s
payload_bytes (raw bytes) = some bytes

abbrev pub id_bytes : Option Text → Option Bytes
id_bytes none = some (codes "None")
id_bytes (some id) = encode id

-- The message: the first identifier, "-", the second one, "&*&" and the payload, byte for byte.
abbrev pub spelled : Option Bytes → Option Bytes → Option Bytes → Result Bytes
spelled (some app) (some id) (some payload) =
    ok (app ++ (0x2d ∷ (id ++ (0x26 ∷ 0x2a ∷ 0x26 ∷ payload))))
spelled none id payload = raised unicode_encode_error
spelled (some app) none payload = raised unicode_encode_error
spelled (some app) (some id) none = raised unicode_encode_error

abbrev pub wire : Option Text → Option Text → Payload → Result Bytes
wire app id payload = spelled (id_bytes app) (id_bytes id) (payload_bytes payload)

abbrev joined : Option Bytes → Option Bytes → Option Bytes
joined none y = none
joined (some x) none = none
joined (some x) (some y) = some (x ++ y)

point_joined :
    (p : ℕ) (x y : Option Bytes)
    → Option.map (λ bytes. encode_point p ++ bytes) (joined x y)
      ≡ joined (Option.map (λ bytes. encode_point p ++ bytes) x) y
point_joined p none y = refl
point_joined p (some x) none = refl
point_joined p (some x) (some y) = ap (λ b. some b) (sym (append_assoc (encode_point p) x y))

joined_nil : (y : Option Bytes) → joined (some []) y ≡ y
joined_nil none = refl
joined_nil (some y) = refl

encode-joined : (s t : Text) → encode (s ++ t) ≡ joined (encode s) (encode t)
unfolding encode
encode-joined [] t = sym (joined_nil (encode t))
encode-joined (p ∷ s) t = elim (Bool-cases (is_scalar p)) [
  | inl scalar ↦ rw scalar (
      ap (Option.map (λ bytes. encode_point p ++ bytes)) (encode-joined s t)
      ∙ point_joined p (encode s) (encode t))
  | inr bad ↦ rw bad refl
]

encode-format_id : (id : Option Text) → encode (format_id id) ≡ id_bytes id
unfolding encode encode_point
encode-format_id none = refl
encode-format_id (some id) = refl

dash : (id : Text) → encode (b'-' ∷ id) ≡ joined (some (0x2d ∷ [])) (encode id)
unfolding encode encode_point
dash id = encode-joined (b'-' ∷ []) id

separator_bytes : encode (codes "&*&") ≡ some (0x26 ∷ 0x2a ∷ 0x26 ∷ [])
unfolding encode encode_point
separator_bytes = refl

-- The key with the separator, by its parts
encode-key_prefix :
    (app id : Option Text)
    → encode (key_prefix (channel_key app id))
      ≡ joined
          (joined (id_bytes app) (joined (some (0x2d ∷ [])) (id_bytes id)))
          (some (0x26 ∷ 0x2a ∷ 0x26 ∷ []))
encode-key_prefix app id =
    encode-joined (channel_key app id) (codes "&*&")
    ∙ ap (λ x. joined x (encode (codes "&*&")))
        (encode-joined (format_id app) (b'-' ∷ format_id id)
          ∙ ap (λ x. joined x (encode (b'-' ∷ format_id id))) (encode-format_id app)
          ∙ ap (joined (id_bytes app))
              (dash (format_id id) ∙ ap (joined (some (0x2d ∷ []))) (encode-format_id id)))
    ∙ ap (joined (joined (id_bytes app) (joined (some (0x2d ∷ [])) (id_bytes id)))) separator_bytes

module _ {S : Type 0} (out : Bytes → Exec S (Unit {0})) where
  abbrev in_turn : Option Bytes → Option Bytes → Exec S (Unit {0})
  in_turn key bytes s =
      continue (or_unicode_error bytes)
        (λ b t. continue (or_unicode_error key) (λ k. out (k ++ b)) t) s

  spelled_parts :
      (app id payload : Option Bytes) (s : S)
      → in_turn
          (joined (joined app (joined (some (0x2d ∷ [])) id)) (some (0x26 ∷ 0x2a ∷ 0x26 ∷ [])))
          payload
          s
        ≡ continue (spelled app id payload) out s
  spelled_parts none id none s = refl
  spelled_parts none id (some b) s = refl
  spelled_parts (some a) none none s = refl
  spelled_parts (some a) none (some b) s = refl
  spelled_parts (some a) (some i) none s = refl
  spelled_parts (some a) (some i) (some b) s =
      ap (λ m. out m s)
        (append_assoc (a ++ (0x2d ∷ i)) (0x26 ∷ 0x2a ∷ 0x26 ∷ []) b
          ∙ append_assoc a (0x2d ∷ i) (0x26 ∷ 0x2a ∷ 0x26 ∷ b))

  -- Both variants encode the payload first, and then the key.
  pub in_order :
      (app id : Option Text) (payload : Payload) (s : S)
      → in_turn (encode (key_prefix (channel_key app id))) (payload_bytes payload) s
        ≡ continue (wire app id payload) out s
  in_order app id payload s =
      ap (λ key. in_turn key (payload_bytes payload) s) (encode-key_prefix app id)
      ∙ spelled_parts (id_bytes app) (id_bytes id) (payload_bytes payload) s

pub emitt_lem :
    (payload : Payload) (p : SignalSender)
    → emitt payload p
      ≡ continue (wire p.app_id p.signal_id payload) (λ bytes. on_sender (send_data bytes)) p
unfolding emitt emitt_payload emitt_bytes
emitt_lem (text t) p =
    in_order (λ bytes. on_sender (send_data bytes)) p.app_id p.signal_id (text t) p
emitt_lem (raw bytes) p =
    in_order (λ bytes. on_sender (send_data bytes)) p.app_id p.signal_id (raw bytes) p
