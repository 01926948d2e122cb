-- ===== src/Qt/Sender/Agreement.antt =====
-- SignalSender.py of the PyQt variant, against the one of knotlink-sdk-python.
use knot_link_sdk.Base.{◌≡◌}
use knot_link_sdk.Exec.{continue}
use knot_link_sdk.Tcp
use knot_link_sdk.Roles.Sender
use knot_link_sdk.Roles.Sender.{SignalSender, Payload, text, raw, on_sender}
use knot_link_sdk.Roles.Sender.Messages.{wire, in_order, emitt_lem}
use knot_link_sdk.Qt.{Toolkit}
use knot_link_sdk.Qt.Sender.{QtSender, send, emitt_bytes, emitt_payload, emitt}

module _ (qt : Toolkit) {S : Type 0} where
  -- For any payload, a plain sender and one of the PyQt variant each hand to their clients the
  -- message that `wire` spells out byte by byte: the encoded first identifier, the byte 0x2d,
  -- the encoded second one, the bytes 0x26 0x2a 0x26 and the payload, an identifier that is not
  -- set being the word None; or, if one of these has no encoding, each raises
  -- UnicodeEncodeError and sends nothing.
  pub emitt-wire :
      (payload : Payload) (p : SignalSender) (s : QtSender qt S)
      → (Sender.emitt payload p
          ≡ continue
              (wire p.app_id p.signal_id payload)
              (λ bytes. on_sender (Tcp.send_data bytes))
              p)
        × (emitt qt payload s ≡ continue (wire s.app_id s.signal_id payload) (send qt) s)
  unfolding emitt emitt_payload emitt_bytes
  emitt-wire (text t) p s =
      (emitt_lem (text t) p, in_order (send qt) s.app_id s.signal_id (text t) s)
  emitt-wire (raw bytes) p s =
      (emitt_lem (raw bytes) p, in_order (send qt) s.app_id s.signal_id (raw bytes) s)
