-- ===== src/Qt/Connection/Agreement.antt =====
-- `_processBuffer` of the PyQt variant against `_process_buffer` of knotlink-sdk-python.
use knot_link_sdk.Base.{
  ℕ, zero, suc, ◌<◌, ◌≡◌, refl, ap, inl, inr, some, arith, length, seq_eq, Bool-cases,
}
use knot_link_sdk.Wire.{
  Bytes, Scan, incomplete, bad_magic, bad_length, message, next_message, heartbeat_response,
}
use knot_link_sdk.Wire.Scanning.{next_message_shrinks}
use knot_link_sdk.Tcp
use knot_link_sdk.Tcp.{Client, refuse}
use knot_link_sdk.Tcp.Frames.{returning, consume, process_buffer-taken}
use knot_link_sdk.Tcp.Rounds as Plain
use knot_link_sdk.Qt.{Toolkit, IsQt}
use knot_link_sdk.Qt.Connection.{
  connected, disconnected, received_data, QtClient, Slots, with_buffer, is_connected,
  disconnect_from_host, socket_disconnected, process_message, process_buffer,
}
use knot_link_sdk.Qt.Connection.Rounds.{
  AddsNothing, process_buffer-message, process_buffer-incomplete, process_buffer-bad_magic,
  process_buffer-bad_length,
}

-- Slots that work on their own object, and only on messages.
unfoldable pub hosting : {S : Type 0} (qt : Toolkit) → (Bytes → S → S) → Slots qt S
hosting qt step connected c = c
hosting qt step disconnected c = c
hosting qt step (received_data msg) c = record c { host = step msg c.host }

-- A plain client and one of the PyQt variant that have the same bytes before them, have handed over
-- the same, and are both connected or both not.
pub record Agrees {S : Type 0} (qt : Toolkit) (p : Client S) (c : QtClient qt S) : Type 0 where
  pub buffers : c.buffer ≡ p.tcp.buffer
  pub hosts : c.host ≡ p.host
  pub both : is_connected c ≡ p.tcp.connected

pub hosting-AddsNothing :
    {S : Type 0} (qt : Toolkit) (step : Bytes → S → S) → AddsNothing (hosting qt step)
unfolding hosting
hosting-AddsNothing qt step msg c = omega arith

module _ (qt : Toolkit) (laws : IsQt qt) {S : Type 0} (step : Bytes → S → S) where
  abbrev slots : Slots qt S
  slots = hosting qt step

  disconnected-Agrees :
      (p : Client S) (c : QtClient qt S)
      → Agrees qt p c
      → Agrees qt (refuse p) (disconnect_from_host qt slots c)
  unfolding refuse disconnect_from_host socket_disconnected hosting
  disconnected-Agrees p c a = elim (Bool-cases (qt.disconnect_from_host c.tcp_socket).0) [
    | inl e ↦ rw e (record {
      buffers = a.buffers;
      hosts = a.hosts;
      both = laws.disconnect-is_connected c.tcp_socket;
    })
    | inr e ↦ rw e (record {
      buffers = a.buffers;
      hosts = a.hosts;
      both = laws.disconnect-is_connected c.tcp_socket;
    })
  ]

  process_message-Agrees :
      (msg left : Bytes) (p : Client S) (c : QtClient qt S)
      → Agrees qt p c
      → Agrees qt
          (record (Tcp.with_buffer left p) { host = consume step msg p.host })
          (process_message qt slots msg (with_buffer left c))
  unfolding process_message hosting
  process_message-Agrees msg left p c a = elim (Bool-cases (seq_eq msg heartbeat_response)) [
    | inl e ↦ rw e (record { buffers = refl; hosts = a.hosts; both = a.both })
    | inr e ↦ rw e (record { buffers = refl; hosts = ap (step msg) a.hosts; both = a.both })
  ]

  agree :
      (n : ℕ) (p : Client S) (c : QtClient qt S)
      → length c.buffer < n
      → p.tcp.received_data_callback ≡ some (returning step)
      → Agrees qt p c
      → (s : Scan) → next_message c.buffer ≡ s
      → Agrees qt (Tcp.process_buffer p).1 (process_buffer qt slots c)
  agree zero p c h set a s e = absurd (omega arith)
  agree (suc n) p c h set a incomplete e =
      rw
        (
          process_buffer-incomplete qt slots (hosting-AddsNothing qt step) c e,
          Plain.process_buffer-incomplete p (rw a.buffers at e),
        )
        a
  agree (suc n) p c h set a bad_magic e =
      rw
        (
          process_buffer-bad_magic qt slots (hosting-AddsNothing qt step) c e,
          Plain.process_buffer-bad_magic p (rw a.buffers at e),
        )
        (disconnected-Agrees p c a)
  agree (suc n) p c h set a (bad_length len) e =
      rw
        (
          process_buffer-bad_length qt slots (hosting-AddsNothing qt step) c len e,
          Plain.process_buffer-bad_length p len (rw a.buffers at e),
        )
        (disconnected-Agrees p c a)
  agree (suc n) p c h set a (message msg left) e =
      let shorter = next_message_shrinks c.buffer msg left e in
      let p' = record (Tcp.with_buffer left p) { host = consume step msg p.host } in
      let c' = process_message qt slots msg (with_buffer left c) in
      let a' = process_message-Agrees msg left p c a in
      rw
        (
          process_buffer-message qt slots (hosting-AddsNothing qt step) c msg left e,
          process_buffer-taken step p msg left set (rw a.buffers at e),
        )
        (agree n p' c' (rw (a'.buffers) (omega arith)) set a' (next_message c'.buffer) refl)

  -- If a plain client whose callback returns and one of the PyQt variant, whose slots do the
  -- same to their object, have the same buffer, the same object and are both connected or both
  -- not, then after `_process_buffer` of the one and `_processBuffer` of the other they agree
  -- in all three again, for any bytes.
  pub process_buffer-Agrees :
      (p : Client S) (c : QtClient qt S)
      → p.tcp.received_data_callback ≡ some (returning step)
      → Agrees qt p c
      → Agrees qt (Tcp.process_buffer p).1 (process_buffer qt slots c)
  process_buffer-Agrees p c set a =
      agree (suc (length c.buffer)) p c (omega arith) set a (next_message c.buffer) refl
