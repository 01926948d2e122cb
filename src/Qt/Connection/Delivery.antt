-- ===== src/Qt/Connection/Delivery.antt =====
-- tcpclient.py of the PyQt variant: a stream of frames delivers their messages to the slots.
use knot_link_sdk.Base.{
  ℕ, zero, suc, ◌≡◌, refl, ap, sym, subst, ◌∙◌, inl, inr, List, [], ◌∷◌, ◌++◌, arith, concat,
  length, seq_eq, Bool-cases, All,
}
use knot_link_sdk.Wire.{
  Bytes, IsSendable, Scan, incomplete, bad_magic, bad_length, message, next_message, frame,
  heartbeat_response,
}
use knot_link_sdk.Wire.Scanning.{next_message_short, next_message-frame}
use knot_link_sdk.Tcp.Frames.{frames, consume, consumed}
use knot_link_sdk.Qt.{Toolkit}
use knot_link_sdk.Qt.Connection.{
  QtClient, Slots, with_buffer, disconnect_from_host, socket_disconnected, process_message,
  process_round, process_rounds, process_buffer, read_data,
}
use knot_link_sdk.Qt.Connection.Rounds.{process_buffer-message, process_buffer-incomplete}
use knot_link_sdk.Qt.Connection.Agreement.{hosting, hosting-AddsNothing}
use knot_link_sdk.Qt.Connection.Readings.{read_all, SameRead, read_all-SameRead}

module _ (qt : Toolkit) {S : Type 0} (step : Bytes → S → S) where
  abbrev slots : Slots qt S
  slots = hosting qt step

  process_message-consume :
      (msg : Bytes) (c : QtClient qt S)
      → process_message qt slots msg c ≡ record c { host = consume step msg c.host }
  unfolding process_message hosting
  process_message-consume msg c = elim (Bool-cases (seq_eq msg heartbeat_response)) [
    | inl e ↦ rw e refl
    | inr e ↦ rw e refl
  ]

  drain :
      (msgs : List Bytes) (c : QtClient qt S)
      → All IsSendable msgs
      → process_buffer qt slots (with_buffer (frames msgs) c)
        ≡ record (with_buffer [] c) { host = consumed step msgs c.host }
  drain [] c _ =
      process_buffer-incomplete qt slots (hosting-AddsNothing qt step) (with_buffer [] c)
        (next_message_short [] (omega arith))
  drain (msg ∷ msgs) c (s, ss) =
      process_buffer-message qt slots (hosting-AddsNothing qt step)
        (with_buffer (frame msg ++ frames msgs) c) msg (frames msgs)
        (next_message-frame msg (frames msgs) s)
      ∙ ap (process_buffer qt slots) (process_message-consume msg (with_buffer (frames msgs) c))
      ∙ drain msgs (record c { host = consume step msg c.host }) ss

  read_once :
      (stream : Bytes) (msgs : List Bytes) (c : QtClient qt S)
      → c.buffer ≡ []
      → All IsSendable msgs
      → stream ≡ frames msgs
      → SameRead
          (read_data qt slots stream c)
          (record (with_buffer [] c) { host = consumed step msgs c.host })
  unfolding read_data
  read_once [] [] c empty s e = record { buffers = empty; hosts = refl }
  read_once [] (msg ∷ msgs) c empty s e = unfold frame in cc
  read_once (b ∷ bytes) msgs c empty s e =
      rw (empty, e, drain msgs c s) (record { buffers = refl; hosts = refl })

  -- If the slots work on their own object only and the buffer is empty, the frames of messages
  -- of 1 byte to 16 MB, cut into pieces in any way, are handed over in their order, heartbeat
  -- responses left out, and nothing is left in the buffer.
  pub read_all-frames :
      (first : Bytes) (pieces msgs : List Bytes) (c : QtClient qt S)
      → c.buffer ≡ []
      → All IsSendable msgs
      → first ++ concat pieces ≡ frames msgs
      → SameRead
          (read_all qt slots (first ∷ pieces) c)
          (record (with_buffer [] c) { host = consumed step msgs c.host })
  read_all-frames first pieces msgs c empty s e =
      let same = read_all-SameRead qt step first pieces c in
      let once = read_once (first ++ concat pieces) msgs c empty s e in
      record { buffers = same.buffers ∙ once.buffers; hosts = same.hosts ∙ once.hosts }

  -- What the slots keep of their object, reading keeps.
  module _ (P : S → Type 0) (keeps : (msg : Bytes) (host : S) → P host → P (step msg host)) where
    consume-keeps : (msg : Bytes) (host : S) → P host → P (consume step msg host)
    consume-keeps msg host h = elim (Bool-cases (seq_eq msg heartbeat_response)) [
      | inl e ↦ rw e h
      | inr e ↦ rw e (keeps msg host h)
    ]

    disconnect_from_host-keeps :
        (c : QtClient qt S) → P c.host → P (disconnect_from_host qt slots c).host
    unfolding disconnect_from_host socket_disconnected hosting
    disconnect_from_host-keeps c h = elim (Bool-cases (qt.disconnect_from_host c.tcp_socket).0) [
      | inl e ↦ rw e h
      | inr e ↦ rw e h
    ]

    rounds_keep :
        (again : QtClient qt S → QtClient qt S)
        → ((d : QtClient qt S) → P d.host → P (again d).host)
        → (s : Scan) (c : QtClient qt S) → P c.host
        → P (process_round qt slots again s c).host
    unfolding process_round
    rounds_keep again keep incomplete c h = h
    rounds_keep again keep bad_magic c h = disconnect_from_host-keeps c h
    rounds_keep again keep (bad_length n) c h = disconnect_from_host-keeps c h
    rounds_keep again keep (message msg left) c h =
        keep (process_message qt slots msg (with_buffer left c)) (
          subst (λ (d : QtClient qt S). P d.host)
            (sym (process_message-consume msg (with_buffer left c))) (consume-keeps msg c.host h))

    process_rounds-keeps :
        (n : ℕ) (c : QtClient qt S) → P c.host → P (process_rounds qt slots n c).host
    unfolding process_rounds
    process_rounds-keeps zero c h = h
    process_rounds-keeps (suc n) c h =
        rounds_keep (process_rounds qt slots n) (process_rounds-keeps n) (next_message c.buffer) c h

    pub read_data-keeps :
        (bytes : Bytes) (c : QtClient qt S) → P c.host → P (read_data qt slots bytes c).host
    unfolding read_data process_buffer
    read_data-keeps [] c h = h
    read_data-keeps (b ∷ bytes) c h =
        process_rounds-keeps (suc (length (c.buffer ++ (b ∷ bytes))))
          (with_buffer (c.buffer ++ (b ∷ bytes)) c) h

    pub read_all-keeps :
        (pieces : List Bytes) (c : QtClient qt S) → P c.host → P (read_all qt slots pieces c).host
    read_all-keeps [] c h = h
    read_all-keeps (piece ∷ pieces) c h =
        read_all-keeps pieces (read_data qt slots piece c) (read_data-keeps piece c h)
