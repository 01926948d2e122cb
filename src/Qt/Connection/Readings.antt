-- ===== src/Qt/Connection/Readings.antt =====
-- tcpclient.py of the PyQt variant, `readData`: how the stream is cut makes no difference, and what a
-- malformed stream leaves behind.
use knot_link_sdk.Base.{
  ltb, ℕ, zero, suc, ◌<◌, ◌≡◌, refl, ap, sym, subst, ◌∙◌, inl, inr, List, [], ◌∷◌, ◌++◌,
  append_assoc, append-nil, arith, concat, length, seq_eq, Bool-cases,
}
use knot_link_sdk.Wire.{
  Bytes, max_msg_size, Scan, incomplete, bad_magic, bad_length, message, next_message,
  heartbeat_response,
}
use knot_link_sdk.Wire.Scanning.{next_message_shrinks, next_message-append}
use knot_link_sdk.Wire.Kinds.{next_message-append_bad_magic, next_message-append_bad_length}
use knot_link_sdk.Tcp.Endings.{IsRefused}
use knot_link_sdk.Qt.{Toolkit}
use knot_link_sdk.Qt.Connection.{
  is_connected, write_with_length_prefix, send_data, QtClient, Slots, with_buffer,
  disconnect_from_host, socket_connected, socket_disconnected, process_message, process_buffer,
  read_data, connect_to_server,
}
use knot_link_sdk.Qt.Connection.Rounds.{
  process_buffer-message, process_buffer-incomplete, process_buffer-bad_magic,
  process_buffer-bad_length,
}
use knot_link_sdk.Qt.Connection.Agreement.{hosting, hosting-AddsNothing}

-- `readData` for each of the pieces
abbrev pub read_all :
    {S : Type 0} (qt : Toolkit) → Slots qt S → List Bytes → QtClient qt S → QtClient qt S
read_all qt slots [] c = c
read_all qt slots (piece ∷ pieces) c = read_all qt slots pieces (read_data qt slots piece c)

-- The same bytes are left, and the same messages have been handed over.
pub record SameRead {qt : Toolkit} {S : Type 0} (c d : QtClient qt S) : Type 0 where
  pub buffers : c.buffer ≡ d.buffer
  pub hosts : c.host ≡ d.host

module _ (qt : Toolkit) {S : Type 0} where
  write-SameRead :
      (bytes : Bytes) (c : QtClient qt S) → SameRead (write_with_length_prefix qt bytes c).1 c
  unfolding write_with_length_prefix
  write-SameRead bytes c = elim (Bool-cases (is_connected c)) [
    | inr off ↦ rw off (record { buffers = refl; hosts = refl })
    | inl on ↦ elim (Bool-cases (ltb max_msg_size (length bytes))) [
      | inl long ↦ rw (on, long) (record { buffers = refl; hosts = refl })
      | inr fit ↦ rw (on, fit) (record { buffers = refl; hosts = refl })
    ]
  ]

  -- Sending leaves what has been read alone.
  pub send_data-SameRead : (bytes : Bytes) (c : QtClient qt S) → SameRead (send_data qt bytes c) c
  unfolding send_data
  send_data-SameRead bytes c = write-SameRead bytes c

module _ (qt : Toolkit) {S : Type 0} (step : Bytes → S → S) where
  abbrev slots : Slots qt S
  slots = hosting qt step

  abbrev extend : Bytes → QtClient qt S → QtClient qt S
  extend more c = with_buffer (c.buffer ++ more) c

  disconnect_from_host-SameRead : (c : QtClient qt S) → SameRead (disconnect_from_host qt slots c) c
  unfolding disconnect_from_host socket_disconnected hosting
  disconnect_from_host-SameRead c = elim (Bool-cases (qt.disconnect_from_host c.tcp_socket).0) [
    | inl e ↦ rw e (record { buffers = refl; hosts = refl })
    | inr e ↦ rw e (record { buffers = refl; hosts = refl })
  ]

  process_message-extend :
      (msg more : Bytes) (c : QtClient qt S)
      → process_message qt slots msg (extend more c) ≡ extend more (process_message qt slots msg c)
  unfolding process_message hosting
  process_message-extend msg more c = elim (Bool-cases (seq_eq msg heartbeat_response)) [
    | inl e ↦ rw e refl
    | inr e ↦ rw e refl
  ]

  buffer-process_message :
      (msg : Bytes) (c : QtClient qt S) → (process_message qt slots msg c).buffer ≡ c.buffer
  unfolding process_message hosting
  buffer-process_message msg c = elim (Bool-cases (seq_eq msg heartbeat_response)) [
    | inl e ↦ rw e refl
    | inr e ↦ rw e refl
  ]

  -- What is left to do after a run of the loop, with more bytes, if the buffer was malformed.
  refused_again :
      (more : Bytes) (c : QtClient qt S)
      → ((d : QtClient qt S)
          → d.buffer ≡ c.buffer
          → process_buffer qt slots (extend more d) ≡ disconnect_from_host qt slots (extend more d))
      → process_buffer qt slots c ≡ disconnect_from_host qt slots c
      → SameRead
          (process_buffer qt slots (extend more c))
          (process_buffer qt slots (extend more (process_buffer qt slots c)))
  refused_again more c again e =
      let d = disconnect_from_host qt slots c in
      let same = disconnect_from_host-SameRead c in
      let first = disconnect_from_host-SameRead (extend more c) in
      let second = disconnect_from_host-SameRead (extend more d) in
      rw (e, again c refl, again d same.buffers)
        (record {
          buffers = first.buffers ∙ ap (λ b. b ++ more) (sym same.buffers) ∙ sym second.buffers;
          hosts = first.hosts ∙ sym same.hosts ∙ sym second.hosts;
        })

  extend_scan :
      (n : ℕ) (more : Bytes) (c : QtClient qt S)
      → length c.buffer < n
      → (s : Scan) → next_message c.buffer ≡ s
      → SameRead
          (process_buffer qt slots (extend more c))
          (process_buffer qt slots (extend more (process_buffer qt slots c)))
  extend_scan zero more c h s e = absurd (omega arith)
  extend_scan (suc n) more c h incomplete e =
      rw (process_buffer-incomplete qt slots (hosting-AddsNothing qt step) c e)
        (record { buffers = refl; hosts = refl })
  extend_scan (suc n) more c h bad_magic e =
      refused_again more c
        (λ d same.
          process_buffer-bad_magic qt slots (hosting-AddsNothing qt step) (extend more d)
            (next_message-append_bad_magic d.buffer more (ap next_message same ∙ e)))
        (process_buffer-bad_magic qt slots (hosting-AddsNothing qt step) c e)
  extend_scan (suc n) more c h (bad_length len) e =
      refused_again more c
        (λ d same.
          process_buffer-bad_length qt slots (hosting-AddsNothing qt step) (extend more d) len
            (next_message-append_bad_length d.buffer more len (ap next_message same ∙ e)))
        (process_buffer-bad_length qt slots (hosting-AddsNothing qt step) c len e)
  extend_scan (suc n) more c h (message msg left) e =
      let shorter = next_message_shrinks c.buffer msg left e in
      let c' = process_message qt slots msg (with_buffer left c) in
      rw
        (
          process_buffer-message qt slots (hosting-AddsNothing qt step) c msg left e,
          process_buffer-message qt slots (hosting-AddsNothing qt step) (extend more c) msg
              (left ++ more) (next_message-append c.buffer more msg left e),
          process_message-extend msg more (with_buffer left c),
        )
        (extend_scan n more c' (rw (buffer-process_message msg (with_buffer left c)) (omega arith))
          (next_message c'.buffer) refl)

  read_data-join :
      (xs ys : Bytes) (c : QtClient qt S)
      → SameRead (read_data qt slots ys (read_data qt slots xs c)) (read_data qt slots (xs ++ ys) c)
  unfolding read_data
  read_data-join [] ys c = record { buffers = refl; hosts = refl }
  read_data-join (x ∷ xs) [] c = rw append-nil (record { buffers = refl; hosts = refl })
  read_data-join (x ∷ xs) (y ∷ ys) c =
      let same =
        extend_scan (suc (length (c.buffer ++ (x ∷ xs)))) (y ∷ ys) (extend (x ∷ xs) c) (omega arith)
          (next_message (c.buffer ++ (x ∷ xs))) refl in
      rw (← append_assoc c.buffer (x ∷ xs) (y ∷ ys))
        (record { buffers = sym same.buffers; hosts = sym same.hosts })

  -- If the slots work on their own object only, the pieces in which a stream arrives, empty
  -- ones included, make no difference to the bytes that are left in the buffer and to what has
  -- been handed over, also if the stream is malformed.
  pub read_all-SameRead :
      (first : Bytes) (pieces : List Bytes) (c : QtClient qt S)
      → SameRead
          (read_all qt slots (first ∷ pieces) c)
          (read_data qt slots (first ++ concat pieces) c)
  read_all-SameRead first [] c = rw append-nil (record { buffers = refl; hosts = refl })
  read_all-SameRead first (piece ∷ pieces) c =
      let rest = read_all-SameRead piece pieces (read_data qt slots first c) in
      let joined = read_data-join first (piece ++ concat pieces) c in
      record { buffers = rest.buffers ∙ joined.buffers; hosts = rest.hosts ∙ joined.hosts }

  refused_more :
      (more : Bytes) (c : QtClient qt S)
      → IsRefused (next_message (c.buffer ++ more))
      → process_buffer qt slots (extend more c) ≡ disconnect_from_host qt slots (extend more c)
  refused_more more c (inl e) =
      process_buffer-bad_magic qt slots (hosting-AddsNothing qt step) (extend more c) e
  refused_more more c (inr (n, e)) =
      process_buffer-bad_length qt slots (hosting-AddsNothing qt step) (extend more c) n e

  IsRefused-append :
      (b more : Bytes) → IsRefused (next_message b) → IsRefused (next_message (b ++ more))
  IsRefused-append b more (inl e) = inl (next_message-append_bad_magic b more e)
  IsRefused-append b more (inr (n, e)) = inr (n, next_message-append_bad_length b more n e)

  -- A client whose buffer is malformed hands over nothing, and its buffer stays malformed.
  read-IsRefused :
      (piece : Bytes) (c : QtClient qt S)
      → IsRefused (next_message c.buffer)
      → IsRefused (next_message (read_data qt slots piece c).buffer)
        × ((read_data qt slots piece c).host ≡ c.host)
  unfolding read_data
  read-IsRefused [] c bad = (bad, refl)
  read-IsRefused (b ∷ bytes) c bad =
      let still = IsRefused-append c.buffer (b ∷ bytes) bad in
      let same = disconnect_from_host-SameRead (extend (b ∷ bytes) c) in
      rw (refused_more (b ∷ bytes) c still)
        (subst (λ x. IsRefused (next_message x)) (sym same.buffers) still, same.hosts)

  read_all-IsRefused :
      (pieces : List Bytes) (c : QtClient qt S)
      → IsRefused (next_message c.buffer)
      → (read_all qt slots pieces c).host ≡ c.host
  read_all-IsRefused [] c bad = refl
  read_all-IsRefused (piece ∷ pieces) c bad =
      let (still, same) = read-IsRefused piece c bad in
      read_all-IsRefused pieces (read_data qt slots piece c) still ∙ same

  connect_to_server-SameRead :
      (ip : Bytes) (port : ℕ) (c : QtClient qt S)
      → SameRead (connect_to_server qt slots ip port c).1 c
  unfolding connect_to_server socket_connected hosting
  connect_to_server-SameRead ip port c =
      elim (Bool-cases (qt.wait_for_connected (qt.connect_to_host ip port c.tcp_socket)).0) [
        | inl e ↦ rw e (record { buffers = refl; hosts = refl })
        | inr e ↦ rw e (record { buffers = refl; hosts = refl })
      ]

  -- If the slots work on their own object only, a client that holds a malformed header in its
  -- buffer hands over nothing after connecting again, whether that succeeds or not, whatever
  -- bytes arrive then.
  pub connect_to_server-stale :
      (ip : Bytes) (port : ℕ) (pieces : List Bytes) (c : QtClient qt S)
      → IsRefused (next_message c.buffer)
      → (read_all qt slots pieces (connect_to_server qt slots ip port c).1).host ≡ c.host
  connect_to_server-stale ip port pieces c bad =
      let same = connect_to_server-SameRead ip port c in
      read_all-IsRefused pieces (connect_to_server qt slots ip port c).1
        (subst (λ x. IsRefused (next_message x)) (sym same.buffers) bad)
      ∙ same.hosts
