-- ===== src/Qt/Querier/Loops.antt =====
-- OpenSocketQuerier.py of the PyQt variant: when the event loop of `query_l` ends, and with what.
use knot_link_sdk.Base.{
  ◌≡◌, refl, ap, subst, ◌∙◌, inl, inr, true, false, ◌||◌, Option, some, List, [], ◌∷◌, ◌++◌,
  append-nil, All, if◌then◌else◌, Bool-cases,
}
use knot_link_sdk.Exec.{Result, ok, raised, Exec, continue}
use knot_link_sdk.Text.Utf8.{Text, Bytes, encode}
use knot_link_sdk.Wire.{IsSendable}
use knot_link_sdk.Tcp.Frames.{frames, consumed}
use knot_link_sdk.Roles.{channel_key, key_prefix, or_unicode_error}
use knot_link_sdk.Qt.{Toolkit}
use knot_link_sdk.Qt.Connection.{QtClient, send_data, read_data}
use knot_link_sdk.Qt.Connection.Readings.{SameRead, send_data-SameRead}
use knot_link_sdk.Qt.Connection.Delivery.{read_all-frames}
use knot_link_sdk.Qt.Querier.{
  Loop, Listening, on_message, QtQuerier, blocks, quits, slots, on_host, send_query_a, query, exec,
  leave_loop, wait_for_reply, query_l,
}
use knot_link_sdk.Qt.Querier.Messages.{opened, listening, verdict, outcome_of, outcome_of-consumed}

module _ (qt : Toolkit) where
  abbrev Keeps : {A : Type 0} → Exec (QtQuerier qt) A → Type 0
  Keeps m = (s : QtQuerier qt) → SameRead (m s).1.client s.client

  continue-Keeps :
      {A B : Type 0} (r : Result A) (f : A → Exec (QtQuerier qt) B)
      → ((a : A) → Keeps (f a))
      → Keeps (continue r f)
  continue-Keeps (ok a) f h s = h a s
  continue-Keeps (raised e) f h s = record { buffers = refl; hosts = refl }

  send_query_a-Keeps : (app id : Text) (bytes : Bytes) → Keeps (send_query_a qt app id bytes)
  unfolding send_query_a
  send_query_a-Keeps app id bytes =
      continue-Keeps (or_unicode_error (encode (key_prefix (channel_key (some app) (some id)))))
        (λ key s. (ok tt, record s { client = send_data qt (key ++ bytes) s.client }))
        (λ key s. send_data-SameRead qt (key ++ bytes) s.client)

  query-Keeps : (data_ : Text) → Keeps (query qt data_)
  unfolding query
  query-Keeps data_ s =
      continue-Keeps (or_unicode_error (encode data_)) (send_query_a qt s.app_id s.open_socket_id)
        (λ bytes. send_query_a-Keeps s.app_id s.open_socket_id bytes) s

  abbrev pub with_loop : Option Loop → QtQuerier qt → QtQuerier qt
  with_loop loop = on_host qt (λ w. record w { loop = loop })

  -- The event loop over one event, and how `query_l` ends then.
  exec-outcome_of :
      (bytes : Bytes) (c : QtClient qt Listening) (s : QtQuerier qt)
      → (leave_loop qt (exec qt (bytes ∷ []) c) s).0
        ≡ outcome_of (read_data qt (slots qt) bytes c).host
  unfolding exec
  exec-outcome_of bytes c s = left (read_data qt (slots qt) bytes c)
    where
      left :
          (d : QtClient qt Listening)
          → (leave_loop qt
              (if d.host.aborted || quits d.host.loop then (true, d) else (false, d))
              s).0
            ≡ outcome_of d.host
      left d = elim (Bool-cases d.host.aborted) [
        | inl over ↦ simp over refl
        | inr runs ↦ elim (Bool-cases (quits d.host.loop)) [
          | inl quit ↦ simp (runs, quit) refl
          | inr waits ↦ simp (runs, waits) refl
        ]
      ]

  module _ (data_ : Text) (s s1 : QtQuerier qt)
      (sent : query qt data_ (with_loop opened s) ≡ (ok tt, s1)) where
    abbrev pub waiting : QtClient qt Listening
    waiting = (on_host qt (λ w. record w { lock = true }) s1).client

    pub same : SameRead s1.client (with_loop opened s).client
    same =
        subst (λ (t : QtQuerier qt). SameRead t.client (with_loop opened s).client)
          (ap (λ r. r.1) sent) (query-Keeps data_ (with_loop opened s))

    pub waits_for :
        s.client.host.aborted ≡ false → waiting.host ≡ listening true s.client.host.outputs opened
    waits_for runs =
        ap {A = Listening} (λ w. record w { lock = true }) same.hosts
        ∙ ap (λ a. record (listening true s.client.host.outputs opened) { aborted = a }) runs

    pub query_l-exec :
        (events : List Bytes)
        → query_l qt data_ events s
          ≡ leave_loop qt (exec qt events waiting) (on_host qt (λ w. record w { lock = true }) s1)
    unfolding query_l wait_for_reply
    query_l-exec events = rw sent refl

    -- If the query of `query_l` is sent without an exception, the program runs and the buffer
    -- is empty, and one event brings the frames of any messages of 1 byte to 16 MB and no
    -- other event comes, then heartbeat responses left out: `query_l` blocks if there is no
    -- message; PyQt5 aborts the program if one is no UTF-8; and else `query_l` returns the
    -- text of the last one.
    pub query_l-verdict :
        (msgs : List Bytes)
        → s.client.buffer ≡ []
        → s.client.host.aborted ≡ false
        → All IsSendable msgs
        → (query_l qt data_ (frames msgs ∷ []) s).0 ≡ verdict blocks msgs
    query_l-verdict msgs empty runs sendable =
        ap (λ r. r.0) (query_l-exec (frames msgs ∷ []))
        ∙ exec-outcome_of (frames msgs) waiting (on_host qt (λ w. record w { lock = true }) s1)
        ∙ ap outcome_of (
            (read_all-frames qt on_message (frames msgs) [] msgs waiting (same.buffers ∙ empty)
              sendable (append-nil (frames msgs))).hosts
            ∙ ap (consumed on_message msgs) (waits_for runs))
        ∙ outcome_of-consumed msgs true s.client.host.outputs (record { result = []; quit = false })
