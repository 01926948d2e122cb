-- ===== src/Qt/Querier/Replies.antt =====
-- OpenSocketQuerier.py of the PyQt variant: several replies that arrive in one event.
use knot_link_sdk.Base.{
  ◌≡◌, refl, ap, sym, ◌∙◌, true, false, none, List, [], ◌∷◌, ◌++◌, append_assoc, append-nil, All,
  if_true, if_false,
}
use knot_link_sdk.Exec.{ok}
use knot_link_sdk.Text.Utf8.{Text, Bytes}
use knot_link_sdk.Text.Utf8.RoundTrip.{decode-encode}
use knot_link_sdk.Tcp.Frames.{frames, consumed}
use knot_link_sdk.Qt.{Toolkit}
use knot_link_sdk.Qt.Texts.{IsMessage, bytes_of, IsSendable-bytes_of}
use knot_link_sdk.Qt.Connection.{QtClient, read_data}
use knot_link_sdk.Qt.Connection.Delivery.{read_all-frames}
use knot_link_sdk.Qt.Querier.{
  Output, data_back_a, data_back, Listening, on_message, QtQuerier, returns, aborts, quits,
  result_of, leave_loop, on_host, slots, query, exec, query_l,
}
use knot_link_sdk.Qt.Querier.Loops.{with_loop, waiting, waits_for, same, query_l-exec}
use knot_link_sdk.Qt.Querier.Messages.{
  listening, ended, opened, on_message_locked, on_message_unlocked,
}

-- What leaves the querier for these messages where no `query_l` waits for them.
abbrev pub outputs_of : List (Text × Bytes) → List Output
outputs_of [] = []
outputs_of ((s, b) ∷ messages) = data_back_a b ∷ data_back s ∷ outputs_of messages

abbrev pub last_text : Text → List (Text × Bytes) → Text
last_text so_far [] = so_far
last_text so_far ((s, b) ∷ messages) = last_text s messages

consumed_after :
    (messages : List (Text × Bytes)) (so_far : Text) (out : List Output)
    → All IsMessage messages
    → consumed on_message (bytes_of messages) (listening false out (ended so_far))
      ≡ listening false (out ++ outputs_of messages) (ended (last_text so_far messages))
consumed_after [] so_far out _ = ap (λ o. listening false o (ended so_far)) (sym (append-nil out))
consumed_after ((s, b) ∷ messages) so_far out (h, hs) =
    let w = listening false out (ended so_far) in
    ap (consumed on_message (bytes_of messages)) (
      if_false w (on_message b w) h.no_heartbeat
      ∙ on_message_unlocked b s out (record { result = so_far; quit = true })
          (decode-encode s b h.encodes).0)
    ∙ consumed_after messages s (out ++ (data_back_a b ∷ data_back s ∷ [])) hs
    ∙ ap (λ o. listening false o (ended (last_text s messages)))
        (append_assoc out (data_back_a b ∷ data_back s ∷ []) (outputs_of messages))

consumed_waiting :
    (s : Text) (b : Bytes) (messages : List (Text × Bytes)) (out : List Output)
    → IsMessage (s, b)
    → All IsMessage messages
    → consumed on_message (b ∷ bytes_of messages) (listening true out opened)
      ≡ listening false (out ++ outputs_of messages) (ended (last_text s messages))
consumed_waiting s b messages out h hs =
    let w = listening true out opened in
    ap (consumed on_message (bytes_of messages)) (
      if_false w (on_message b w) h.no_heartbeat
      ∙ on_message_locked b s out (record { result = []; quit = false })
          (decode-encode s b h.encodes).0)
    ∙ consumed_after messages s out hs

module _ (qt : Toolkit) where
  -- The event loop ends with the event in which it was told to quit.
  exec_now :
      (bytes : Bytes) (t : Text) (out : List Output) (events : List Bytes)
      (c : QtClient qt Listening) (s : QtQuerier qt)
      → (read_data qt (slots qt) bytes c).host ≡ listening false out (ended t)
      → ((leave_loop qt (exec qt (bytes ∷ events) c) s).0 ≡ returns t)
        × ((leave_loop qt (exec qt (bytes ∷ events) c) s).1.client.host ≡ listening false out none)
  unfolding exec
  exec_now bytes t out events c s e =
      let c' = read_data qt (slots qt) bytes c in
      let runs : c'.host.aborted ≡ false = ap (λ w. w.aborted) e in
      let quit : quits c'.host.loop ≡ true = ap (λ w. quits w.loop) e in
      let stops = if_true (true, c') (exec qt events c') (rw (runs, quit) refl) in
      let left =
        ap (λ r. leave_loop qt r s) stops
        ∙ if_false (aborts, record s { client = c' })
            (
              returns (result_of c'.host.loop),
              on_host qt (λ w. record w { loop = none }) (record s { client = c' }),
            )
            runs in
      (
        ap (λ r. r.0) left ∙ ap (λ w. returns (result_of w.loop)) e,
        ap (λ r. r.1.client.host) left ∙ ap {A = Listening} (λ w. record w { loop = none }) e,
      )

  -- If the query of `query_l` is sent without an exception, the program runs and the buffer is
  -- empty, and one event brings the frames of several texts, then `query_l` returns the last of
  -- them, each but the first has left the querier as the signals `dataBack_a` and `dataBack`
  -- besides, `lock` is false, and later events are left alone.
  pub query_l-last_text :
      (data_ s : Text) (b : Bytes) (rest : List (Text × Bytes)) (events : List Bytes)
      (q q1 : QtQuerier qt)
      → query qt data_ (with_loop qt opened q) ≡ (ok tt, q1)
      → q.client.buffer ≡ []
      → q.client.host.aborted ≡ false
      → IsMessage (s, b)
      → All IsMessage rest
      → ((query_l qt data_ (frames (b ∷ bytes_of rest) ∷ events) q).0 ≡ returns (last_text s rest))
        × ((query_l qt data_ (frames (b ∷ bytes_of rest) ∷ events) q).1.client.host
            ≡ listening false (q.client.host.outputs ++ outputs_of rest) none)
  query_l-last_text data_ s b rest events q q1 sent empty runs h hs =
      let now =
        exec_now stream (last_text s rest) (q.client.host.outputs ++ outputs_of rest) events c
          (on_host qt (λ w. record w { lock = true }) q1) host in
      rw (query_l-exec qt data_ q q1 sent (stream ∷ events)) now
    where
      stream : Bytes
      stream = frames (b ∷ bytes_of rest)

      c : QtClient qt Listening
      c = waiting qt data_ q q1 sent

      before : c.host ≡ listening true q.client.host.outputs opened
      before = waits_for qt data_ q q1 sent runs

      host :
          (read_data qt (slots qt) stream c).host
          ≡ listening false (q.client.host.outputs ++ outputs_of rest) (ended (last_text s rest))
      host =
          (read_all-frames qt on_message stream [] (b ∷ bytes_of rest) c
            ((same qt data_ q q1 sent).buffers ∙ empty) (h.sendable, IsSendable-bytes_of rest hs)
            (append-nil stream)).hosts
          ∙ ap (consumed on_message (b ∷ bytes_of rest)) before
          ∙ consumed_waiting s b rest q.client.host.outputs h hs
