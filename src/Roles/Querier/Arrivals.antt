-- ===== src/Roles/Querier/Arrivals.antt =====
-- OpenSocketQuerier.py over its TcpClient: where the messages of a stream go, as replies of a query or to the
-- user's function.
use knot_link_sdk.Base.{
  append-nil, append_assoc, Bool, false, sym, subst, ℕ, ◌≡◌, ◌≢◌, refl, ap, ◌∙◌, true, ◌&&◌, not,
  inl, inr, Option, none, some, List, [], ◌∷◌, ◌++◌, map, concat, All, seq_eq, Bool-cases, if_true,
  if_false, ◌⊎◌,
}
use knot_link_sdk.Exec.{Result, ok}
use knot_link_sdk.Text.Utf8.{Text, Bytes, decode_replace}
use knot_link_sdk.Wire.{IsSendable, heartbeat_response}
use knot_link_sdk.Roles.Querier.Waits.{IsAsking}
use knot_link_sdk.Tcp.{Client, chunk, receive_data}
use knot_link_sdk.Tcp.Frames.{frames, consumed}
use knot_link_sdk.Tcp.Returns.{Returns, receive_data-returns}
use knot_link_sdk.Roles.{UserFunction}
use knot_link_sdk.Roles.Subscriber.Signals.{texts_of}
use knot_link_sdk.Roles.Querier.{Waiting, internal_data_recv, call_back}

-- If there is a user's function, it returns on the text of this message.
abbrev pub Accepts : Option (UserFunction (Unit {0})) → Bytes → Type 0
Accepts none msg = Unit
Accepts (some f) msg = f (decode_replace msg) ≡ ok tt

abbrev step : Bytes → Waiting → Waiting
step msg w = (internal_data_recv msg w).1

call_back-ok :
    (f : Option (UserFunction (Unit {0}))) (msg : Bytes) (w : Waiting)
    → Accepts f msg
    → (call_back f (decode_replace msg) w).0 ≡ ok tt
unfolding call_back
call_back-ok none msg w q = refl
call_back-ok (some f) msg w q = q

callback-call_back :
    (f : Option (UserFunction (Unit {0}))) (text : Text) (w : Waiting)
    → (call_back f text w).1.callback ≡ w.callback
unfolding call_back
callback-call_back none text w = refl
callback-call_back (some f) text w = refl

-- A message is taken as the reply of the query, or handed to the user's function.
internal_data_recv-cases :
    (msg : Bytes) (w : Waiting)
    → (internal_data_recv msg w
        ≡ (ok tt, record w { query_result = some (decode_replace msg); query_event = true }))
      ⊎ (internal_data_recv msg w ≡ call_back w.callback (decode_replace msg) w)
unfolding internal_data_recv
internal_data_recv-cases msg w = elim (Bool-cases (w.is_querying && not w.timeout_occurred)) [
  | inl e ↦ inl (if_true _ _ e)
  | inr e ↦ inr (if_false _ _ e)
]

internal_data_recv-Accepts :
    (f : Option (UserFunction (Unit {0}))) (msg : Bytes) (w : Waiting)
    → Accepts f msg
    → w.callback ≡ f
    → ((internal_data_recv msg w).0 ≡ ok tt) × ((internal_data_recv msg w).1.callback ≡ f)
internal_data_recv-Accepts f msg w q set = elim (internal_data_recv-cases msg w) [
  | inl reply ↦ rw reply (refl, set)
  | inr heard ↦ rw heard (
    ap (λ g. (call_back g (decode_replace msg) w).0) set ∙ call_back-ok f msg w q,
    callback-call_back w.callback (decode_replace msg) w ∙ set,
  )
]

internal_data_recv-Returns :
    (f : Option (UserFunction (Unit {0})))
    → Returns (λ w. w.callback ≡ f) (Accepts f) internal_data_recv step
internal_data_recv-Returns f = record {
  returns = λ msg w q set. ap (λ r. (r, step msg w)) (internal_data_recv-Accepts f msg w q set).0;
  keeps = λ msg w q set. (internal_data_recv-Accepts f msg w q set).1;
}

-- The fields after replies: the last of them is the result, and the event is set if there is one.
abbrev pub replied : List Text → Waiting → Waiting
replied [] w = w
replied (text ∷ texts) w = replied texts (record w { query_result = some text; query_event = true })

-- No query waits: none has begun, or the one that has is over.
abbrev pub NotAsking : Waiting → Type 0
NotAsking w = (w.is_querying ≡ false) ⊎ (w.timeout_occurred ≡ true)

asks : (w : Waiting) → IsAsking w → (w.is_querying && not w.timeout_occurred) ≡ true
asks w h = rw (h.asking, h.in_time) refl

step-asking :
    (msg : Bytes) (w : Waiting)
    → IsAsking w
    → step msg w ≡ record w { query_result = some (decode_replace msg); query_event = true }
unfolding internal_data_recv
step-asking msg w h = ap (λ (p : Result (Unit {0}) × Waiting). p.1) (if_true _ _ (asks w h))

consumed-replied :
    (msgs : List Bytes) (w : Waiting)
    → IsAsking w
    → consumed step msgs w ≡ replied (texts_of msgs) w
consumed-replied [] w h = refl
consumed-replied (msg ∷ msgs) w h = elim (Bool-cases (seq_eq msg heartbeat_response)) [
  | inl e ↦ rw e (consumed-replied msgs w h)
  | inr e ↦ rw e (
      ap (consumed step msgs) (step-asking msg w h)
      ∙ consumed-replied msgs
          (record w { query_result = some (decode_replace msg); query_event = true })
          (record { asking = h.asking; in_time = h.in_time }))
]

not_asking : (w : Waiting) → NotAsking w → (w.is_querying && not w.timeout_occurred) ≡ false
not_asking w (inl idle) = ap (λ b. b && not w.timeout_occurred) idle
not_asking w (inr over) = ap (λ b. w.is_querying && not b) over ∙ and_false w.is_querying
  where
    and_false : (b : Bool) → (b && false) ≡ false
    and_false true = refl
    and_false false = refl

step-heard :
    (f : UserFunction (Unit {0})) (msg : Bytes) (w : Waiting)
    → w.callback ≡ some f
    → NotAsking w
    → step msg w ≡ record w { heard = w.heard ++ decode_replace msg ∷ [] }
unfolding internal_data_recv call_back
step-heard f msg w set h =
    ap (λ (p : Result (Unit {0}) × Waiting). p.1) (if_false _ _ (not_asking w h))
    ∙ ap (λ g. (call_back g (decode_replace msg) w).1) set

consumed-heard :
    (f : UserFunction (Unit {0})) (msgs : List Bytes) (w : Waiting)
    → w.callback ≡ some f
    → NotAsking w
    → consumed step msgs w ≡ record w { heard = w.heard ++ texts_of msgs }
consumed-heard f [] w set h = ap (λ texts. record w { heard = texts }) (sym (append-nil w.heard))
consumed-heard f (msg ∷ msgs) w set h = elim (Bool-cases (seq_eq msg heartbeat_response)) [
  | inl e ↦ rw e (consumed-heard f msgs w set h)
  | inr e ↦ rw e (
      ap (consumed step msgs) (step-heard f msg w set h)
      ∙ consumed-heard f msgs (record w { heard = w.heard ++ decode_replace msg ∷ [] }) set h
      ∙ ap (λ texts. record w { heard = texts })
          (append_assoc w.heard (decode_replace msg ∷ []) (texts_of msgs)))
]

module _ (x : ℕ) (xs : Bytes) (chunks msgs : List Bytes) (c : Client Waiting)
    (on : c.tcp.connected ≡ true) (set : c.tcp.received_data_callback ≡ some internal_data_recv)
    (empty : c.tcp.buffer ≡ []) (full : All (λ piece. piece ≢ []) chunks) (ss : All IsSendable msgs)
    (stream : (x ∷ xs) ++ concat chunks ≡ frames msgs) where
  abbrev end : Result (Unit {0}) × Client Waiting
  end = receive_data (chunk (x ∷ xs) ∷ map chunk chunks) c

  receive_data-consumed :
      All (Accepts c.host.callback) msgs
      → (end.0 ≡ ok tt) × (end.1.host ≡ consumed step msgs c.host)
  receive_data-consumed qs =
      let f = c.host.callback in
      receive_data-returns (λ w. w.callback ≡ f) (Accepts f) internal_data_recv step
        (internal_data_recv-Returns f) x xs chunks msgs c on set empty refl full ss qs stream

  -- On a connected querier with an empty buffer whose query waits, and whose user's function,
  -- if there is one, returns on these texts, the frames of messages of 1 byte to 16 MB, cut in
  -- any way into chunks that are not empty, are received without an exception; the text of the
  -- last one, heartbeat responses left out, is then the result and the event is set, if there
  -- is one, and nothing else in the locked fields or in the log of texts heard has changed.
  pub receive_data-replied :
      All (Accepts c.host.callback) msgs
      → IsAsking c.host
      → (end.0 ≡ ok tt) × (end.1.host ≡ replied (texts_of msgs) c.host)
  receive_data-replied qs h =
      let (result, host) = receive_data-consumed qs in
      (result, host ∙ consumed-replied msgs c.host h)

  -- On a connected querier with an empty buffer on which no query waits, since none has begun
  -- or the last one is over by its timeout or by `disconnect`, and whose user's function is set
  -- and returns on these texts, the frames of messages of 1 byte to 16 MB, cut in any way into
  -- chunks that are not empty, are received without an exception; the function is called with
  -- their texts in order, heartbeat responses left out, and the locked fields are as they were.
  pub receive_data-call_back :
      (f : UserFunction (Unit {0}))
      → c.host.callback ≡ some f
      → All (λ msg. f (decode_replace msg) ≡ ok tt) msgs
      → NotAsking c.host
      → (end.0 ≡ ok tt) × (end.1.host ≡ record c.host { heard = c.host.heard ++ texts_of msgs })
  receive_data-call_back f has_f qs h =
      let (result, host) =
        receive_data-consumed (subst (λ g. All (Accepts g) msgs) (sym has_f) qs) in
      (result, host ∙ consumed-heard f msgs c.host has_f h)
