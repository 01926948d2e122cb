-- ===== src/Roles/Subscriber/Leaving.antt =====
-- SignalSubscriber.py with a user's function that may call the subscriber's `disconnect`.
use knot_link_sdk.Base.{
  ℕ, Bool, ◌≡◌, refl, ap, sym, ◌∙◌, true, false, ◌||◌, inl, inr, List, [], ◌∷◌, ◌++◌, append_assoc,
  append-nil, subst, ◌⊎◌, if_true, if_false, All, seq_eq, if◌then◌else◌, Bool-cases,
}
use knot_link_sdk.Exec.{Result, ok, Exec}
use knot_link_sdk.Text.Utf8.{Text, Bytes, decode_replace}
use knot_link_sdk.Wire.{IsSendable, heartbeat_response, incomplete, next_message}
use knot_link_sdk.Tcp.{Client, Recv, chunk, disconnect}
use knot_link_sdk.Tcp.Frames.{frames}
use knot_link_sdk.Tcp.Failures.{connected-disconnect}
use knot_link_sdk.Tcp.Reentrant.{Handler, receive_data_by}
use knot_link_sdk.Tcp.Reentrant.Leaving.{Acts, disconnect-with_buffer, acted, receive_data_by-left}
use knot_link_sdk.Roles.Subscriber.{Listener}
use knot_link_sdk.Roles.Subscriber.Signals.{hear, texts_of}

-- `data_recv`, the user's function being a program that works on the subscriber's client too.
pub data_recv_by : (Text → Exec (Client Listener) (Unit {0})) → Handler Listener
data_recv_by program bytes c =
    let s = decode_replace bytes in program s (record c { host = hear (s ∷ []) c.host })

-- A program that calls `disconnect` on the texts of which `leaves` holds.
abbrev pub leave_if : (Text → Bool) → Text → Exec (Client Listener) (Unit {0})
leave_if leaves s c = (ok tt, if leaves s then record c { tcp = disconnect c.tcp } else c)

abbrev pub any : (Text → Bool) → List Text → Bool
any leaves [] = false
any leaves (s ∷ texts) = leaves s || any leaves texts

module _ (leaves : Text → Bool) where
  abbrev step : Bytes → Client Listener → Client Listener
  step msg c =
      let s = decode_replace msg in
      let d = record c { host = hear (s ∷ []) c.host } in
      if leaves s then record d { tcp = disconnect d.tcp } else d

  step-Acts : Acts (data_recv_by (leave_if leaves)) step
  unfolding data_recv_by
  step-Acts = record {
    returns = λ msg c. refl;
    ignores = λ msg b c. elim (Bool-cases (leaves (decode_replace msg))) [
      | inl e ↦ rw e (
          ap (λ t. record c { tcp = t; host = hear (decode_replace msg ∷ []) c.host })
            (disconnect-with_buffer b c.tcp))
      | inr e ↦ rw e refl
    ];
  }

  heard-step :
      (msg : Bytes) (c : Client Listener)
      → (step msg c).host.heard ≡ c.host.heard ++ decode_replace msg ∷ []
  heard-step msg c = elim (Bool-cases (leaves (decode_replace msg))) [
    | inl e ↦ rw e refl
    | inr e ↦ rw e refl
  ]

  heard-acted :
      (msgs : List Bytes) (c : Client Listener)
      → (acted step msgs c).host.heard ≡ c.host.heard ++ texts_of msgs
  heard-acted [] c = sym (append-nil c.host.heard)
  heard-acted (msg ∷ msgs) c = elim (Bool-cases (seq_eq msg heartbeat_response)) [
    | inl e ↦
        ap (λ d. (acted step msgs d).host.heard) (if_true c (step msg c) e)
        ∙ heard-acted msgs c
        ∙ ap (λ texts. c.host.heard ++ texts) (sym (if_true _ _ e))
    | inr e ↦
        ap (λ d. (acted step msgs d).host.heard) (if_false c (step msg c) e)
        ∙ heard-acted msgs (step msg c)
        ∙ ap (λ texts. texts ++ texts_of msgs) (heard-step msg c)
        ∙ append_assoc c.host.heard (decode_replace msg ∷ []) (texts_of msgs)
        ∙ ap (λ texts. c.host.heard ++ texts) (sym (if_false _ _ e))
  ]

  off-step :
      (msg : Bytes) (c : Client Listener)
      → c.tcp.connected ≡ false
      → (step msg c).tcp.connected ≡ false
  off-step msg c off = elim (Bool-cases (leaves (decode_replace msg))) [
    | inl e ↦ rw e (connected-disconnect c)
    | inr e ↦ rw e off
  ]

  leave-step :
      (msg : Bytes) (c : Client Listener)
      → leaves (decode_replace msg) ≡ true
      → (step msg c).tcp.connected ≡ false
  leave-step msg c e = rw e (connected-disconnect c)

  LeavesIn : List Text → Client Listener → Type 0
  LeavesIn texts c = (c.tcp.connected ≡ false) ⊎ (any leaves texts ≡ true)

  LeavesIn-step :
      (msg : Bytes) (texts : List Text) (c : Client Listener)
      → LeavesIn (decode_replace msg ∷ texts) c
      → LeavesIn texts (step msg c)
  unfolding LeavesIn
  LeavesIn-step msg texts c (inl off) = inl (off-step msg c off)
  LeavesIn-step msg texts c (inr e) = elim (Bool-cases (leaves (decode_replace msg))) [
    | inl now ↦ inl (leave-step msg c now)
    | inr not_now ↦ inr (rw not_now at e)
  ]

  off-acted :
      (msgs : List Bytes) (c : Client Listener)
      → LeavesIn (texts_of msgs) c
      → (acted step msgs c).tcp.connected ≡ false
  unfolding LeavesIn
  off-acted [] c (inl off) = off
  off-acted [] c (inr e) = cc
  off-acted (msg ∷ msgs) c h = elim (Bool-cases (seq_eq msg heartbeat_response)) [
    | inl e ↦
        ap (λ d. (acted step msgs d).tcp.connected) (if_true c (step msg c) e)
        ∙ off-acted msgs c (subst (λ texts. LeavesIn texts c) (if_true _ _ e) h)
    | inr e ↦
        ap (λ d. (acted step msgs d).tcp.connected) (if_false c (step msg c) e)
        ∙ off-acted msgs (step msg c) (
            LeavesIn-step msg (texts_of msgs) c
              (subst (λ texts. LeavesIn texts c) (if_false _ _ e) h))
  ]

  leaves_off :
      (msgs : List Bytes) (c : Client Listener)
      → any leaves (texts_of msgs) ≡ true
      → (acted step msgs c).tcp.connected ≡ false
  unfolding LeavesIn
  leaves_off msgs c e = off-acted msgs c (inr e)

-- How the thread of a subscriber ends whose function has disconnected.
pub record HasLeft (heard : List Text) (end : Result (Unit {0}) × Client Listener) : Type 0 where
  pub returned : end.0 ≡ ok tt
  pub texts : end.1.host.heard ≡ heard
  pub off : end.1.tcp.connected ≡ false

-- On a connected subscriber whose user's function calls `disconnect` on some texts, a chunk
-- arrives that is not empty and completes in the buffer the frames of messages of 1 byte to 16
-- MB, with less than a whole frame behind them, one of the texts, heartbeat responses left out,
-- being such a text. Then the function still gets the texts of all of these messages, in their
-- order; the thread returns without reading a later event, and the client is not connected.
pub receive_data_by-HasLeft :
    (leaves : Text → Bool) (x : ℕ) (xs : Bytes) (msgs : List Bytes) (part : Bytes)
    (events : List Recv) (c : Client Listener)
    → c.tcp.connected ≡ true
    → c.tcp.buffer ++ x ∷ xs ≡ frames msgs ++ part
    → All IsSendable msgs
    → next_message part ≡ incomplete
    → any leaves (texts_of msgs) ≡ true
    → HasLeft
        (c.host.heard ++ texts_of msgs)
        (receive_data_by (data_recv_by (leave_if leaves)) (chunk (x ∷ xs) ∷ events) c)
receive_data_by-HasLeft leaves x xs msgs part events c on stream ss waits some_text =
    let off = leaves_off leaves msgs c some_text in
    rw
      (receive_data_by-left (step leaves) (data_recv_by (leave_if leaves)) (step-Acts leaves) x xs
        msgs part events c on stream ss waits off)
      (record { returned = refl; texts = heard-acted leaves msgs c; off = off })
