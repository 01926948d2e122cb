-- ===== src/Tcp/Reentrant/Agreement.antt =====
-- Where the callback works on its own object only, `receive_data` with a callback that might call methods is
-- `receive_data` of the parent module.
use knot_link_sdk.Base.{
  ℕ, zero, suc, ◌≡◌, refl, ap, ◌∙◌, sym, true, some, List, [], ◌∷◌, ◌++◌, arith, length, if_true,
  if_false, Bool-cases, inl, inr,
}
use knot_link_sdk.Exec.{Result, ok, raised, Exec, continue, catch, handle, pure}
use knot_link_sdk.Wire.{Bytes, Scan, incomplete, bad_magic, bad_length, message, next_message}
use knot_link_sdk.Tcp.{
  Callback, TcpClient, Client, Recv, chunk, failure, interrupted, Flow, go_on, stop, with_buffer,
  handle_received_data, process_message, process_round, process_rounds, process_buffer,
  receive_chunk, receive_error, receive_next, receive_data, disconnect, cancel_timer,
}
use knot_link_sdk.Tcp.Rounds.{tcp-process_message}
use knot_link_sdk.Tcp.Effects.{ReadEffect, kept, lost, refused, left, receive_data-effect}
use knot_link_sdk.Tcp.Reentrant.{
  Handler, process_message_by, process_round_by, process_rounds_by, process_buffer_by,
  receive_chunk_by, receive_data_by,
}

-- A callback on the object, as one on the client.
abbrev pub on_host : {S : Type 0} → Callback S → Handler S
on_host callback msg c = let (r, host) = callback msg c.host in (r, record c { host = host })

module _ {S : Type 0} (callback : Callback S) where
  same_message :
      (msg : Bytes) (c : Client S)
      → c.tcp.received_data_callback ≡ some callback
      → process_message_by (on_host callback) msg c ≡ process_message msg c
  unfolding process_message_by process_message handle_received_data
  same_message msg c set = ground (arith, set)

  same_again :
      (r : Result (Unit {0})) (f g : Exec (Client S) (Unit {0})) (c : Client S)
      → f c ≡ g c
      → continue r (λ _. f) c ≡ continue r (λ _. g) c
  same_again (ok _) f g c e = e
  same_again (raised x) f g c e = refl

  module _ (f g : Exec (Client S) (Unit {0}))
      (same : (c : Client S) → c.tcp.received_data_callback ≡ some callback → f c ≡ g c) where
    same_round :
        (s : Scan) (c : Client S)
        → c.tcp.received_data_callback ≡ some callback
        → process_round_by (on_host callback) f s c ≡ process_round g s c
    unfolding process_round_by process_round
    same_round incomplete c set = refl
    same_round bad_magic c set = refl
    same_round (bad_length n) c set = refl
    same_round (message msg rest) c set =
        let d = with_buffer rest c in
        ap (λ p. continue p.0 (λ _. f) p.1) (same_message msg d set)
        ∙ same_again (process_message msg d).0 f g (process_message msg d).1 (
            same (process_message msg d).1
              (ap (λ t. t.received_data_callback) (tcp-process_message msg d) ∙ set))

  same_rounds :
      (n : ℕ) (c : Client S)
      → c.tcp.received_data_callback ≡ some callback
      → process_rounds_by (on_host callback) n c ≡ process_rounds n c
  unfolding process_rounds_by process_rounds
  same_rounds zero c set = refl
  same_rounds (suc n) c set =
      same_round (process_rounds_by (on_host callback) n) (process_rounds n) (same_rounds n)
        (next_message c.tcp.buffer) c set

  same_chunk :
      (event : Recv) (c : Client S)
      → c.tcp.received_data_callback ≡ some callback
      → receive_chunk_by (on_host callback) event c ≡ receive_chunk event c
  unfolding receive_chunk_by receive_chunk process_buffer_by process_buffer
  same_chunk (chunk []) c set = refl
  same_chunk (chunk (b ∷ bs)) c set =
      let d = with_buffer (c.tcp.buffer ++ b ∷ bs) c in
      ap (λ p. continue p.0 (λ _. pure go_on) p.1) (same_rounds (suc (length d.tcp.buffer)) d set)
  same_chunk failure c set = refl
  same_chunk interrupted c set = refl

  effect-set :
      (t t' : TcpClient S)
      → ReadEffect t t'
      → t.received_data_callback ≡ some callback
      → t'.received_data_callback ≡ some callback
  unfolding disconnect cancel_timer
  effect-set t t' (kept b e) set = ap (λ u. u.received_data_callback) e ∙ set
  effect-set t t' (lost b e) set = ap (λ u. u.received_data_callback) e ∙ set
  effect-set t t' (refused b e) set = ap (λ u. u.received_data_callback) e ∙ set
  effect-set t t' (left b e) set = ap (λ u. u.received_data_callback) e ∙ (ground (arith, set))

  state_next :
      (p : Result Flow × Client S) → (continue p.0 (receive_next (receive_data [])) p.1).1 ≡ p.1
  unfolding receive_data receive_next
  state_next (ok go_on, d) = refl
  state_next (ok stop, d) = refl
  state_next (raised x, d) = refl

  -- The state in which one event leaves the client.
  one_event :
      (event : Recv) (c : Client S)
      → c.tcp.connected ≡ true
      → (receive_data (event ∷ []) c).1 ≡ (catch (receive_chunk event) receive_error c).1
  unfolding receive_data
  one_event event c on =
      ap (λ (p : Result (Unit {0}) × Client S). p.1) (if_true _ _ on)
      ∙ state_next (catch (receive_chunk event) receive_error c)

  same_next :
      (p : Result Flow × Client S) (f g : Exec (Client S) (Unit {0}))
      → f p.1 ≡ g p.1
      → continue p.0 (receive_next f) p.1 ≡ continue p.0 (receive_next g) p.1
  unfolding receive_next
  same_next (ok go_on, d) f g e = e
  same_next (ok stop, d) f g e = refl
  same_next (raised x, d) f g e = refl

  -- If the callback is set and works on its object only, `receive_data` of Tcp.Reentrant, whose
  -- callback works on the client with its object, and `receive_data` of Tcp give the same
  -- result, exception or not, and the same client, for any events.
  pub receive_data_by-on_host :
      (events : List Recv) (c : Client S)
      → c.tcp.received_data_callback ≡ some callback
      → receive_data_by (on_host callback) events c ≡ receive_data events c
  unfolding receive_data_by receive_data
  receive_data_by-on_host [] c set = refl
  receive_data_by-on_host (event ∷ events) c set = elim (Bool-cases c.tcp.connected) [
    | inr off ↦ if_false _ _ off ∙ sym (if_false _ _ off)
    | inl on ↦
        let p = catch (receive_chunk event) receive_error c in
        if_true _ _ on
        ∙ ap
            (λ q.
              let (r, d) = handle q.0 receive_error q.1 in
              continue r (receive_next (receive_data_by (on_host callback) events)) d)
            (same_chunk event c set)
        ∙ same_next p (receive_data_by (on_host callback) events) (receive_data events) (
            receive_data_by-on_host events p.1 (
              ap (λ d. d.tcp.received_data_callback) (sym (one_event event c on))
              ∙ effect-set c.tcp _ (receive_data-effect event c) set))
        ∙ sym (if_true _ _ on)
  ]
