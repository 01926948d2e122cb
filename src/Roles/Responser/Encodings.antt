-- ===== src/Roles/Responser/Encodings.antt =====
-- OpenSocketResponser.py: the texts in the queue have encodings, whatever has arrived, and what the thread
-- that serves them may raise.
use knot_link_sdk.Base.{
  ℕ, zero, suc, ◌≡◌, refl, ap, sym, ◌∙◌, subst, ◌⊎◌, inl, inr, Option, none, some, List, [], ◌∷◌,
  ◌++◌, All, All-append, Option-cases, Bool-cases, if_true,
}
use knot_link_sdk.Exec.{value_error, Result, ok, raised, Exec, continue, ◌>>◌}
use knot_link_sdk.Text.Utf8.{Text, Bytes, encode, decode, decode_replace}
use knot_link_sdk.Text.Utf8.Scalars.{
  IsScalar, IsEncodable, decode-IsEncodable, decode_replace-IsEncodable, encode-IsEncodable,
}
use knot_link_sdk.Text.Search.{separator, cut}
use knot_link_sdk.Tcp.{TcpClient, Client, Recv, receive_data, send_data}
use knot_link_sdk.Tcp.Hosts.{receive_data-Hosts}
use knot_link_sdk.Tcp.Sending.{Sent, too_long, whole, broken, dead, send_data-Sent, send_data-off}
use knot_link_sdk.Roles.{key_prefix, or_unicode_error, UserFunction}
use knot_link_sdk.Roles.Responser.{
  Queue, Responser, enqueue, enqueue_under, internal_data_recv, send_back, send_response, answer,
  task_done, with_items, serve, process_queue,
}
use knot_link_sdk.Roles.Responser.Answers.{IsBalanced, internal_data_recv-IsBalanced}

-- A request whose text and key have encodings.
abbrev pub IsServable : Text × Text → Type 0
IsServable item = IsEncodable item.0 × IsEncodable item.1

enqueue-IsServable :
    (key : Option Text) (payload bytes : Bytes) (q : Queue)
    → decode bytes ≡ key
    → All IsServable q.items
    → All IsServable (enqueue_under key payload q).items
unfolding enqueue_under enqueue
enqueue-IsServable none payload bytes q e h = h
enqueue-IsServable (some key) [] bytes q e h = h
enqueue-IsServable (some key) (b ∷ payload) bytes q e h =
    All-append IsServable q.items ((decode_replace (b ∷ payload), key) ∷ []) h
      ((decode_replace-IsEncodable (b ∷ payload), decode-IsEncodable bytes key e), tt)

internal_data_recv-IsServable :
    (bytes : Bytes) (q : Queue)
    → All IsServable q.items
    → All IsServable (internal_data_recv bytes q).1.items
unfolding internal_data_recv
internal_data_recv-IsServable bytes q h = elim (Option-cases (cut separator bytes)) [
  | inl no_separator ↦ rw (no_separator, internal_data_recv) h
  | inr ((key, payload), found) ↦
      rw (found, internal_data_recv) (enqueue-IsServable (decode key) payload key q refl h)
]

-- The invariant of the queue.
pub record IsQueue (q : Queue) : Type 0 where
  pub servable : All IsServable q.items
  pub balanced : IsBalanced q

internal_data_recv-IsQueue :
    (bytes : Bytes) (q : Queue) → IsQueue q → IsQueue (internal_data_recv bytes q).1
internal_data_recv-IsQueue bytes q h = record {
  servable = internal_data_recv-IsServable bytes q h.servable;
  balanced = (internal_data_recv-IsBalanced bytes q h.balanced).1;
}

-- If the texts and keys in a responder's queue have encodings in UTF-8 (no surrogate and no
-- number beyond the code points) and as many tasks are unfinished as requests are queued, then
-- the same holds after any events of the reading thread, whatever bytes they bring and whatever
-- exception ends it, with `_internal_data_recv` as the callback.
pub receive_data-IsQueue :
    (events : List Recv) (c : Client Queue)
    → c.tcp.received_data_callback ≡ some internal_data_recv
    → IsQueue c.host
    → IsQueue (receive_data events c).1.host
receive_data-IsQueue events c set h =
    (receive_data-Hosts IsQueue internal_data_recv internal_data_recv-IsQueue events c
      (record { set = set; holds = h })).holds

-- What a call of `sendall` through the client may end with.
abbrev OnlyLong : Result (Unit {0}) → Type 0
OnlyLong r = (r ≡ ok tt) ⊎ (r ≡ raised value_error)

Sent-OnlyLong :
    {S : Type 0} (data_ : Bytes) (t : TcpClient S) (r : Result (Unit {0})) (t' : TcpClient S)
    → Sent data_ t r t'
    → OnlyLong r
Sent-OnlyLong data_ t r t' (too_long _ e _) = inr e
Sent-OnlyLong data_ t r t' (whole _ _ e _) = inl e
Sent-OnlyLong data_ t r t' (broken _ _ _ e _) = inl e
Sent-OnlyLong data_ t r t' (dead _ _ e _) = inl e

send_data-OnlyLong : {S : Type 0} (data_ : Bytes) (t : TcpClient S) → OnlyLong (send_data data_ t).0
send_data-OnlyLong data_ t = elim (Bool-cases t.connected) [
  | inl on ↦ Sent-OnlyLong data_ t _ _ (send_data-Sent data_ t on)
  | inr off ↦ inl (ap (λ p. p.0) (send_data-off data_ t off))
]

send_back-OnlyLong :
    (data_ key : Text) (s : Responser)
    → IsEncodable data_
    → IsEncodable key
    → OnlyLong (send_back data_ key s).0
unfolding send_back
send_back-OnlyLong data_ key s hd hk =
    let (kb, ek) =
      encode-IsEncodable (key_prefix key)
        (All-append IsScalar key separator hk (refl, (refl, (refl, tt)))) in
    let (db, ed) = encode-IsEncodable data_ hd in
    rw (ek, ed) (send_data-OnlyLong (kb ++ db) s.client.tcp)

-- The user's function returns on texts that have encodings, and so does its response, if there is one.
pub record RespondsInText (f : UserFunction (Option Text)) : Type 0 where
  pub responds :
      (s : Text)
      → IsEncodable s
      → (f s ≡ ok none) ⊎ ((r : Text) × (f s ≡ ok (some r)) × IsEncodable r)

-- What an answer leaves as it was.
abbrev SameService : Responser → Responser → Type 0
SameService s s' = (s'.client.host ≡ s.client.host) × (s'.recv_func ≡ s.recv_func)

continue-SameService :
    {A B : Type 0} (r : Result A) (f : A → Exec Responser B) (s : Responser)
    → ((a : A) → SameService s (f a s).1)
    → SameService s (continue r f s).1
continue-SameService (ok a) f s h = h a
continue-SameService (raised e) f s h = (refl, refl)

answer-SameService :
    (f : UserFunction (Option Text)) (payload key : Text) (s : Responser)
    → SameService s (answer (some f) payload key s).1
unfolding answer send_response send_back
answer-SameService f payload key s =
    continue-SameService (f payload) _ s (λ response. responding response)
  where
    responding : (response : Option Text) → SameService s (send_response response key s).1
    responding none = (refl, refl)
    responding (some data_) =
        continue-SameService (or_unicode_error (encode (key_prefix key))) _ s (λ prefix.
          continue-SameService (or_unicode_error (encode data_)) _ s (λ bytes. (refl, refl)))

module _ (f : UserFunction (Option Text)) (text_ : RespondsInText f) where
  answer-OnlyLong :
      (payload key : Text) (s : Responser)
      → IsServable (payload, key)
      → OnlyLong (answer (some f) payload key s).0
  unfolding answer send_response
  answer-OnlyLong payload key s (hp, hk) = elim (text_.responds payload hp) [
    | inl silent ↦ rw silent (inl refl)
    | inr (r, responds, hr) ↦ rw responds (send_back-OnlyLong r key s hr hk)
  ]

  -- After an answer, the thread goes on with the rest or has ended.
  served :
      (rounds : ℕ) (r : Result (Unit {0})) (s : Responser)
      → OnlyLong r
      → OnlyLong (process_queue rounds s).0
      → OnlyLong (continue r (λ _. process_queue rounds) s).0
  served rounds (ok _) s h again = again
  served rounds (raised e) s h again = h

  serve-OnlyLong :
      (rounds : ℕ) (items : List (Text × Text)) (s : Responser)
      → s.recv_func ≡ some f
      → All IsServable items
      → ((t : Responser)
          → t.recv_func ≡ some f
          → All IsServable t.client.host.items
          → OnlyLong (process_queue rounds t).0)
      → s.client.host.items ≡ items
      → OnlyLong ((serve items >> process_queue rounds) s).0
  unfolding serve task_done
  serve-OnlyLong rounds [] s has_f h again e = again s has_f (rw e tt)
  serve-OnlyLong rounds ((payload, key) ∷ items) s has_f (hi, hs) again e =
      let t = with_items items s in
      let p = answer (some f) payload key t in
      let (hosts, funcs) = answer-SameService f payload key t in
      subst
        (λ g.
          let q = answer g payload key t in
          OnlyLong (continue q.0 (λ _. process_queue rounds) (task_done q.1)).0)
        (sym has_f)
        (served rounds p.0 (task_done p.1) (answer-OnlyLong payload key t hi) (
          again (task_done p.1) (funcs ∙ has_f)
            (subst (λ q. All IsServable q.items) (sym hosts) hs)))

  -- If the user's function of a responder returns, on each text that has an encoding in UTF-8,
  -- nothing or a text that has one, and the texts and keys in the queue have encodings, then
  -- any number of rounds of the thread that serves the queue end without an exception, or with
  -- the ValueError of a response that is too long.
  pub process_queue-OnlyLong :
      (rounds : ℕ) (s : Responser)
      → s.recv_func ≡ some f
      → All IsServable s.client.host.items
      → ((process_queue rounds s).0 ≡ ok tt) ⊎ ((process_queue rounds s).0 ≡ raised value_error)
  unfolding process_queue
  process_queue-OnlyLong zero s has_f h = inl refl
  process_queue-OnlyLong (suc rounds) s has_f h = elim (Bool-cases s.client.tcp.connected) [
    | inl on ↦
        subst (λ (p : Result (Unit {0}) × Responser). OnlyLong p.0) (sym (if_true _ _ on))
          (serve-OnlyLong rounds s.client.host.items s has_f h (process_queue-OnlyLong rounds) refl)
    | inr off ↦ rw off (inl refl)
  ]
