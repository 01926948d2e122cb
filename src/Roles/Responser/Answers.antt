-- ===== src/Roles/Responser/Answers.antt =====
-- Which requests reach the queue, and how the thread takes them off it.
use knot_link_sdk.Base.{
  ℕ, zero, suc, true, Option, none, some, List, [], ◌∷◌, ◌++◌, ◌≡◌, ◌≢◌, refl, ap, sym, ◌∙◌, subst,
  arith, length, length-append, Option-cases, inl, inr, Bool-cases, if_true,
}
use knot_link_sdk.Exec.{Exc, Result, ok, raised, Exec, continue, ◌>>◌}
use knot_link_sdk.Text.Utf8.{Text, Bytes, encode, encode_point, decode, decode_replace}
use knot_link_sdk.Text.Utf8.RoundTrip.{decode-encode}
use knot_link_sdk.Text.Utf8.Append.{encode-Lacks, encode-append}
use knot_link_sdk.Text.Search.{separator, cut}
use knot_link_sdk.Text.Search.Laws.{Lacks, cut-append}
use knot_link_sdk.Tcp.{send_data}
use knot_link_sdk.Roles.{key_prefix, or_unicode_error, UserFunction}
use knot_link_sdk.Roles.Responser.{
  Queue, Responser, on_responser, put, enqueue, enqueue_under, internal_data_recv, send_back,
  send_response, answer, task_done, with_items, serve, process_queue,
}

enqueue-some :
    (payload : Bytes) (key : Text) (q : Queue)
    → payload ≢ []
    → enqueue payload key q ≡ put (decode_replace payload, key) q
unfolding enqueue
enqueue-some [] key q h = absurd (h refl)
enqueue-some (b ∷ payload) key q h = refl

internal_data_recv-found :
    (bytes key payload : Bytes) (q : Queue)
    → cut separator bytes ≡ some (key, payload)
    → internal_data_recv bytes q ≡ (ok tt, enqueue_under (decode key) payload q)
unfolding internal_data_recv
internal_data_recv-found bytes key payload q found = rw (found, internal_data_recv) refl

internal_data_recv-none :
    (bytes : Bytes) (q : Queue)
    → cut separator bytes ≡ none
    → internal_data_recv bytes q ≡ (ok tt, q)
unfolding internal_data_recv
internal_data_recv-none bytes q found = rw (found, internal_data_recv) refl

-- A message made of the encoding of a key without `&`, the separator `&*&` and the encoding of a
-- text, which is not empty, puts that text and that key at the end of the queue.
pub internal_data_recv-request :
    (key s : Text) (kb sb : Bytes) (q : Queue)
    → encode key ≡ some kb
    → encode s ≡ some sb
    → Lacks b'&' key
    → sb ≢ []
    → internal_data_recv (kb ++ (separator ++ sb)) q ≡ (ok tt, put (s, key) q)
unfolding enqueue_under
internal_data_recv-request key s kb sb q ek es lacks some_payload =
    internal_data_recv-found (kb ++ (separator ++ sb)) kb sb q
      (cut-append b'&' (b'*' ∷ b'&' ∷ []) kb sb (encode-Lacks b'&' key kb refl ek lacks))
    ∙ ap (λ k. (ok tt, enqueue_under k sb q)) (decode-encode key kb ek).0
    ∙ ap (λ q'. (ok tt, q')) (enqueue-some sb key q some_payload)
    ∙ ap (λ text. (ok tt, put (text, key) q)) (decode-encode s sb es).1

-- The callback does not raise.
pub internal_data_recv-ok : (bytes : Bytes) (q : Queue) → (internal_data_recv bytes q).0 ≡ ok tt
internal_data_recv-ok bytes q = elim (Option-cases (cut separator bytes)) [
  | inl no_separator ↦ rw (internal_data_recv-none bytes q no_separator) refl
  | inr ((key, payload), found) ↦ rw (internal_data_recv-found bytes key payload q found) refl
]

-- The invariant of the queue: `task_done` is outstanding once for each item.
unfoldable pub IsBalanced : Queue → Type 0
IsBalanced q = q.unfinished ≡ length q.items

put-IsBalanced : (item : Text × Text) (q : Queue) → IsBalanced q → IsBalanced (put item q)
unfolding IsBalanced
put-IsBalanced item q h = omega (arith, h, length-append q.items (item ∷ []))

enqueue-IsBalanced :
    (payload : Bytes) (key : Option Text) (q : Queue)
    → IsBalanced q
    → IsBalanced (enqueue_under key payload q)
unfolding enqueue enqueue_under
enqueue-IsBalanced payload none q h = h
enqueue-IsBalanced [] (some key) q h = h
enqueue-IsBalanced (b ∷ payload) (some key) q h =
    put-IsBalanced (decode_replace (b ∷ payload), key) q h

-- On any bytes the callback of the responder returns, and keeps the count of unfinished tasks
-- equal to the number of items in the queue.
pub internal_data_recv-IsBalanced :
    (bytes : Bytes) (q : Queue)
    → IsBalanced q
    → ((internal_data_recv bytes q).0 ≡ ok tt) × IsBalanced (internal_data_recv bytes q).1
internal_data_recv-IsBalanced bytes q h = elim (Option-cases (cut separator bytes)) [
  | inl no_separator ↦ rw (internal_data_recv-none bytes q no_separator) (refl, h)
  | inr ((key, payload), found) ↦
      rw (internal_data_recv-found bytes key payload q found)
        (refl, enqueue-IsBalanced payload (decode key) q h)
]

continue-host :
    {A B : Type 0} (r : Result A) (f : A → Exec Responser B) (s : Responser)
    → ((a : A) (t : Responser) → (f a t).1.client.host ≡ t.client.host)
    → (continue r f s).1.client.host ≡ s.client.host
continue-host (ok a) f s h = h a s
continue-host (raised e) f s h = refl

send_back-host :
    (data_ key : Text) (s : Responser) → (send_back data_ key s).1.client.host ≡ s.client.host
unfolding send_back
send_back-host data_ key s =
    continue-host (or_unicode_error (encode (key_prefix key)))
      (λ prefix t.
        continue (or_unicode_error (encode data_))
          (λ bytes. on_responser (send_data (prefix ++ bytes))) t)
      s
      (λ prefix t.
        continue-host (or_unicode_error (encode data_))
          (λ bytes. on_responser (send_data (prefix ++ bytes))) t (λ bytes u. refl))

send_response-host :
    (response : Option Text) (key : Text) (s : Responser)
    → (send_response response key s).1.client.host ≡ s.client.host
unfolding send_response
send_response-host none key s = refl
send_response-host (some data_) key s = send_back-host data_ key s

answer-host :
    (f : Option (UserFunction (Option Text))) (payload key : Text) (s : Responser)
    → (answer f payload key s).1.client.host ≡ s.client.host
unfolding answer
answer-host none payload key s = refl
answer-host (some f) payload key s =
    continue-host (f payload) (λ response. send_response response key) s
      (λ response t. send_response-host response key t)

serve-IsBalanced :
    (items : List (Text × Text)) (s : Responser)
    → s.client.host.items ≡ items
    → IsBalanced s.client.host
    → IsBalanced (serve items s).1.client.host
unfolding serve IsBalanced task_done
serve-IsBalanced [] s e h = h
serve-IsBalanced ((payload, key) ∷ items) s e h =
    omega (arith, h, ap length e, ap (λ q. q.unfinished) host, ap (λ q. length q.items) host)
  where
    host :
        (answer s.recv_func payload key (with_items items s)).1.client.host
        ≡ record s.client.host { items = items }
    host = answer-host s.recv_func payload key (with_items items s)

carry_on :
    (r : Result (Unit {0})) (again : Exec Responser (Unit {0})) (t : Responser)
    → IsBalanced t.client.host
    → ((u : Responser) → IsBalanced u.client.host → IsBalanced (again u).1.client.host)
    → IsBalanced (continue r (λ _. again) t).1.client.host
carry_on (ok _) again t h keep = keep t h
carry_on (raised e) again t h keep = h

-- Any number of rounds of the responder's thread keep the count of unfinished tasks equal to the
-- number of items in the queue, also when the user's function or the sending raises.
pub process_queue-IsBalanced :
    (rounds : ℕ) (s : Responser)
    → IsBalanced s.client.host
    → IsBalanced (process_queue rounds s).1.client.host
unfolding process_queue
process_queue-IsBalanced zero s h = h
process_queue-IsBalanced (suc rounds) s h = elim (Bool-cases s.client.tcp.connected) [
  | inl on ↦
      subst (λ r. IsBalanced r.1.client.host)
        (sym (if_true ((serve s.client.host.items >> process_queue rounds) s) (ok tt, s) on))
        (carry_on (serve s.client.host.items s).0 (process_queue rounds)
          (serve s.client.host.items s).1 (serve-IsBalanced s.client.host.items s refl h)
          (process_queue-IsBalanced rounds))
  | inr off ↦ rw off h
]

-- On a connected responder with a request at the head of its queue, an exception of the user's
-- function on it ends the thread with that exception: the request has left the queue and counts
-- as done, and the later ones are not served.
pub process_queue-raised :
    (rounds : ℕ) (f : UserFunction (Option Text)) (payload key : Text) (items : List (Text × Text))
    (e : Exc) (s : Responser)
    → s.client.tcp.connected ≡ true
    → s.recv_func ≡ some f
    → s.client.host.items ≡ (payload, key) ∷ items
    → f payload ≡ raised e
    → process_queue (suc rounds) s ≡ (raised e, task_done (with_items items s))
unfolding process_queue serve answer
process_queue-raised rounds f payload key items e s on has_f queue fails =
    rw (on, queue, has_f, fails) refl

encode-separator : encode separator ≡ some separator
unfolding encode encode_point
encode-separator = refl

-- If the user's function returns a response, and key and response have encodings, answering sends
-- one message: the encoding of the key, the separator, and the encoding of the response.
pub answer-sends :
    (f : UserFunction (Option Text)) (payload key response : Text) (kb rb : Bytes) (s : Responser)
    → f payload ≡ ok (some response)
    → encode key ≡ some kb
    → encode response ≡ some rb
    → answer (some f) payload key s ≡ on_responser (send_data ((kb ++ separator) ++ rb)) s
unfolding answer send_response send_back
answer-sends f payload key response kb rb s returns ek er =
    rw (returns, encode-append key separator kb separator ek encode-separator, er) refl
