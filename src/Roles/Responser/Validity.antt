-- ===== src/Roles/Responser/Validity.antt =====
-- OpenSocketResponser.py: what the thread that serves the queue does keeps the client valid, also where it raises.
use knot_link_sdk.Base.{
  ℕ, zero, suc, Option, none, some, List, [], ◌∷◌, ◌++◌, subst, sym, if_true, if_false, Bool-cases,
  inl, inr,
}
use knot_link_sdk.Exec.{Result, ok, raised, Exec, continue}
use knot_link_sdk.Text.Utf8.{Text, encode}
use knot_link_sdk.Tcp.Invariant.{IsValid, send_data-IsValid}
use knot_link_sdk.Roles.{key_prefix, or_unicode_error, UserFunction}
use knot_link_sdk.Roles.Responser.{
  Responser, send_back, send_response, answer, task_done, with_items, serve, process_queue,
}

Valid : Responser → Type 0
Valid s = IsValid s.client.tcp

continue-Valid :
    {A B : Type 0} (r : Result A) (f : A → Exec Responser B) (s : Responser)
    → Valid s
    → ((a : A) → Valid (f a s).1)
    → Valid (continue r f s).1
continue-Valid (ok a) f s v h = h a
continue-Valid (raised e) f s v h = v

send_back-Valid : (data_ key : Text) (s : Responser) → Valid s → Valid (send_back data_ key s).1
unfolding send_back Valid
send_back-Valid data_ key s v =
    continue-Valid (or_unicode_error (encode (key_prefix key))) _ s v (λ prefix.
      continue-Valid (or_unicode_error (encode data_)) _ s v
        (λ bytes. send_data-IsValid (prefix ++ bytes) s.client.tcp v))

send_response-Valid :
    (response : Option Text) (key : Text) (s : Responser)
    → Valid s
    → Valid (send_response response key s).1
unfolding send_response
send_response-Valid none key s v = v
send_response-Valid (some data_) key s v = send_back-Valid data_ key s v

answer-Valid :
    (f : Option (UserFunction (Option Text))) (payload key : Text) (s : Responser)
    → Valid s
    → Valid (answer f payload key s).1
unfolding answer
answer-Valid none payload key s v = v
answer-Valid (some f) payload key s v =
    continue-Valid (f payload) (λ response. send_response response key) s v
      (λ response. send_response-Valid response key s v)

serve-Valid : (items : List (Text × Text)) (s : Responser) → Valid s → Valid (serve items s).1
unfolding serve task_done Valid
serve-Valid [] s v = v
serve-Valid ((payload, key) ∷ items) s v =
    answer-Valid s.recv_func payload key (with_items items s) v

served-Valid :
    (rounds : ℕ) (r : Result (Unit {0})) (s : Responser)
    → Valid s
    → ((t : Responser) → Valid t → Valid (process_queue rounds t).1)
    → Valid (continue r (λ _. process_queue rounds) s).1
served-Valid rounds (ok _) s v again = again s v
served-Valid rounds (raised e) s v again = v

-- The client stays valid.
pub process_queue-IsValid :
    (rounds : ℕ) (s : Responser)
    → IsValid s.client.tcp
    → IsValid (process_queue rounds s).1.client.tcp
unfolding process_queue Valid
process_queue-IsValid zero s v = v
process_queue-IsValid (suc rounds) s v = elim (Bool-cases s.client.tcp.connected) [
  | inl on ↦
      subst (λ (p : Result (Unit {0}) × Responser). Valid p.1) (sym (if_true _ _ on))
        (served-Valid rounds (serve s.client.host.items s).0 (serve s.client.host.items s).1
          (serve-Valid s.client.host.items s v) (process_queue-IsValid rounds))
  | inr off ↦ subst (λ (p : Result (Unit {0}) × Responser). Valid p.1) (sym (if_false _ _ off)) v
]
