-- ===== src/Roles/Querier/Concurrent/Shared.antt =====
-- Two queries that wait get one and the same reply.
use knot_link_sdk.Base.{
  ℕ, ◌+◌, ◌-◌, subst, zero, suc, ◌≡◌, ◌≤◌, refl, ap, ◌∙◌, sym, true, some, List, [], ◌∷◌, arith,
}
use knot_link_sdk.Exec.{ok}
use knot_link_sdk.Text.Utf8.{Text, Bytes, decode_replace}
use knot_link_sdk.Roles.Querier.{Waiting, finish_query, internal_data_recv}
use knot_link_sdk.Roles.Querier.Waits.{IsAsking}
use knot_link_sdk.Roles.Querier.Concurrent.{
  Stage, waiting, woken, returned, Go, query_at, awaken, Queries, Event, first_does, second_does,
  hears, query_step, query_steps,
}

-- Which of the two threads goes on, and how.
pub data Turn : Type 0 where
  first_turn second_turn : Go → Turn

abbrev pub turn : Turn → Event
turn (first_turn go) = first_does go
turn (second_turn go) = second_does go

abbrev pub turns : List Turn → List Event
turns [] = []
turns (t ∷ ts) = turn t ∷ turns ts

abbrev pub first_turns : List Turn → ℕ
first_turns [] = 0
first_turns (first_turn go ∷ ts) = suc (first_turns ts)
first_turns (second_turn go ∷ ts) = first_turns ts

abbrev pub second_turns : List Turn → ℕ
second_turns [] = 0
second_turns (first_turn go ∷ ts) = second_turns ts
second_turns (second_turn go ∷ ts) = suc (second_turns ts)

-- Where a query that has been woken is after so many turns.
abbrev stage_at : ℕ → Text → Stage
stage_at zero text = woken true
stage_at (suc n) text = returned (ok (some text))

-- The fields once the reply is there.
record IsAnswered (text : Text) (w : Waiting) : Type 0 where
  event : w.query_event ≡ true
  result : w.query_result ≡ some text

-- A turn brings a thread one stage further and keeps the reply.
record Goes (n : ℕ) (text : Text) (after : Stage × Waiting) : Type 0 where
  stage : after.0 ≡ stage_at (suc n) text
  answered : IsAnswered text after.1

query_at-Goes :
    (n : ℕ) (go : Go) (text : Text) (w : Waiting)
    → IsAnswered text w
    → Goes n text (query_at go (stage_at n text) w)
unfolding finish_query
query_at-Goes zero go text w h = record {
  stage = ap (λ r. returned (ok r)) h.result;
  answered = record { event = h.event; result = h.result };
}
query_at-Goes (suc n) go text w h = record { stage = refl; answered = h }

record IsAt (n m : ℕ) (text : Text) (q : Queries) : Type 0 where
  first : q.first ≡ stage_at n text
  second : q.second ≡ stage_at m text
  answered : IsAnswered text q.host

first-IsAt :
    (go : Go) (n m : ℕ) (text : Text) (q : Queries)
    → IsAt n m text q
    → IsAt (suc n) m text (query_step (first_does go) q)
unfolding query_step
first-IsAt go n m text q h =
    let g = query_at-Goes n go text q.host h.answered in
    record {
      first = ap (λ s. (query_at go s q.host).0) h.first ∙ g.stage;
      second = h.second;
      answered = subst (λ s. IsAnswered text (query_at go s q.host).1) (sym h.first) g.answered;
    }

second-IsAt :
    (go : Go) (n m : ℕ) (text : Text) (q : Queries)
    → IsAt n m text q
    → IsAt n (suc m) text (query_step (second_does go) q)
unfolding query_step
second-IsAt go n m text q h =
    let g = query_at-Goes m go text q.host h.answered in
    record {
      first = h.first;
      second = ap (λ s. (query_at go s q.host).0) h.second ∙ g.stage;
      answered = subst (λ s. IsAnswered text (query_at go s q.host).1) (sym h.second) g.answered;
    }

turns-IsAt :
    (ts : List Turn) (n m a b : ℕ) (text : Text) (q : Queries)
    → n + first_turns ts ≡ suc a
    → m + second_turns ts ≡ suc b
    → IsAt n m text q
    → IsAt (suc a) (suc b) text (query_steps (turns ts) q)
unfolding query_steps
turns-IsAt [] n m a b text q e f h =
    subst (λ k. IsAt k (suc b) text q) (omega (arith, e) ∙ e)
      (subst (λ k. IsAt n k text q) (omega (arith, f) ∙ f) h)
turns-IsAt (first_turn go ∷ ts) n m a b text q e f h =
    turns-IsAt ts (suc n) m a b text (query_step (first_does go) q) (omega (arith, e)) f
      (first-IsAt go n m text q h)
turns-IsAt (second_turn go ∷ ts) n m a b text q e f h =
    turns-IsAt ts n (suc m) a b text (query_step (second_does go) q) e (omega (arith, f))
      (second-IsAt go n m text q h)

hears-IsAnswered :
    (bytes : Bytes) (w : Waiting)
    → IsAsking w
    → IsAnswered (decode_replace bytes) (internal_data_recv bytes w).1
unfolding internal_data_recv
hears-IsAnswered bytes w h = rw (h.asking, h.in_time) (record { event = refl; result = refl })

-- If two threads wait in `query`, no wait having timed out, when a message arrives, and no other
-- arrives until each of them has gone on at least once, in any order, then both return the text
-- of that one message.
pub query_steps-one_reply :
    (bytes : Bytes) (ts : List Turn) (q : Queries)
    → q.first ≡ waiting
    → q.second ≡ waiting
    → IsAsking q.host
    → 1 ≤ first_turns ts
    → 1 ≤ second_turns ts
    → ((query_steps (hears bytes ∷ turns ts) q).first ≡ returned (ok (some (decode_replace bytes))))
      × ((query_steps (hears bytes ∷ turns ts) q).second
          ≡ returned (ok (some (decode_replace bytes))))
unfolding query_steps query_step
query_steps-one_reply bytes ts q e f h low low' =
    let text = decode_replace bytes in
    let answered = hears-IsAnswered bytes q.host h in
    let woken_ : IsAt 0 0 text (query_step (hears bytes) q) = record {
      first =
          ap (λ s. awaken (internal_data_recv bytes q.host).1.query_event s) e
          ∙ ap (λ b. awaken b waiting) answered.event;
      second =
          ap (λ s. awaken (internal_data_recv bytes q.host).1.query_event s) f
          ∙ ap (λ b. awaken b waiting) answered.event;
      answered = answered;
    } in
    let end =
      turns-IsAt ts 0 0 (first_turns ts - 1) (second_turns ts - 1) text (query_step (hears bytes) q)
        (omega arith) (omega arith) woken_ in
    (end.first, end.second)
