-- ===== src/Roles/Querier/Concurrent/Fresh.antt =====
-- What a query returns is a text that arrived after it had begun, whatever another query does meanwhile.
use mathlib.Core.List.{Mem, mem-cons_self, mem-cons_of_mem}
use knot_link_sdk.Base.{
  Bool, ◌≡◌, subst, sym, true, false, ◌&&◌, not, Option, none, some, List, [], ◌∷◌, All,
  if◌then◌else◌, Bool-cases, inl, inr,
}
use knot_link_sdk.Exec.{Result, ok, raised}
use knot_link_sdk.Text.Utf8.{Text, Bytes, decode_replace}
use knot_link_sdk.Roles.{UserFunction}
use knot_link_sdk.Roles.Querier.{
  Waiting, begin_query, finish_query, internal_data_recv, call_back, wake,
}
use knot_link_sdk.Roles.Querier.Concurrent.{
  Stage, calling, sending, waiting, woken, returned, Go, goes, times_out, fails, query_at, awaken,
  Queries, Event, first_does, second_does, hears, somebody_leaves, query_step, query_steps,
  texts_heard,
}

module _ (P : Text → Type 0) where
  Known : Option Text → Type 0
  Known none = Unit
  Known (some text) = P text

  Gives : Result (Option Text) → Type 0
  Gives (ok result) = Known result
  Gives (raised e) = Unit

  -- What holds of a query that has begun.
  Begun : Stage → Waiting → Type 0
  Begun (returned r) w = Gives r
  Begun calling w = Unit
  Begun sending w = Known w.query_result
  Begun waiting w = Known w.query_result
  Begun (woken success) w = Known w.query_result

  -- The result that the fields hold, and the query.
  record IsFresh (s : Stage) (w : Waiting) : Type 0 where
    known : Known w.query_result
    begun : Begun s w

  -- A query keeps what holds as long as the result is known.
  Begun-Known : (s : Stage) (w w' : Waiting) → Begun s w → Known w'.query_result → Begun s w'
  unfolding Begun
  Begun-Known calling w w' h k = tt
  Begun-Known sending w w' h k = k
  Begun-Known waiting w w' h k = k
  Begun-Known (woken success) w w' h k = k
  Begun-Known (returned r) w w' h k = h

  Begun-awaken : (event : Bool) (s : Stage) (w : Waiting) → Begun s w → Begun (awaken event s) w
  unfolding Begun
  Begun-awaken true calling w h = h
  Begun-awaken true sending w h = h
  Begun-awaken true waiting w h = h
  Begun-awaken true (woken success) w h = h
  Begun-awaken true (returned r) w h = h
  Begun-awaken false s w h = h

  query_at-Known :
      (go : Go) (s : Stage) (w : Waiting)
      → Known w.query_result
      → Known (query_at go s w).1.query_result
  unfolding begin_query finish_query Known
  query_at-Known go calling w k = tt
  query_at-Known go sending w k = k
  query_at-Known go waiting w k = k
  query_at-Known go (woken true) w k = k
  query_at-Known go (woken false) w k = k
  query_at-Known go (returned r) w k = k

  Begun-wait :
      (event : Bool) (w : Waiting)
      → Known w.query_result
      → Begun (if event then woken true else waiting) w
  unfolding Begun
  Begun-wait true w k = k
  Begun-wait false w k = k

  query_at-Begun :
      (go : Go) (s : Stage) (w : Waiting)
      → IsFresh s w
      → Begun (query_at go s w).0 (query_at go s w).1
  unfolding begin_query finish_query Known Begun Gives
  query_at-Begun go calling w h = tt
  query_at-Begun goes sending w h = h.known
  query_at-Begun times_out sending w h = h.known
  query_at-Begun (fails e) sending w h = tt
  query_at-Begun goes waiting w h = Begun-wait w.query_event w h.known
  query_at-Begun times_out waiting w h = h.known
  query_at-Begun (fails x) waiting w h = Begun-wait w.query_event w h.known
  query_at-Begun go (woken true) w h = h.known
  query_at-Begun go (woken false) w h = tt
  query_at-Begun go (returned r) w h = h.begun

  call_back-Known :
      (f : Option (UserFunction (Unit {0}))) (text : Text) (w : Waiting)
      → Known w.query_result
      → Known (call_back f text w).1.query_result
  unfolding call_back
  call_back-Known none text w k = k
  call_back-Known (some f) text w k = k

  hears-Known :
      (bytes : Bytes) (w : Waiting)
      → P (decode_replace bytes)
      → Known w.query_result
      → Known (internal_data_recv bytes w).1.query_result
  unfolding internal_data_recv Known
  hears-Known bytes w p k = elim (Bool-cases (w.is_querying && not w.timeout_occurred)) [
    | inl e ↦ rw e p
    | inr e ↦ rw e (call_back-Known w.callback (decode_replace bytes) w k)
  ]

  query_step-IsFresh :
      (event : Event) (q : Queries)
      → All P (texts_heard (event ∷ []))
      → IsFresh q.first q.host
      → IsFresh (query_step event q).first (query_step event q).host
  unfolding query_step wake
  query_step-IsFresh (first_does go) q p h = record {
    known = query_at-Known go q.first q.host h.known;
    begun = query_at-Begun go q.first q.host h;
  }
  query_step-IsFresh (second_does go) q p h =
      let k = query_at-Known go q.second q.host h.known in
      record { known = k; begun = Begun-Known q.first q.host _ h.begun k }
  query_step-IsFresh (hears bytes) q p h =
      let w = (internal_data_recv bytes q.host).1 in
      let k = hears-Known bytes q.host p.0 h.known in
      record {
        known = k;
        begun = Begun-awaken w.query_event q.first w (Begun-Known q.first q.host w h.begun k);
      }
  query_step-IsFresh somebody_leaves q p h = record {
    known = h.known;
    begun =
        Begun-awaken true q.first (wake q.host)
          (Begun-Known q.first q.host (wake q.host) h.begun h.known);
  }

  query_steps-IsFresh :
      (events : List Event) (q : Queries)
      → All P (texts_heard events)
      → IsFresh q.first q.host
      → IsFresh (query_steps events q).first (query_steps events q).host
  unfolding query_steps
  query_steps-IsFresh [] q p h = h
  query_steps-IsFresh (first_does go ∷ events) q p h =
      query_steps-IsFresh events _ p (query_step-IsFresh (first_does go) q tt h)
  query_steps-IsFresh (second_does go ∷ events) q p h =
      query_steps-IsFresh events _ p (query_step-IsFresh (second_does go) q tt h)
  query_steps-IsFresh (hears bytes ∷ events) q (p, ps) h =
      query_steps-IsFresh events _ ps (query_step-IsFresh (hears bytes) q (p, tt) h)
  query_steps-IsFresh (somebody_leaves ∷ events) q p h =
      query_steps-IsFresh events _ p (query_step-IsFresh somebody_leaves q tt h)

  begin-IsFresh :
      (go : Go) (q : Queries)
      → q.first ≡ calling
      → IsFresh (query_step (first_does go) q).first (query_step (first_does go) q).host
  unfolding query_step begin_query Known Begun
  begin-IsFresh go q e =
      subst (λ s. IsFresh (query_at go s q.host).0 (query_at go s q.host).1) (sym e)
        (record { known = tt; begun = tt })

All-mem :
    (texts all : List Text)
    → ((text : Text) → Mem text texts → Mem text all)
    → All (λ text. Mem text all) texts
All-mem [] all h = tt
All-mem (t ∷ texts) all h =
    (h t mem-cons_self, All-mem texts all (λ text m. h text (mem-cons_of_mem t m)))

-- A query that begins and returns a text, while another thread may query too, messages arrive,
-- waits time out, sendings raise and somebody calls `disconnect`, in any order, returns a text
-- that has arrived since it began.
pub query_steps-heard :
    (go : Go) (events : List Event) (q : Queries) (text : Text)
    → q.first ≡ calling
    → (query_steps (first_does go ∷ events) q).first ≡ returned (ok (some text))
    → Mem text (texts_heard events)
unfolding query_steps Begun Gives Known
query_steps-heard go events q text e end =
    let P : Text → Type 0 = λ t. Mem t (texts_heard events) in
    let fresh =
      query_steps-IsFresh P events (query_step (first_does go) q)
        (All-mem (texts_heard events) (texts_heard events) (λ t m. m)) (begin-IsFresh P go q e) in
    subst (λ s. Begun P s (query_steps events (query_step (first_does go) q)).host) end fresh.begun
