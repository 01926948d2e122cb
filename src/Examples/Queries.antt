-- ===== src/Examples/Queries.antt =====
-- OpenSocketQuerier.py: two queries at once.
use mathlib.Core.List.{Mem}
use knot_link_sdk.Base.{◌≡◌, refl, some, List, [], ◌∷◌, codes, arith}
use knot_link_sdk.Exec.{ok}
use knot_link_sdk.Text.Utf8.{decode_replace}
use knot_link_sdk.Roles.Querier.{idle, begin_query, finish_query, internal_data_recv}
use knot_link_sdk.Roles.Querier.Waits.{IsAsking}
use knot_link_sdk.Roles.Querier.Concurrent.{
  calling, waiting, returned, goes, times_out, Queries, Event, first_does, second_does, hears,
  query_step, query_steps, texts_heard,
}
use knot_link_sdk.Roles.Querier.Concurrent.Fresh.{query_steps-heard}
use knot_link_sdk.Roles.Querier.Concurrent.Shared.{
  first_turn, second_turn, turns, query_steps-one_reply,
}

abbrev two_waiting : Queries
two_waiting = record { host = begin_query idle; first = waiting; second = waiting }

two_waiting-IsAsking : IsAsking two_waiting.host
unfolding begin_query
two_waiting-IsAsking = record { asking = refl; in_time = refl }

query_steps-one_reply_example :
    ((query_steps
        (hears (codes "1") ∷ turns (second_turn goes ∷ first_turn times_out ∷ []))
        two_waiting).first
      ≡ returned (ok (some (decode_replace (codes "1")))))
    × ((query_steps
          (hears (codes "1") ∷ turns (second_turn goes ∷ first_turn times_out ∷ []))
          two_waiting).second
        ≡ returned (ok (some (decode_replace (codes "1")))))
query_steps-one_reply_example =
    query_steps-one_reply (codes "1") (second_turn goes ∷ first_turn times_out ∷ []) two_waiting
      refl refl two_waiting-IsAsking (omega arith) (omega arith)

abbrev two_calling : Queries
two_calling = record { host = idle; first = calling; second = calling }

-- The second query begins, and so forgets the reply "1", before the first one has taken it.
abbrev overtaken : List Event
overtaken =
    first_does goes
    ∷ hears (codes "1")
    ∷ second_does goes
    ∷ hears (codes "2")
    ∷ first_does goes
    ∷ first_does goes
    ∷ []

overtaken_end :
    (query_steps (first_does goes ∷ overtaken) two_calling).first
    ≡ returned (ok (some (decode_replace (codes "2"))))
unfolding query_steps query_step begin_query finish_query internal_data_recv
overtaken_end = refl

query_steps-heard_example : Mem (decode_replace (codes "2")) (texts_heard overtaken)
query_steps-heard_example =
    query_steps-heard goes overtaken two_calling (decode_replace (codes "2")) refl overtaken_end
