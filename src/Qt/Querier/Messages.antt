-- ===== src/Qt/Querier/Messages.antt =====
-- OpenSocketQuerier.py of the PyQt variant: what messages do to the slots of a querier and to its loop.
use knot_link_sdk.Base.{
  ◌≡◌, refl, ap, sym, ◌∙◌, inl, inr, Bool, true, false, Option, none, some, List, [], ◌∷◌, ◌++◌,
  append_assoc, seq_eq, if_true, if_false, if◌then◌else◌, Bool-cases, Option-cases,
}
use knot_link_sdk.Exec.{ok}
use knot_link_sdk.Text.Utf8.{Text, Bytes, decode}
use knot_link_sdk.Wire.{heartbeat_response}
use knot_link_sdk.Tcp.Frames.{consumed}
use knot_link_sdk.Qt.Querier.{
  Output, data_back_a, data_back, Loop, Listening, Outcome, returns, aborts, blocks, emit_text,
  data_recv, keep_result, on_data_received, told, tell, run_slot, on_message, quits, result_of,
}

-- The querier of a program that runs.
abbrev pub listening : Bool → List Output → Option Loop → Listening
listening lock outputs loop = record {
  lock = lock;
  outputs = outputs;
  loop = loop;
  aborted = false;
}

abbrev pub ended : Text → Option Loop
ended s = some (record { result = s; quit = true })

abbrev pub opened : Option Loop
opened = some (record { result = []; quit = false })

-- The slots, by what decoding gives.
abbrev on_decoded : Option Text → Bytes → Listening → Listening
on_decoded d b w =
    run_slot (λ v. keep_result v.loop d v)
      (run_slot (λ v. if v.lock then (ok tt, v) else emit_text d (tell (data_back_a b) v)) w)

on_message_lem :
    (b : Bytes) (w : Listening) (d : Option Text) → decode b ≡ d → on_message b w ≡ on_decoded d b w
unfolding on_message data_recv on_data_received
on_message_lem b w d e = ap (λ x. on_decoded x b w) e

pub on_message_locked :
    (b : Bytes) (s : Text) (out : List Output) (l : Loop)
    → decode b ≡ some s
    → on_message b (listening true out (some l)) ≡ listening false out (ended s)
unfolding emit_text keep_result
on_message_locked b s out l e = on_message_lem b (listening true out (some l)) (some s) e

pub on_message_unlocked :
    (b : Bytes) (s : Text) (out : List Output) (l : Loop)
    → decode b ≡ some s
    → on_message b (listening false out (some l))
      ≡ listening false (out ++ (data_back_a b ∷ data_back s ∷ [])) (ended s)
unfolding emit_text keep_result
on_message_unlocked b s out l e =
    on_message_lem b (listening false out (some l)) (some s) e
    ∙ ap (λ o. listening false o (ended s))
        (append_assoc out (data_back_a b ∷ []) (data_back s ∷ []))

-- A message that is no text ends the program, in whichever slot decodes it first.
on_message_bad :
    (b : Bytes) (lock : Bool) (out : List Output) (l : Loop)
    → decode b ≡ none
    → (on_message b (listening lock out (some l))).aborted ≡ true
unfolding emit_text keep_result
on_message_bad b true out l e =
    ap (λ w. w.aborted) (on_message_lem b (listening true out (some l)) none e)
on_message_bad b false out l e =
    ap (λ w. w.aborted) (on_message_lem b (listening false out (some l)) none e)

abbrev pub decided : Option Text → (Text → Outcome) → Outcome
decided none next = aborts
decided (some s) next = next s

-- What the messages of one event make of a `query_l` that would end in `so_far` without them: the program is
-- aborted at the first one that is no text, and else the last one is returned.
abbrev pub verdict : Outcome → List Bytes → Outcome
verdict so_far [] = so_far
verdict so_far (b ∷ msgs) =
    if seq_eq b heartbeat_response
    then verdict so_far msgs
    else decided (decode b) (λ s. verdict (returns s) msgs)

-- The same, from the state.
abbrev pub outcome_of : Listening → Outcome
outcome_of w =
    if w.aborted then aborts else (if quits w.loop then returns (result_of w.loop) else blocks)

aborted-on_message : (b : Bytes) (w : Listening) → w.aborted ≡ true → on_message b w ≡ w
unfolding on_message
aborted-on_message b w e =
    ap (run_slot (on_data_received b)) (if_true w (told (data_recv b w)) e)
    ∙ if_true w (told (on_data_received b w)) e

still_aborted :
    (msgs : List Bytes) (w : Listening)
    → w.aborted ≡ true
    → (consumed on_message msgs w).aborted ≡ true
still_aborted [] w e = e
still_aborted (b ∷ msgs) w e = elim (Bool-cases (seq_eq b heartbeat_response)) [
  | inl beat ↦
      ap (λ v. (consumed on_message msgs v).aborted) (if_true w (on_message b w) beat)
      ∙ still_aborted msgs w e
  | inr other ↦
      ap (λ v. (consumed on_message msgs v).aborted)
        (if_false w (on_message b w) other ∙ aborted-on_message b w e)
      ∙ still_aborted msgs w e
]

on_message_text :
    (b : Bytes) (s : Text) (lock : Bool) (out : List Output) (l : Loop)
    → decode b ≡ some s
    → (out' : List Output) × (on_message b (listening lock out (some l))
        ≡ listening false out' (ended s))
on_message_text b s true out l e = (out, on_message_locked b s out l e)
on_message_text b s false out l e =
    (out ++ (data_back_a b ∷ data_back s ∷ []), on_message_unlocked b s out l e)

outcome_of-aborted : (w : Listening) → w.aborted ≡ true → outcome_of w ≡ aborts
outcome_of-aborted w e =
    if_true aborts (if quits w.loop then returns (result_of w.loop) else blocks) e

pub outcome_of-consumed :
    (msgs : List Bytes) (lock : Bool) (out : List Output) (l : Loop)
    → outcome_of (consumed on_message msgs (listening lock out (some l)))
      ≡ verdict (outcome_of (listening lock out (some l))) msgs
outcome_of-consumed [] lock out l = refl
outcome_of-consumed (b ∷ msgs) lock out l =
    let w = listening lock out (some l) in
    elim (Bool-cases (seq_eq b heartbeat_response)) [
      | inl beat ↦
          ap (λ v. outcome_of (consumed on_message msgs v)) (if_true w (on_message b w) beat)
          ∙ outcome_of-consumed msgs lock out l
          ∙ sym (if_true _ _ beat)
      | inr other ↦
          ap (λ v. outcome_of (consumed on_message msgs v)) (if_false w (on_message b w) other)
          ∙ elim (Option-cases (decode b)) [
            | inl bad ↦
                outcome_of-aborted (consumed on_message msgs (on_message b w))
                  (still_aborted msgs (on_message b w) (on_message_bad b lock out l bad))
                ∙ ap (λ d. decided d (λ s. verdict (returns s) msgs)) (sym bad)
            | inr (s, good) ↦
                let (out', same) = on_message_text b s lock out l good in
                ap (λ v. outcome_of (consumed on_message msgs v)) same
                ∙ outcome_of-consumed msgs false out' (record { result = s; quit = true })
                ∙ ap (λ d. decided d (λ t. verdict (returns t) msgs)) (sym good)
          ]
          ∙ sym (if_false _ _ other)
    ]
