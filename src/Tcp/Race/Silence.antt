-- ===== src/Tcp/Race/Silence.antt =====
-- What is left to happen after `disconnect` has marked the client as not connected.
use knot_link_sdk.Base.{
  ℕ, suc, ◌+◌, ◌≤◌, true, ◌≡◌, refl, ap, ◌∙◌, List, [], ◌∷◌, arith, length, inl, inr, ◌⊎◌,
}
use knot_link_sdk.Tcp.Race.{
  Beat, fired, checking, writing, restarting, assigning, marking_daemon, starting, resting, broken,
  Race, beat_at, leave_at, beat_step, leave_step, Next, beats_on, leaves_on, next, race,
}
use knot_link_sdk.Tcp.Race.Orderly.{next-IsOrderly}
use knot_link_sdk.Tcp.Race.Heartbeats.{IsOrderly, is_marked}
use knot_link_sdk.Tcp.Race.Winding.{pending, steps_of, rank, beat-Winds, leave-Keeps, leave-beat}

next-pending :
    (n : Next) (r : Race)
    → IsOrderly r
    → is_marked r.leave ≡ true
    → (is_marked (next n r).leave ≡ true)
      × ((next n r).beats + pending (next n r).beat ≤ r.beats + pending r.beat)
unfolding next beat_step leave_step
next-pending (beats_on fails) r h m = (
  ap is_marked (leave-beat r.beat fails r) ∙ m,
  (beat-Winds r.beat fails r refl (h.marked m) h.alone).beats,
)
next-pending leaves_on r h m =
    let k = leave-Keeps r.leave r refl m in (k.mark, omega (arith, k.same))

-- From a state in which `IsOrderly` holds and `disconnect` has marked the client as not
-- connected, whatever steps follow, no heartbeat goes out any more but one whose thread stands
-- just before `sendall`.
pub race-pending :
    (steps : List Next) (r : Race)
    → IsOrderly r
    → is_marked r.leave ≡ true
    → (race steps r).beats + pending (race steps r).beat ≤ r.beats + pending r.beat
unfolding race
race-pending [] r h m = omega arith
race-pending (n ∷ steps) r h m =
    let (m', less) = next-pending n r h m in
    omega (arith, less, race-pending steps (next n r) (next-IsOrderly n r h) m')

-- The thread has come to an end, and no timer will fire.
pub record IsOver (r : Race) : Type 0 where
  pub no_timer : r.armed ≡ []
  pub still : (r.beat ≡ resting) ⊎ (r.beat ≡ broken)

rank-IsOver :
    (beat : Beat) (armed : List ℕ) (r : Race)
    → r.beat ≡ beat
    → r.armed ≡ armed
    → IsOrderly r
    → steps_of beat (length armed) ≡ 0
    → IsOver r
rank-IsOver resting [] r e f h z = record { no_timer = f; still = inl e }
rank-IsOver resting (n ∷ armed) r e f h z = absurd (omega (arith, z))
rank-IsOver broken armed r e f h z = record { no_timer = h.alone (λ x. cc); still = inr e }
rank-IsOver fired armed r e f h z = absurd (omega (arith, z))
rank-IsOver checking armed r e f h z = absurd (omega (arith, z))
rank-IsOver writing armed r e f h z = absurd (omega (arith, z))
rank-IsOver restarting armed r e f h z = absurd (omega (arith, z))
rank-IsOver assigning armed r e f h z = absurd (omega (arith, z))
rank-IsOver marking_daemon armed r e f h z = absurd (omega (arith, z))
rank-IsOver starting armed r e f h z = absurd (omega (arith, z))

rank_bound : (beat : Beat) (n : ℕ) → n ≤ 1 → steps_of beat n ≤ 5
rank_bound fired n h = omega arith
rank_bound checking n h = omega arith
rank_bound writing n h = omega arith
rank_bound restarting n h = omega arith
rank_bound assigning n h = omega arith
rank_bound marking_daemon n h = omega arith
rank_bound starting n h = omega arith
rank_bound resting n h = omega arith
rank_bound broken n h = omega arith

-- The steps of the heartbeat in a sequence of steps.
abbrev pub beat_steps : List Next → ℕ
beat_steps [] = 0
beat_steps (beats_on fails ∷ steps) = suc (beat_steps steps)
beat_steps (leaves_on ∷ steps) = beat_steps steps

winds_down :
    (steps : List Next) (r : Race)
    → IsOrderly r
    → is_marked r.leave ≡ true
    → rank r ≤ beat_steps steps
    → IsOver (race steps r)
unfolding race next beat_step leave_step
winds_down [] r h m enough = rank-IsOver r.beat r.armed r refl refl h (omega arith)
winds_down (beats_on fails ∷ steps) r h m enough =
    winds_down steps (beat_at r.beat fails r) (next-IsOrderly (beats_on fails) r h)
      (ap is_marked (leave-beat r.beat fails r) ∙ m)
      (omega (arith, enough, (beat-Winds r.beat fails r refl (h.marked m) h.alone).steps))
winds_down (leaves_on ∷ steps) r h m enough =
    let k = leave-Keeps r.leave r refl m in
    winds_down steps (leave_at r.leave r) (next-IsOrderly leaves_on r h) k.mark
      (omega (arith, enough, k.less))

-- From a state in which `IsOrderly` holds and `disconnect` has marked the client as not
-- connected, after any steps of which five at least are the heartbeat's, that thread has ended,
-- and no timer will fire: one that was started too late fires once and starts no other.
pub race-IsOver :
    (steps : List Next) (r : Race)
    → IsOrderly r
    → is_marked r.leave ≡ true
    → 5 ≤ beat_steps steps
    → IsOver (race steps r)
race-IsOver steps r h m enough =
    winds_down steps r h m (omega (arith, enough, rank_bound r.beat (length r.armed) h.one_timer))
