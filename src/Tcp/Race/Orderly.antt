-- ===== src/Tcp/Race/Orderly.antt =====
-- What holds in every interleaving of a heartbeat and `disconnect`.
use knot_link_sdk.Base.{
  ℕ, ◌≡◌, refl, Option, none, some, List, [], ◌∷◌, ◌==◌, arith, ap, length, ◌≤◌, inl, inr,
  Bool-cases,
}
use knot_link_sdk.Tcp.Race.{
  Leave, marking, looking, cancelling, clearing, closing, left, failed, Race, without, look, cancel,
  leave_at, beat_step, leave_step, Next, beats_on, leaves_on, next, race,
}
use knot_link_sdk.Tcp.Race.Heartbeats.{IsOrderly, clash, beat-IsOrderly}

pub length-without : (n : ℕ) (xs : List ℕ) → length (without n xs) ≤ length xs
length-without n [] = omega arith
length-without n (x ∷ xs) = elim (Bool-cases (n == x)) [
  | inl e ↦ rw e (omega (arith, length-without n xs))
  | inr e ↦ rw e (omega (arith, length-without n xs))
]

look-IsOrderly :
    (t : Option ℕ) (r : Race)
    → r.heart_beat_timer ≡ t
    → r.leave ≡ looking
    → IsOrderly r
    → IsOrderly (look t r)
look-IsOrderly none r e at_ h = record {
  leaves = λ b. cc;
  timer = λ b. cc;
  marked = λ _. h.marked (rw at_ refl);
  setting_up = λ _ _. refl;
  breaks = λ _. refl;
  one_timer = h.one_timer;
  alone = h.alone;
}
look-IsOrderly (some n) r e at_ h = record {
  leaves = λ b. cc;
  timer = λ _ none_. cc;
  marked = λ _. h.marked (rw at_ refl);
  setting_up = λ _ none_. cc;
  breaks = λ b. clash (h.breaks b) (rw at_ refl);
  one_timer = h.one_timer;
  alone = h.alone;
}

cancel-IsOrderly :
    (t : Option ℕ) (r : Race)
    → r.heart_beat_timer ≡ t
    → r.leave ≡ cancelling
    → IsOrderly r
    → IsOrderly (cancel t r)
cancel-IsOrderly none r e at_ h = absurd (h.timer at_ e)
cancel-IsOrderly (some n) r e at_ h = record {
  leaves = λ b. cc;
  timer = λ b. cc;
  marked = λ _. h.marked (rw at_ refl);
  setting_up = λ _ none_. cc;
  breaks = λ b. clash (h.breaks b) (rw at_ refl);
  one_timer = omega (arith, h.one_timer, length-without n r.armed);
  alone = λ busy. ap (without n) (h.alone busy);
}

-- Each step of `disconnect`.
leave-IsOrderly :
    (leave : Leave) (r : Race) → r.leave ≡ leave → IsOrderly r → IsOrderly (leave_at leave r)
leave-IsOrderly marking r e h = record {
  leaves = λ b. cc;
  timer = λ b. cc;
  marked = λ _. refl;
  setting_up = λ b none_. clash (h.setting_up b none_) (rw e refl);
  breaks = λ b. clash (h.breaks b) (rw e refl);
  one_timer = h.one_timer;
  alone = h.alone;
}
leave-IsOrderly looking r e h = look-IsOrderly r.heart_beat_timer r refl e h
leave-IsOrderly cancelling r e h = cancel-IsOrderly r.heart_beat_timer r refl e h
leave-IsOrderly clearing r e h = record {
  leaves = λ b. cc;
  timer = λ b. cc;
  marked = λ _. h.marked (rw e refl);
  setting_up = λ _ _. refl;
  breaks = λ _. refl;
  one_timer = h.one_timer;
  alone = h.alone;
}
leave-IsOrderly closing r e h = record {
  leaves = λ b. cc;
  timer = λ b. cc;
  marked = λ _. h.marked (rw e refl);
  setting_up = λ _ _. refl;
  breaks = λ _. refl;
  one_timer = h.one_timer;
  alone = h.alone;
}
leave-IsOrderly left r e h = h
leave-IsOrderly failed r e h = h

pub next-IsOrderly : (n : Next) (r : Race) → IsOrderly r → IsOrderly (next n r)
unfolding next beat_step leave_step
next-IsOrderly (beats_on fails) r h = beat-IsOrderly r.beat fails r refl h
next-IsOrderly leaves_on r h = leave-IsOrderly r.leave r refl h

-- Any interleaving of the steps of `disconnect` and of the heartbeat's thread keeps these:
-- `disconnect` does not raise; once it has marked the client, the client is not connected; the
-- heartbeat's thread ends by an AttributeError only after `disconnect` has cleared the timer; at
-- most one timer will fire, and none while a heartbeat runs.
pub race-IsOrderly : (steps : List Next) (r : Race) → IsOrderly r → IsOrderly (race steps r)
unfolding race
race-IsOrderly [] r h = h
race-IsOrderly (n ∷ steps) r h = race-IsOrderly steps (next n r) (next-IsOrderly n r h)
