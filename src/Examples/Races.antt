-- ===== src/Examples/Races.antt =====
-- tcpclient.py: interleavings of a heartbeat and `disconnect`.
use knot_link_sdk.Base.{◌≡◌, refl, true, false, some, List, [], ◌∷◌, ◌++◌, arith}
use knot_link_sdk.Tcp.Race.{
  fired, writing, broken, marking, left, Race, beat_step, leave_step, Next, beats_on, leaves_on,
  next, race,
}
use knot_link_sdk.Tcp.Race.Orderly.{race-IsOrderly}
use knot_link_sdk.Tcp.Race.Heartbeats.{IsOrderly}
use knot_link_sdk.Tcp.Race.Silence.{IsOver, race-IsOver}

-- The timer 0 has fired, and `disconnect` has been called.
abbrev beating : Race
beating = record {
  connected = true;
  heart_beat_timer = some 0;
  closed = false;
  armed = [];
  cancelled = [];
  fresh = 1;
  beats = 0;
  beat = fired;
  leave = marking;
}

beating-IsOrderly : IsOrderly beating
beating-IsOrderly = record {
  leaves = λ e. cc;
  timer = λ e. cc;
  marked = λ e. cc;
  setting_up = λ e. cc;
  breaks = λ e. cc;
  one_timer = omega arith;
  alone = λ busy. refl;
}

abbrev beat_thread : Next
beat_thread = beats_on false

-- The heartbeat goes out, and the client is found connected before `disconnect` begins.
abbrev up_to_restart : List Next
up_to_restart = beat_thread ∷ beat_thread ∷ beat_thread ∷ beat_thread ∷ []

abbrev whole_leave : List Next
whole_leave = leaves_on ∷ leaves_on ∷ leaves_on ∷ leaves_on ∷ leaves_on ∷ []

-- `disconnect` runs between the creation of the timer and the next line: an AttributeError.
broken_thread :
    (race (up_to_restart ++ beat_thread ∷ (whole_leave ++ beat_thread ∷ [])) beating).beat ≡ broken
unfolding race next beat_step leave_step
broken_thread = refl

-- `disconnect` runs before the creation of the timer: the new timer is started after it.
late_timer :
    (race
      (up_to_restart ++ whole_leave ++ beat_thread ∷ beat_thread ∷ beat_thread ∷ [])
      beating).armed
    ≡ 1 ∷ []
unfolding race next beat_step leave_step
late_timer = refl

race-IsOrderly_example : IsOrderly (race (up_to_restart ++ whole_leave) beating)
race-IsOrderly_example = race-IsOrderly (up_to_restart ++ whole_leave) beating beating-IsOrderly

-- `disconnect` has marked the client just before `sendall`.
abbrev sending_late : Race
sending_late = record beating { connected = false; beat = writing; leave = left }

sending_late-IsOrderly : IsOrderly sending_late
sending_late-IsOrderly = record {
  leaves = λ e. cc;
  timer = λ e. cc;
  marked = λ e. refl;
  setting_up = λ e. cc;
  breaks = λ e. cc;
  one_timer = omega arith;
  alone = λ busy. refl;
}

race-IsOver_example : IsOver (race (leaves_on ∷ beat_thread ∷ up_to_restart) sending_late)
race-IsOver_example =
    race-IsOver (leaves_on ∷ beat_thread ∷ up_to_restart) sending_late sending_late-IsOrderly refl
      (omega arith)
