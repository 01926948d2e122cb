-- ===== src/Tcp/Race/Heartbeats.antt =====
-- tcpclient.py: the order that every interleaving of a heartbeat and `disconnect` keeps, and the steps of
-- the heartbeat.
use knot_link_sdk.Base.{
  ℕ, Bool, true, false, ◌≡◌, ◌≢◌, refl, Option, none, some, List, [], ◌∷◌, if◌then◌else◌, arith, ap,
  length, ◌≤◌, ◌||◌,
}
use knot_link_sdk.Tcp.Race.{
  Beat, fired, checking, writing, restarting, assigning, marking_daemon, starting, resting, broken,
  Leave, marking, cancelling, closing, left, failed, Race, is_in, mark_daemon, start_timer,
  fire_timer, beat_at,
}

-- `disconnect` has marked the client, and has cleared the timer.
abbrev pub is_marked : Leave → Bool
is_marked marking = false
is_marked _ = true

abbrev pub is_cleared : Leave → Bool
is_cleared closing = true
is_cleared left = true
is_cleared _ = false

-- The thread is between the creation of a timer and its start.
abbrev pub is_setting_up : Beat → Bool
is_setting_up marking_daemon = true
is_setting_up starting = true
is_setting_up _ = false

pub record IsOrderly (r : Race) : Type 0 where
  -- `disconnect` does not fail
  pub leaves : r.leave ≢ failed
  pub timer : r.leave ≡ cancelling → r.heart_beat_timer ≢ none
  -- once `disconnect` has marked the client it stays disconnected
  pub marked : is_marked r.leave ≡ true → r.connected ≡ false
  -- a heartbeat breaks only after `disconnect` has cleared the timer
  pub setting_up :
      is_setting_up r.beat ≡ true → r.heart_beat_timer ≡ none → is_cleared r.leave ≡ true
  pub breaks : r.beat ≡ broken → is_cleared r.leave ≡ true
  -- one timer at most will fire, and none while a heartbeat runs
  pub one_timer : length r.armed ≤ 1
  pub alone : r.beat ≢ resting → r.armed ≡ []

pub clash : {A : Type 0} {b : Bool} → b ≡ true → b ≡ false → A
clash p q = cc

either-IsOrderly :
    (b : Bool) (p q : Race)
    → (b ≡ true → IsOrderly p)
    → (b ≡ false → IsOrderly q)
    → IsOrderly (if b then p else q)
either-IsOrderly true p q hp hq = hp refl
either-IsOrderly false p q hp hq = hq refl

-- The thread goes on, and no field of the client changes.
moves-IsOrderly :
    (r : Race) (b : Beat)
    → IsOrderly r
    → r.beat ≢ resting
    → (is_setting_up b ≡ true → r.heart_beat_timer ≡ none → is_cleared r.leave ≡ true)
    → (b ≡ broken → is_cleared r.leave ≡ true)
    → IsOrderly (record r { beat = b })
moves-IsOrderly r b h busy setting_up breaks = record {
  leaves = h.leaves;
  timer = h.timer;
  marked = h.marked;
  setting_up = setting_up;
  breaks = breaks;
  one_timer = h.one_timer;
  alone = λ _. h.alone busy;
}

mark_daemon-IsOrderly :
    (t : Option ℕ) (r : Race)
    → r.heart_beat_timer ≡ t
    → r.beat ≡ marking_daemon
    → IsOrderly r
    → IsOrderly (mark_daemon t r)
mark_daemon-IsOrderly none r e at_ h =
    moves-IsOrderly r broken h (λ x. cc) (λ b. cc) (λ _. h.setting_up (rw at_ refl) e)
mark_daemon-IsOrderly (some n) r e at_ h =
    moves-IsOrderly r starting h (λ x. cc) (λ _ none_. cc) (λ b. cc)

start_timer-IsOrderly :
    (t : Option ℕ) (r : Race)
    → r.heart_beat_timer ≡ t
    → r.beat ≡ starting
    → IsOrderly r
    → IsOrderly (start_timer t r)
start_timer-IsOrderly none r e at_ h =
    moves-IsOrderly r broken h (λ x. cc) (λ b. cc) (λ _. h.setting_up (rw at_ refl) e)
start_timer-IsOrderly (some n) r e at_ h =
    either-IsOrderly (is_in n r.cancelled) _ _
      (λ _. moves-IsOrderly r resting h (λ x. cc) (λ b. cc) (λ b. cc))
      (λ _. record {
        leaves = h.leaves;
        timer = h.timer;
        marked = h.marked;
        setting_up = λ b. cc;
        breaks = λ b. cc;
        one_timer = rw (h.alone (λ x. cc)) (omega arith);
        alone = λ busy. absurd (busy refl);
      })

fire_timer-IsOrderly :
    (armed : List ℕ) (r : Race) → r.armed ≡ armed → IsOrderly r → IsOrderly (fire_timer armed r)
fire_timer-IsOrderly [] r e h = h
fire_timer-IsOrderly (n ∷ m ∷ armed) r e h = absurd (omega (arith, h.one_timer, ap length e))
fire_timer-IsOrderly (n ∷ []) r e h = record {
  leaves = h.leaves;
  timer = h.timer;
  marked = h.marked;
  setting_up = λ b. cc;
  breaks = λ b. cc;
  one_timer = omega arith;
  alone = λ _. refl;
}

-- Each step of the heartbeat.
pub beat-IsOrderly :
    (beat : Beat) (fails : Bool) (r : Race)
    → r.beat ≡ beat
    → IsOrderly r
    → IsOrderly (beat_at beat fails r)
beat-IsOrderly fired fails r e h =
    either-IsOrderly r.connected _ _
      (λ _. moves-IsOrderly r checking h (λ x. cc) (λ b. cc) (λ b. cc))
      (λ _. moves-IsOrderly r resting h (λ x. cc) (λ b. cc) (λ b. cc))
beat-IsOrderly checking fails r e h =
    either-IsOrderly r.connected _ _
      (λ _. moves-IsOrderly r writing h (λ x. cc) (λ b. cc) (λ b. cc))
      (λ _. moves-IsOrderly r restarting h (λ x. cc) (λ b. cc) (λ b. cc))
beat-IsOrderly writing fails r e h =
    either-IsOrderly (fails || r.closed) _ _
      (λ _. record {
        leaves = h.leaves;
        timer = h.timer;
        marked = λ _. refl;
        setting_up = λ b. cc;
        breaks = λ b. cc;
        one_timer = h.one_timer;
        alone = λ _. h.alone (λ x. cc);
      })
      (λ _. record {
        leaves = h.leaves;
        timer = h.timer;
        marked = h.marked;
        setting_up = λ b. cc;
        breaks = λ b. cc;
        one_timer = h.one_timer;
        alone = λ _. h.alone (λ x. cc);
      })
beat-IsOrderly restarting fails r e h =
    either-IsOrderly r.connected _ _
      (λ _. moves-IsOrderly r assigning h (λ x. cc) (λ b. cc) (λ b. cc))
      (λ _. moves-IsOrderly r resting h (λ x. cc) (λ b. cc) (λ b. cc))
beat-IsOrderly assigning fails r e h = record {
  leaves = h.leaves;
  timer = λ _ none_. cc;
  marked = h.marked;
  setting_up = λ _ none_. cc;
  breaks = λ b. cc;
  one_timer = h.one_timer;
  alone = λ _. h.alone (λ x. cc);
}
beat-IsOrderly marking_daemon fails r e h = mark_daemon-IsOrderly r.heart_beat_timer r refl e h
beat-IsOrderly starting fails r e h = start_timer-IsOrderly r.heart_beat_timer r refl e h
beat-IsOrderly resting fails r e h = fire_timer-IsOrderly r.armed r refl h
beat-IsOrderly broken fails r e h = h
