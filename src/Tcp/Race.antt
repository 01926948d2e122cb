-- ===== src/Tcp/Race.antt =====
-- tcpclient.py, `send_heart_beat` and `disconnect` in two threads, step by step: a step is a test, or one
-- reading or writing of a field of the client or one call of the socket or of a timer.
pub mod Heartbeats
pub mod Orderly
pub mod Winding
pub mod Silence
use knot_link_sdk.Base.{
  ℕ, suc, ◌+◌, Bool, true, false, ◌||◌, Option, none, some, List, [], ◌∷◌, ◌==◌, if◌then◌else◌,
}

-- Where the thread of a timer is: before the test of `send_heart_beat`, before that of
-- `_write_with_length_prefix`, before `sendall`, before the test of `start_heart_beat`, and before each
-- of its three lines that set up the timer. `resting` is no such thread, and `broken` one that an
-- AttributeError has ended.
pub data Beat : Type 0 where
  fired checking writing restarting assigning marking_daemon starting resting broken : Beat

-- The same for `disconnect`; `failed` is an AttributeError.
pub data Leave : Type 0 where
  marking looking cancelling clearing closing left failed : Leave

-- The fields of the client, the timers that have been started and will fire, those that have been
-- cancelled, the number of the next one, and how many heartbeats the socket has taken.
pub record Race : Type 0 where
  pub connected : Bool
  pub heart_beat_timer : Option ℕ
  pub closed : Bool
  pub armed : List ℕ
  pub cancelled : List ℕ
  pub fresh : ℕ
  pub beats : ℕ
  pub beat : Beat
  pub leave : Leave

abbrev pub is_in : ℕ → List ℕ → Bool
is_in n [] = false
is_in n (m ∷ ms) = (n == m) || is_in n ms

abbrev pub without : ℕ → List ℕ → List ℕ
without n [] = []
without n (m ∷ ms) = let rest = without n ms in if n == m then rest else m ∷ rest

-- `self.heart_beat_timer.daemon = True`
abbrev pub mark_daemon : Option ℕ → Race → Race
mark_daemon none r = record r { beat = broken }
mark_daemon (some n) r = record r { beat = starting }

-- `self.heart_beat_timer.start()`: a timer that was cancelled before ends at once.
abbrev pub start_timer : Option ℕ → Race → Race
start_timer none r = record r { beat = broken }
start_timer (some n) r =
    if is_in n r.cancelled
    then record r { beat = resting }
    else record r { armed = n ∷ r.armed; beat = resting }

-- A timer that has been started fires.
abbrev pub fire_timer : List ℕ → Race → Race
fire_timer [] r = r
fire_timer (n ∷ armed) r = record r { armed = armed; beat = fired }

-- `fails`: whether `sendall` raises socket.error, as it does on a closed socket too.
abbrev pub beat_at : Beat → Bool → Race → Race
beat_at fired fails r =
    if r.connected then record r { beat = checking } else record r { beat = resting }
beat_at checking fails r =
    if r.connected then record r { beat = writing } else record r { beat = restarting }
beat_at writing fails r =
    if fails || r.closed
    then record r { connected = false; beat = restarting }
    else record r { beats = r.beats + 1; beat = restarting }
beat_at restarting fails r =
    if r.connected then record r { beat = assigning } else record r { beat = resting }
beat_at assigning fails r = record r {
  heart_beat_timer = some r.fresh;
  fresh = r.fresh + 1;
  beat = marking_daemon;
}
beat_at marking_daemon fails r = mark_daemon r.heart_beat_timer r
beat_at starting fails r = start_timer r.heart_beat_timer r
beat_at resting fails r = fire_timer r.armed r
beat_at broken fails r = r

unfoldable pub beat_step : Bool → Race → Race
beat_step fails r = beat_at r.beat fails r

-- `if self.heart_beat_timer`
abbrev pub look : Option ℕ → Race → Race
look none r = record r { leave = closing }
look (some n) r = record r { leave = cancelling }

-- `self.heart_beat_timer.cancel()`
abbrev pub cancel : Option ℕ → Race → Race
cancel none r = record r { leave = failed }
cancel (some n) r = record r {
  armed = without n r.armed;
  cancelled = n ∷ r.cancelled;
  leave = clearing;
}

abbrev pub leave_at : Leave → Race → Race
leave_at marking r = record r { connected = false; leave = looking }
leave_at looking r = look r.heart_beat_timer r
leave_at cancelling r = cancel r.heart_beat_timer r
leave_at clearing r = record r { heart_beat_timer = none; leave = closing }
leave_at closing r = record r { closed = true; leave = left }
leave_at left r = r
leave_at failed r = r

unfoldable pub leave_step : Race → Race
leave_step r = leave_at r.leave r

-- Which thread goes next.
pub data Next : Type 0 where
  beats_on : Bool → Next
  leaves_on : Next

unfoldable pub next : Next → Race → Race
next (beats_on fails) r = beat_step fails r
next leaves_on r = leave_step r

unfoldable pub race : List Next → Race → Race
race [] r = r
race (n ∷ steps) r = race steps (next n r)
