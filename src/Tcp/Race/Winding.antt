-- ===== src/Tcp/Race/Winding.antt =====
-- tcpclient.py: after `disconnect` has marked the client, each step brings the end nearer.
use knot_link_sdk.Base.{
  ℕ, ◌+◌, ◌-◌, ◌*◌, ◌≤◌, Bool, true, false, ◌≡◌, ◌≢◌, refl, sym, subst, Option, none, some, List,
  [], ◌∷◌, ◌||◌, if◌then◌else◌, if_false, arith, length, inl, inr, Option-cases,
}
use knot_link_sdk.Tcp.Race.{
  Beat, fired, checking, writing, restarting, assigning, marking_daemon, starting, resting, broken,
  Leave, marking, looking, cancelling, clearing, closing, left, failed, Race, is_in, without,
  mark_daemon, start_timer, fire_timer, beat_at, look, cancel, leave_at,
}
use knot_link_sdk.Tcp.Race.Orderly.{length-without}
use knot_link_sdk.Tcp.Race.Heartbeats.{is_marked}

-- The heartbeats that can still go out.
abbrev pub pending : Beat → ℕ
pending writing = 1
pending _ = 0

-- The steps that the thread of a timer, and of one that has been started, still makes.
abbrev pub steps_of : Beat → ℕ → ℕ
steps_of fired n = 1
steps_of checking n = 2
steps_of writing n = 2
steps_of restarting n = 1
steps_of assigning n = 5
steps_of marking_daemon n = 4
steps_of starting n = 3
steps_of resting n = 2 * n
steps_of broken n = 0

abbrev pub rank : Race → ℕ
rank r = steps_of r.beat (length r.armed)

-- A step brings the end nearer, and sends nothing but what was about to be sent.
pub record Winds (r r' : Race) : Type 0 where
  pub beats : r'.beats + pending r'.beat ≤ r.beats + pending r.beat
  pub steps : rank r' ≤ rank r - 1

abbrev pub at : Beat → Race → Race
at b r = record r { beat = b }

either-Winds : (b : Bool) (r p q : Race) → Winds r p → Winds r q → Winds r (if b then p else q)
either-Winds true r p q hp hq = hp
either-Winds false r p q hp hq = hq

mark_daemon-Winds : (t : Option ℕ) (r : Race) → r.beat ≡ marking_daemon → Winds r (mark_daemon t r)
mark_daemon-Winds none r e = record { beats = rw e (omega arith); steps = rw e (omega arith) }
mark_daemon-Winds (some n) r e = record { beats = rw e (omega arith); steps = rw e (omega arith) }

start_timer-Winds :
    (t : Option ℕ) (r : Race) → r.beat ≡ starting → r.armed ≡ [] → Winds r (start_timer t r)
start_timer-Winds none r e alone = record { beats = rw e (omega arith); steps = rw e (omega arith) }
start_timer-Winds (some n) r e alone =
    either-Winds (is_in n r.cancelled) r _ _
      (record { beats = rw e (omega arith); steps = rw (e, alone) (omega arith) })
      (record { beats = rw e (omega arith); steps = rw (e, alone) (omega arith) })

fire_timer-Winds :
    (armed : List ℕ) (r : Race) → r.beat ≡ resting → r.armed ≡ armed → Winds r (fire_timer armed r)
fire_timer-Winds [] r e none_left = record {
  beats = omega arith;
  steps = rw (e, none_left) (omega arith);
}
fire_timer-Winds (n ∷ armed) r e some_left = record {
  beats = rw e (omega arith);
  steps = rw (e, some_left) (omega arith);
}

pub beat-Winds :
    (beat : Beat) (fails : Bool) (r : Race)
    → r.beat ≡ beat
    → r.connected ≡ false
    → (r.beat ≢ resting → r.armed ≡ [])
    → Winds r (beat_at beat fails r)
beat-Winds fired fails r e off alone =
    subst (Winds r) (sym (if_false _ _ off))
      (record { beats = rw e (omega arith); steps = rw (e, alone (λ x. cc)) (omega arith) })
beat-Winds checking fails r e off alone =
    subst (Winds r) (sym (if_false _ _ off))
      (record { beats = rw e (omega arith); steps = rw e (omega arith) })
beat-Winds writing fails r e off alone =
    either-Winds (fails || r.closed) r _ _
      (record { beats = rw e (omega arith); steps = rw e (omega arith) })
      (record { beats = rw e (omega arith); steps = rw e (omega arith) })
beat-Winds restarting fails r e off alone =
    subst (Winds r) (sym (if_false _ _ off))
      (record { beats = rw e (omega arith); steps = rw (e, alone (λ x. cc)) (omega arith) })
beat-Winds assigning fails r e off alone = record {
  beats = rw e (omega arith);
  steps = rw e (omega arith);
}
beat-Winds marking_daemon fails r e off alone = mark_daemon-Winds r.heart_beat_timer r e
beat-Winds starting fails r e off alone = start_timer-Winds r.heart_beat_timer r e (alone (λ x. cc))
beat-Winds resting fails r e off alone = fire_timer-Winds r.armed r e refl
beat-Winds broken fails r e off alone = record { beats = omega arith; steps = rw e (omega arith) }

fewer_steps : (beat : Beat) (m n : ℕ) → m ≤ n → steps_of beat m ≤ steps_of beat n
fewer_steps fired m n h = omega arith
fewer_steps checking m n h = omega arith
fewer_steps writing m n h = omega arith
fewer_steps restarting m n h = omega arith
fewer_steps assigning m n h = omega arith
fewer_steps marking_daemon m n h = omega arith
fewer_steps starting m n h = omega arith
fewer_steps resting m n h = omega (arith, h)
fewer_steps broken m n h = omega arith

-- A step of `disconnect` keeps the mark, sends nothing, and gives the heartbeat no more to do.
pub record Keeps (r r' : Race) : Type 0 where
  pub mark : is_marked r'.leave ≡ true
  pub same : r'.beats + pending r'.beat ≡ r.beats + pending r.beat
  pub less : rank r' ≤ rank r

look-Keeps : (t : Option ℕ) (r : Race) → Keeps r (look t r)
look-Keeps none r = record { mark = refl; same = refl; less = omega arith }
look-Keeps (some n) r = record { mark = refl; same = refl; less = omega arith }

cancel-Keeps : (t : Option ℕ) (r : Race) → Keeps r (cancel t r)
cancel-Keeps none r = record { mark = refl; same = refl; less = omega arith }
cancel-Keeps (some n) r = record {
  mark = refl;
  same = refl;
  less =
      fewer_steps r.beat (length (without n r.armed)) (length r.armed) (length-without n r.armed);
}

pub leave-Keeps :
    (leave : Leave) (r : Race)
    → r.leave ≡ leave
    → is_marked r.leave ≡ true
    → Keeps r (leave_at leave r)
leave-Keeps marking r e m = record { mark = refl; same = refl; less = omega arith }
leave-Keeps looking r e m = look-Keeps r.heart_beat_timer r
leave-Keeps cancelling r e m = cancel-Keeps r.heart_beat_timer r
leave-Keeps clearing r e m = record { mark = refl; same = refl; less = omega arith }
leave-Keeps closing r e m = record { mark = refl; same = refl; less = omega arith }
leave-Keeps left r e m = record { mark = m; same = refl; less = omega arith }
leave-Keeps failed r e m = record { mark = m; same = refl; less = omega arith }

-- A heartbeat leaves `disconnect` where it is.
pub leave-beat : (beat : Beat) (fails : Bool) (r : Race) → (beat_at beat fails r).leave ≡ r.leave
leave-beat fired fails r = ground arith
leave-beat checking fails r = ground arith
leave-beat writing fails r = ground arith
leave-beat restarting fails r = ground arith
leave-beat assigning fails r = refl
leave-beat marking_daemon fails r = elim (Option-cases r.heart_beat_timer) [
  | inl e ↦ rw e refl
  | inr (n, e) ↦ rw e refl
]
leave-beat starting fails r = elim (Option-cases r.heart_beat_timer) [
  | inl e ↦ rw e refl
  | inr (n, e) ↦ rw e (ground arith)
]
leave-beat resting fails r = ground arith
leave-beat broken fails r = refl
