-- ===== src/Tcp/Net.antt =====
-- What tcpclient.py uses of Python's `socket`: `connect`, `sendall` and `close`, with the errors that
-- the operating system may report. What comes back from `recv` is an event of `receive_data`.
use knot_link_sdk.Base.{
  ℕ, Bool, true, false, ◌||◌, Option, none, some, List, [], ◌∷◌, ◌++◌, if◌then◌else◌, take, not,
}
use knot_link_sdk.Exec.{os_error, ok, raised, Exec}

-- `sent` is what the socket has taken from `sendall`. `faults` says what the coming calls of
-- `sendall` meet: `none` is success, `some n` an error after n bytes; past its end all succeed.
pub record Socket : Type 0 where
  pub reachable : Bool
  pub linked : Bool
  pub closed : Bool
  pub sent : List ℕ
  pub faults : List (Option ℕ)

abbrev pub fresh : Bool → List (Option ℕ) → Socket
fresh up faults = record {
  reachable = up;
  linked = false;
  closed = false;
  sent = [];
  faults = faults;
}

-- A socket connects once.
unfoldable pub connect : Exec Socket (Unit {0})
connect s =
    if s.closed || (s.linked || not s.reachable)
    then (raised os_error, s)
    else (ok tt, record s { linked = true })

abbrev transmit : List ℕ → List (Option ℕ) → Exec Socket (Unit {0})
transmit bytes [] s = (ok tt, record s { sent = s.sent ++ bytes })
transmit bytes (none ∷ faults) s = (ok tt, record s { sent = s.sent ++ bytes; faults = faults })
transmit bytes (some n ∷ faults) s =
    (raised os_error, record s { sent = s.sent ++ take n bytes; faults = faults })

unfoldable pub sendall : List ℕ → Exec Socket (Unit {0})
sendall bytes s = if s.closed then (raised os_error, s) else transmit bytes s.faults s

abbrev pub close : Socket → Socket
close s = record s { closed = true }
