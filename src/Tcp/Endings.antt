-- ===== src/Tcp/Endings.antt =====
-- tcpclient.py, `_process_buffer`: how a run of its loop ends, whatever the callback does.
use knot_link_sdk.Base.{
  ℕ, zero, suc, ◌≤◌, ◌<◌, ◌≡◌, refl, subst, ◌⊎◌, inl, inr, false, arith, length,
}
use knot_link_sdk.Exec.{Result, ok, raised, continue}
use knot_link_sdk.Wire.{Bytes, Scan, incomplete, bad_magic, bad_length, message, next_message}
use knot_link_sdk.Wire.Scanning.{next_message_shrinks}
use knot_link_sdk.Tcp.{TcpClient, Client, process_message, process_buffer, with_buffer, refuse}
use knot_link_sdk.Tcp.Net.{close}
use knot_link_sdk.Tcp.Rounds.{
  tcp-process_message, process_buffer-message, process_buffer-incomplete, process_buffer-bad_magic,
  process_buffer-bad_length,
}

-- The heads of a buffer at which the client disconnects.
abbrev pub IsRefused : Scan → Type 0
IsRefused s = (s ≡ bad_magic) ⊎ ((n : ℕ) × (s ≡ bad_length n))

module _ {S : Type 0} where
  abbrev pub drops_to : TcpClient S → Bytes → TcpClient S
  drops_to t b = record t { buffer = b }

  abbrev pub refused_at : TcpClient S → Bytes → TcpClient S
  refused_at t b = record t { buffer = b; connected = false; tcp_socket = close t.tcp_socket }

  -- A callback's exception leaves all but the buffer and the callback's object as they were. Else
  -- the buffer waits for more, or is refused and the connection is given up.
  abbrev pub Ends : TcpClient S → Result (Unit {0}) → TcpClient S → Type 0
  Ends t (raised e) t' = (t' ≡ drops_to t t'.buffer) × (length t'.buffer ≤ length t.buffer)
  Ends t (ok _) t' =
      (((next_message t'.buffer ≡ incomplete) × (t' ≡ drops_to t t'.buffer))
        ⊎ (IsRefused (next_message t'.buffer) × (t' ≡ refused_at t t'.buffer)))
      × (length t'.buffer ≤ length t.buffer)

  Ends-wider :
      (t : TcpClient S) (left : Bytes) (r : Result (Unit {0})) (t' : TcpClient S)
      → length left ≤ length t.buffer
      → Ends (drops_to t left) r t'
      → Ends t r t'
  Ends-wider t left (raised e) t' le (same, l) = (same, omega arith)
  Ends-wider t left (ok _) t' le (cases, l) = (cases, omega arith)

  Ends-after :
      (r : Result (Unit {0})) (t : TcpClient S) (c : Client S)
      → c.tcp ≡ t
      → Ends c.tcp (process_buffer c).0 (process_buffer c).1.tcp
      → Ends t (continue r (λ _. process_buffer) c).0 (continue r (λ _. process_buffer) c).1.tcp
  Ends-after (ok _) t c same h =
      subst (λ u. Ends u (process_buffer c).0 (process_buffer c).1.tcp) same h
  Ends-after (raised e) t c same h = subst (λ u. Ends u (raised e) c.tcp) same (refl, omega arith)

  module _ (c : Client S) where
    Ends-scan :
        ((c' : Client S)
          → length c'.tcp.buffer < length c.tcp.buffer
          → Ends c'.tcp (process_buffer c').0 (process_buffer c').1.tcp)
        → (s : Scan) → next_message c.tcp.buffer ≡ s
        → Ends c.tcp (process_buffer c).0 (process_buffer c).1.tcp
    unfolding refuse
    Ends-scan ih incomplete e = rw (process_buffer-incomplete c e) (inl (e, refl), omega arith)
    Ends-scan ih bad_magic e = rw (process_buffer-bad_magic c e) (inr (inl e, refl), omega arith)
    Ends-scan ih (bad_length n) e =
        rw (process_buffer-bad_length c n e) (inr (inr (n, e), refl), omega arith)
    Ends-scan ih (message msg left) e =
        let c1 = with_buffer left c in
        let shorter = next_message_shrinks c.tcp.buffer msg left e in
        rw (process_buffer-message c msg left e) (
          Ends-wider c.tcp left _ _ (omega arith) (
            Ends-after (process_message msg c1).0 c1.tcp (process_message msg c1).1
              (tcp-process_message msg c1)
              (ih (process_message msg c1).1 (rw (tcp-process_message msg c1) (omega arith)))))

  Ends-rounds :
      (n : ℕ) (c : Client S)
      → length c.tcp.buffer < n
      → Ends c.tcp (process_buffer c).0 (process_buffer c).1.tcp
  Ends-rounds zero c h = absurd (omega arith)
  Ends-rounds (suc n) c h =
      Ends-scan c (λ c' shorter. Ends-rounds n c' (omega arith)) (next_message c.tcp.buffer) refl

  pub process_buffer-Ends :
      (c : Client S) → Ends c.tcp (process_buffer c).0 (process_buffer c).1.tcp
  process_buffer-Ends c = Ends-rounds (suc (length c.tcp.buffer)) c (omega arith)
