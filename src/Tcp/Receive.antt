-- ===== src/Tcp/Receive.antt =====
-- tcpclient.py, `receive_data`: the stream may come in any pieces, and what ends the reading thread.
use knot_link_sdk.Base.{
  ℕ, ◌≡◌, ◌≢◌, refl, ap, sym, ◌∙◌, inl, inr, true, false, List, [], ◌∷◌, ◌++◌, append_assoc,
  append-nil, arith, if◌then◌else◌, if_true, if_false, concat, map, All,
}
use knot_link_sdk.Exec.{is_socket_error, Result, ok, raised, continue, pure, handle}
use knot_link_sdk.Wire.{Bytes}
use knot_link_sdk.Tcp.{
  Client, Recv, chunk, go_on, process_buffer, with_buffer, set_connected, receive_chunk,
  receive_error, receive_next, receive_data,
}
use knot_link_sdk.Tcp.Chunks.{extend, rejoin, process_buffer-extend}
use knot_link_sdk.Tcp.Endings.{Ends, process_buffer-Ends}

-- Two runs that differ at most in the bytes that nobody will read any more.
abbrev pub SameView :
    {S : Type 0} → Result (Unit {0}) × Client S → Result (Unit {0}) × Client S → Type 0
SameView p q = (p.0 ≡ q.0) × (with_buffer [] p.1 ≡ with_buffer [] q.1)

module _ {S : Type 0} where
  -- What `receive_data` does after a run of `_process_buffer`.
  abbrev pub finish : List Recv → Result (Unit {0}) × Client S → Result (Unit {0}) × Client S
  finish events (ok _, c) = receive_data events c
  finish events (raised e, c) =
      if is_socket_error e
      then (ok tt, if c.tcp.connected then set_connected false c else c)
      else (raised e, c)

  finish_lem :
      (events : List Recv) (r : Result (Unit {0})) (c : Client S)
      → (let (r', c') = continue r (λ _. pure go_on) c in
          let (r'', c'') = handle r' receive_error c' in
          continue r'' (receive_next (receive_data events)) c'')
        ≡ finish events (r, c)
  unfolding receive_error receive_next
  finish_lem events (ok _) c = refl
  finish_lem events (raised e) c = ground arith

  -- A chunk that is not empty is processed, and then the rest is received.
  pub receive_data-chunk :
      (b : ℕ) (bs : Bytes) (events : List Recv) (c : Client S)
      → c.tcp.connected ≡ true
      → receive_data (chunk (b ∷ bs) ∷ events) c
        ≡ finish events (process_buffer (extend (b ∷ bs) c))
  unfolding receive_data receive_chunk
  receive_data-chunk b bs events c on =
      if_true _ _ on
      ∙ finish_lem events (process_buffer (extend (b ∷ bs) c)).0
          (process_buffer (extend (b ∷ bs) c)).1

  pub receive_data-off :
      (events : List Recv) (c : Client S)
      → c.tcp.connected ≡ false
      → receive_data events c ≡ (ok tt, c)
  unfolding receive_data
  receive_data-off [] c off = refl
  receive_data-off (event ∷ events) c off = if_false _ _ off

  -- Whichever way the run on the first chunk ended, the second chunk finds the same in either case.
  joined :
      (b : ℕ) (bs : Bytes) (events : List Recv) (t : Client S) (r : Result (Unit {0}))
      (c : Client S)
      → t.tcp.connected ≡ true
      → Ends t.tcp r c.tcp
      → SameView (finish (chunk (b ∷ bs) ∷ events) (r, c)) (finish events (rejoin (b ∷ bs) (r, c)))
  joined b bs events t (raised e) c on ends = ground arith
  joined b bs events t (ok _) c on (inl (waits, same), _) =
      rw (waits, receive_data-chunk b bs events c (ap (λ u. u.connected) same ∙ on)) (refl, refl)
  joined b bs events t (ok _) c on (inr (inl bad, same), _) =
      rw
        (
          bad,
          receive_data-off (chunk (b ∷ bs) ∷ events) c (ap (λ u. u.connected) same),
          receive_data-off events (extend (b ∷ bs) c) (ap (λ u. u.connected) same),
        )
        (refl, refl)
  joined b bs events t (ok _) c on (inr (inr (n, bad), same), _) =
      rw
        (
          bad,
          receive_data-off (chunk (b ∷ bs) ∷ events) c (ap (λ u. u.connected) same),
          receive_data-off events (extend (b ∷ bs) c) (ap (λ u. u.connected) same),
        )
        (refl, refl)

  extend-append : (xs ys : Bytes) (c : Client S) → extend (xs ++ ys) c ≡ extend ys (extend xs c)
  extend-append xs ys c = ap (λ b. with_buffer b c) (sym (append_assoc c.tcp.buffer xs ys))

  -- Two chunks, or the two of them in one: the same messages, the same exceptions, the same state.
  pub receive_data-join :
      (a b : ℕ) (xs bs : Bytes) (events : List Recv) (c : Client S)
      → c.tcp.connected ≡ true
      → SameView
          (receive_data (chunk (a ∷ xs) ∷ chunk (b ∷ bs) ∷ events) c)
          (receive_data (chunk ((a ∷ xs) ++ b ∷ bs) ∷ events) c)
  receive_data-join a b xs bs events c on =
      rw
        (
          receive_data-chunk a xs (chunk (b ∷ bs) ∷ events) c on,
          receive_data-chunk a (xs ++ b ∷ bs) events c on,
          extend-append (a ∷ xs) (b ∷ bs) c,
          process_buffer-extend (b ∷ bs) (extend (a ∷ xs) c),
        )
        (joined b bs events (extend (a ∷ xs) c) (process_buffer (extend (a ∷ xs) c)).0
          (process_buffer (extend (a ∷ xs) c)).1 on (process_buffer-Ends (extend (a ∷ xs) c)))

  -- On a connected client, a stream cut into chunks that are not empty, the first being `x ∷
  -- xs`, and the same stream in one chunk give the same result, exception or not, and the same
  -- client but for what is left in its buffer, whatever the callback does.
  pub receive_data-chunks :
      (x : ℕ) (xs : Bytes) (chunks : List Bytes) (c : Client S)
      → c.tcp.connected ≡ true
      → All (λ piece. piece ≢ []) chunks
      → SameView
          (receive_data (chunk (x ∷ xs) ∷ map chunk chunks) c)
          (receive_data (chunk ((x ∷ xs) ++ concat chunks) ∷ []) c)
  receive_data-chunks x xs [] c on _ = rw append-nil (refl, refl)
  receive_data-chunks x xs ([] ∷ chunks) c on (full, _) = absurd (full refl)
  receive_data-chunks x xs ((y ∷ ys) ∷ chunks) c on (_, rest) =
      let p = receive_data-join x y xs ys (map chunk chunks) c on in
      let q = receive_data-chunks x (xs ++ y ∷ ys) chunks c on rest in
      rw (← append_assoc xs (y ∷ ys) (concat chunks)) (p.0 ∙ q.0, p.1 ∙ q.1)
