-- ===== src/Tcp/Writers/Torn.antt =====
-- A frame that is cut in its header by another one makes the receiver disconnect.
use knot_link_sdk.Base.{
  ℕ, zero, suc, ◌≤◌, ◌≡◌, refl, ap, sym, ◌∙◌, true, List, [], ◌∷◌, ◌++◌, append_assoc, append-nil,
  take, drop, arith, length, inl, inr, seq_eq, false, if_false, ◌≢◌, map, concat, All, take-append,
}
use knot_link_sdk.Exec.{Result, ok}
use knot_link_sdk.Wire.{
  Bytes, magic, frame, pack_u32, unpack_u32, bad_magic, bad_length, next_message,
}
use knot_link_sdk.Wire.Scanning.{next_message-with_header}
use knot_link_sdk.Tcp.{Client, chunk, process_buffer, with_buffer, refuse, receive_data}
use knot_link_sdk.Tcp.Endings.{IsRefused}
use knot_link_sdk.Tcp.Receive.{finish, receive_data-chunk, receive_data-chunks}
use knot_link_sdk.Tcp.Rounds.{process_buffer-bad_magic, process_buffer-bad_length}
use knot_link_sdk.Tcp.Writers.{Writers, writing_both, first_sends, second_sends, send_parts}

other_magic :
    (a b c d e f g h : ℕ) (rest : Bytes)
    → seq_eq (a ∷ b ∷ c ∷ d ∷ []) magic ≡ false
    → next_message (a ∷ b ∷ c ∷ d ∷ e ∷ f ∷ g ∷ h ∷ rest) ≡ bad_magic
other_magic a b c d e f g h rest differs =
    next_message-with_header a b c d e f g h rest ∙ if_false _ _ differs

-- The magic number behind a magic number is read as a length above the limit.
magic_twice :
    (rest : Bytes)
    → next_message (b'K' ∷ b'K' ∷ 0 ∷ 2 ∷ b'K' ∷ b'K' ∷ 0 ∷ 2 ∷ rest) ≡ bad_length 0x4b4b0002
unfolding seq_eq unpack_u32
magic_twice rest = next_message-with_header b'K' b'K' 0 2 b'K' b'K' 0 2 rest

torn-IsRefused :
    (n : ℕ) (data_ other : Bytes)
    → 1 ≤ n
    → n ≤ 4
    → IsRefused (next_message (take n (frame data_) ++ (frame other ++ drop n (frame data_))))
unfolding frame pack_u32 seq_eq
torn-IsRefused zero data_ other low high = absurd (omega arith)
torn-IsRefused (suc zero) data_ other low high = inl (other_magic _ _ _ _ _ _ _ _ _ refl)
torn-IsRefused (suc (suc zero)) data_ other low high = inl (other_magic _ _ _ _ _ _ _ _ _ refl)
torn-IsRefused (suc (suc (suc zero))) data_ other low high =
    inl (other_magic _ _ _ _ _ _ _ _ _ refl)
torn-IsRefused (suc (suc (suc (suc zero)))) data_ other low high = inr (0x4b4b0002, magic_twice _)
torn-IsRefused (suc (suc (suc (suc (suc n))))) data_ other low high = absurd (omega arith)

-- The first thread's `sendall` has handed over `n` bytes when the second one's runs as a whole.
abbrev pub torn_at : ℕ → Bytes → Bytes → Writers
torn_at n data_ other =
    send_parts
      (first_sends n
        ∷ second_sends (length (frame other))
        ∷ first_sends (length (drop n (frame data_)))
        ∷ [])
      (writing_both [] data_ other)

take_all : (xs : Bytes) → take (length xs) xs ≡ xs
take_all xs = ap (take (length xs)) (sym (append-nil xs)) ∙ take-append xs []

sent-torn_at :
    (n : ℕ) (data_ other : Bytes)
    → (torn_at n data_ other).sent ≡ take n (frame data_) ++ (frame other ++ drop n (frame data_))
sent-torn_at n data_ other =
    ap
      (λ b.
        (take n (frame data_) ++ b) ++ take (length (drop n (frame data_))) (drop n (frame data_)))
      (take_all (frame other))
    ∙ ap (λ b. (take n (frame data_) ++ frame other) ++ b) (take_all (drop n (frame data_)))
    ∙ append_assoc (take n (frame data_)) (frame other) (drop n (frame data_))

-- The client after a refused stream: nothing was raised or handed over, and it is not connected.
pub record IsGivenUp {S : Type 0} (host : S) (end : Result (Unit {0}) × Client S) : Type 0 where
  pub returned : end.0 ≡ ok tt
  pub hosts : end.1.host ≡ host
  pub off : end.1.tcp.connected ≡ false

module _ {S : Type 0} where
  process_buffer-refused :
      (c : Client S) → IsRefused (next_message c.tcp.buffer) → process_buffer c ≡ (ok tt, refuse c)
  process_buffer-refused c (inl e) = process_buffer-bad_magic c e
  process_buffer-refused c (inr (len, e)) = process_buffer-bad_length c len e

  -- Of the frame of one message a thread has sent 1 to 4 bytes when another thread sends the
  -- frame of another message as a whole; then the first one sends the rest. However what has
  -- been sent is cut into chunks that are not empty, a connected client with an empty buffer
  -- that receives it hands over nothing, raises nothing and is not connected any more.
  pub receive_data-torn :
      (n : ℕ) (data_ other : Bytes) (x : ℕ) (xs : Bytes) (chunks : List Bytes) (c : Client S)
      → 1 ≤ n
      → n ≤ 4
      → c.tcp.connected ≡ true
      → c.tcp.buffer ≡ []
      → All (λ piece. piece ≢ []) chunks
      → (x ∷ xs) ++ concat chunks ≡ (torn_at n data_ other).sent
      → IsGivenUp c.host (receive_data (chunk (x ∷ xs) ∷ map chunk chunks) c)
  unfolding refuse receive_data
  receive_data-torn n data_ other x xs chunks c low high on empty full stream =
      let bytes = x ∷ (xs ++ concat chunks) in
      let refused : IsRefused (next_message bytes) =
        rw (stream ∙ sent-torn_at n data_ other) (torn-IsRefused n data_ other low high) in
      let same = receive_data-chunks x xs chunks c on full in
      let whole =
        receive_data-chunk x (xs ++ concat chunks) [] c on
        ∙ ap (λ b. finish [] (process_buffer (with_buffer (b ++ bytes) c))) empty
        ∙ ap (finish []) (process_buffer-refused (with_buffer bytes c) refused) in
      record {
        returned = same.0 ∙ ap (λ p. p.0) whole;
        hosts = ap (λ d. d.host) same.1 ∙ ap (λ p. p.1.host) whole;
        off = ap (λ d. d.tcp.connected) same.1 ∙ ap (λ p. p.1.tcp.connected) whole;
      }
