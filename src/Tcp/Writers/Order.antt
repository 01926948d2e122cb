-- ===== src/Tcp/Writers/Order.antt =====
-- What any interleaving of two `sendall` leaves of the two frames.
use knot_link_sdk.Base.{
  ℕ, zero, suc, ◌≡◌, sym, ◌∙◌, List, [], ◌∷◌, ◌++◌, append_assoc, append-nil, take, drop,
}
use knot_link_sdk.Wire.{Bytes}
use knot_link_sdk.Tcp.Writers.{Writers, Part, first_sends, second_sends, send_part, send_parts}

-- `zs` is made of the items of `xs` and of `ys`, each in their order.
pub data Merges : Bytes → Bytes → Bytes → Type 0 where
  done : Merges [] [] []
  from_first : {x : ℕ} {xs ys zs : Bytes} → Merges xs ys zs → Merges (x ∷ xs) ys (x ∷ zs)
  from_second : {y : ℕ} {xs ys zs : Bytes} → Merges xs ys zs → Merges xs (y ∷ ys) (y ∷ zs)

Merges-first :
    (n : ℕ) (xs ys zs : Bytes) → Merges (drop n xs) ys zs → Merges xs ys (take n xs ++ zs)
Merges-first zero xs ys zs m = m
Merges-first (suc n) [] ys zs m = m
Merges-first (suc n) (x ∷ xs) ys zs m = from_first (Merges-first n xs ys zs m)

Merges-second :
    (n : ℕ) (xs ys zs : Bytes) → Merges xs (drop n ys) zs → Merges xs ys (take n ys ++ zs)
Merges-second zero xs ys zs m = m
Merges-second (suc n) xs [] zs m = m
Merges-second (suc n) xs (y ∷ ys) zs m = from_second (Merges-second n xs ys zs m)

-- The bytes that the parts send, from here on.
record Sends (w w' : Writers) : Type 0 where
  bytes : Bytes
  sent_then : w'.sent ≡ w.sent ++ bytes
  merges : w'.first ≡ [] → w'.second ≡ [] → Merges w.first w.second bytes

nothing_left : (xs ys : Bytes) → xs ≡ [] → ys ≡ [] → Merges xs ys []
nothing_left [] [] e f = done
nothing_left (x ∷ xs) ys e f = cc
nothing_left xs (y ∷ ys) e f = cc

send_parts-Sends : (parts : List Part) (w : Writers) → Sends w (send_parts parts w)
send_parts-Sends [] w = record {
  bytes = [];
  sent_then = sym (append-nil w.sent);
  merges = nothing_left w.first w.second;
}
send_parts-Sends (first_sends n ∷ parts) w =
    let s = send_parts-Sends parts (send_part (first_sends n) w) in
    record {
      bytes = take n w.first ++ s.bytes;
      sent_then = s.sent_then ∙ append_assoc w.sent (take n w.first) s.bytes;
      merges = λ e f. Merges-first n w.first w.second s.bytes (s.merges e f);
    }
send_parts-Sends (second_sends n ∷ parts) w =
    let s = send_parts-Sends parts (send_part (second_sends n) w) in
    record {
      bytes = take n w.second ++ s.bytes;
      sent_then = s.sent_then ∙ append_assoc w.sent (take n w.second) s.bytes;
      merges = λ e f. Merges-second n w.first w.second s.bytes (s.merges e f);
    }

-- Two threads hand the bytes that they have to send to the system in parts of any size and in any
-- order, until neither has any left. Then what has been sent besides is a merge of the two, in
-- which the bytes of each thread keep their order.
pub send_parts-Merges :
    (parts : List Part) (w : Writers)
    → (send_parts parts w).first ≡ []
    → (send_parts parts w).second ≡ []
    → (bytes : Bytes) × ((send_parts parts w).sent ≡ w.sent ++ bytes)
      × Merges w.first w.second bytes
send_parts-Merges parts w e f =
    let s = send_parts-Sends parts w in (s.bytes, s.sent_then, s.merges e f)
