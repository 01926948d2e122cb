-- ===== src/Tcp/Streams.antt =====
-- tcpclient.py: the form of the bytes that a client has sent.
use knot_link_sdk.Base.{
  ℕ, ◌≤◌, ◌≡◌, refl, ap, ◌∙◌, sym, ◌⊎◌, inl, inr, Bool, true, false, List, [], ◌∷◌, ◌++◌,
  append_assoc, append-nil, length, take, drop, take-append-drop, All, All-append,
}
use knot_link_sdk.Wire.{Bytes, max_msg_size, frame}
use knot_link_sdk.Tcp.Frames.{frames}

abbrev pub IsInLimit : Bytes → Type 0
IsInLimit data_ = length data_ ≤ max_msg_size

-- The bytes sent are whole frames, then perhaps a part of one more; after such a part the client is
-- not connected.
pub record IsStream (connected : Bool) (sent : Bytes) : Type 0 where
  pub msgs : List Bytes
  pub part : Bytes
  pub split : sent ≡ frames msgs ++ part
  pub fits : All IsInLimit msgs
  pub cut : (part ≡ []) ⊎ ((msg more : Bytes) × (frame msg ≡ part ++ more) × (connected ≡ false))

pub frames-append : (xs ys : List Bytes) → frames (xs ++ ys) ≡ frames xs ++ frames ys
frames-append [] ys = refl
frames-append (x ∷ xs) ys = rw (frames-append xs ys, append_assoc (frame x) (frames xs) (frames ys))

pub IsStream-empty : (on : Bool) → IsStream on []
IsStream-empty on = record { msgs = []; part = []; split = refl; fits = tt; cut = inl refl }

cut_off :
    {on : Bool} (part : Bytes)
    → (part ≡ []) ⊎ ((msg more : Bytes) × (frame msg ≡ part ++ more) × (on ≡ false))
    → (part ≡ []) ⊎ ((msg more : Bytes) × (frame msg ≡ part ++ more) × (false ≡ false))
cut_off part (inl none_left) = inl none_left
cut_off part (inr (msg, more, e, _)) = inr (msg, more, e, refl)

pub IsStream-off : (on : Bool) (sent : Bytes) → IsStream on sent → IsStream false sent
IsStream-off on sent s = record {
  msgs = s.msgs;
  part = s.part;
  split = s.split;
  fits = s.fits;
  cut = cut_off s.part s.cut;
}

module _ (on : Bool) (sent msg : Bytes) (is_on : on ≡ true) (s : IsStream on sent) where
  no_part :
      (part : Bytes)
      → (part ≡ []) ⊎ ((m more : Bytes) × (frame m ≡ part ++ more) × (on ≡ false))
      → frames s.msgs ++ part ≡ frames s.msgs
  no_part part (inl e) = rw e (append-nil (frames s.msgs))
  no_part part (inr (m, more, e, off)) = cc

  -- While the client is connected there is no part.
  pub sent-connected : sent ≡ frames s.msgs
  sent-connected = s.split ∙ no_part s.part s.cut

  pub IsStream-whole : IsInLimit msg → IsStream on (sent ++ frame msg)
  IsStream-whole fit = record {
    msgs = s.msgs ++ msg ∷ [];
    part = [];
    split = ap (λ b. b ++ frame msg) sent-connected ∙ simp (frames-append, append-nil);
    fits = All-append IsInLimit s.msgs (msg ∷ []) s.fits (fit, tt);
    cut = inl refl;
  }

  pub IsStream-broken : (n : ℕ) → IsStream false (sent ++ take n (frame msg))
  IsStream-broken n = record {
    msgs = s.msgs;
    part = take n (frame msg);
    split = ap (λ b. b ++ take n (frame msg)) sent-connected;
    fits = s.fits;
    cut = inr (msg, drop n (frame msg), sym (take-append-drop n (frame msg)), refl);
  }
