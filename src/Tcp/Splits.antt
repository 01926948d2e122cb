-- ===== src/Tcp/Splits.antt =====
-- The first bytes of a stream of frames: whole frames, and a part of the next one.
use knot_link_sdk.Base.{
  ◌≡◌, refl, ap, sym, ◌∙◌, inl, inr, List, [], ◌∷◌, ◌++◌, append_assoc, append_split, append-empty,
  arith, All,
}
use knot_link_sdk.Wire.{Bytes, IsSendable, frame, incomplete, next_message}
use knot_link_sdk.Wire.Scanning.{next_message_short}
use knot_link_sdk.Wire.Prefixes.{next_message_part}
use knot_link_sdk.Tcp.Frames.{frames}

-- How far the bytes reach into the stream of these messages.
pub record Split (msgs : List Bytes) (bytes rest : Bytes) : Type 0 where
  pub now : List Bytes
  pub later : List Bytes
  pub part : Bytes
  pub all : msgs ≡ now ++ later
  pub taken : bytes ≡ frames now ++ part
  pub left : part ++ rest ≡ frames later
  pub waits : next_message part ≡ incomplete

pub Split-frames :
    (msgs : List Bytes) (bytes rest : Bytes)
    → All IsSendable msgs
    → bytes ++ rest ≡ frames msgs
    → Split msgs bytes rest
Split-frames [] bytes rest _ e = record {
  now = [];
  later = [];
  part = bytes;
  all = refl;
  taken = refl;
  left = e;
  waits = ap next_message (append-empty bytes rest e) ∙ next_message_short [] (omega arith);
}
Split-frames (msg ∷ msgs) bytes rest (s, ss) e =
    elim (append_split bytes rest (frame msg) (frames msgs) e) [
      | inl (more, cut, e') ↦
          let h = Split-frames msgs more rest ss e' in
          record {
            now = msg ∷ h.now;
            later = h.later;
            part = h.part;
            all = ap (λ xs. msg ∷ xs) h.all;
            taken =
                cut
                ∙ ap (λ b. frame msg ++ b) h.taken
                ∙ sym (append_assoc (frame msg) (frames h.now) h.part);
            left = h.left;
            waits = h.waits;
          }
      | inr (y, more, cut) ↦ record {
        now = [];
        later = msg ∷ msgs;
        part = bytes;
        all = refl;
        taken = refl;
        left = e;
        waits = next_message_part bytes y more msg s cut;
      }
    ]
