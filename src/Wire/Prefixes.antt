-- ===== src/Wire/Prefixes.antt =====
-- tcpclient.py, `_process_buffer`: a buffer that holds a part of a frame waits for the rest.
use knot_link_sdk.Base.{ℕ, ◌≡◌, refl, sym, ap, ◌∙◌, [], ◌∷◌, ◌++◌, append-nil, arith, length-append}
use knot_link_sdk.Wire.{
  Bytes, frame, IsSendable, Scan, incomplete, bad_magic, bad_length, message, next_message,
}
use knot_link_sdk.Wire.Scanning.{next_message-frame, next_message-append}
use knot_link_sdk.Wire.Kinds.{next_message-append_bad_magic, next_message-append_bad_length}

module _ (part : Bytes) (y : ℕ) (more msg : Bytes) (s : IsSendable msg)
    (split : part ++ y ∷ more ≡ frame msg) where
  whole : next_message (part ++ y ∷ more) ≡ message msg []
  whole = ap next_message (split ∙ sym (append-nil (frame msg))) ∙ next_message-frame msg [] s

  by_kind : (scan : Scan) → next_message part ≡ scan → next_message part ≡ incomplete
  by_kind incomplete e = e
  by_kind bad_magic e = cc (whole, next_message-append_bad_magic part (y ∷ more) e)
  by_kind (bad_length n) e = cc (whole, next_message-append_bad_length part (y ∷ more) n e)
  by_kind (message taken left) e = absurd (
      grind (
        arith,
        whole,
        next_message-append part (y ∷ more) taken left e,
        length-append left (y ∷ more),
      ))

  pub next_message_part : next_message part ≡ incomplete
  next_message_part = by_kind (next_message part) refl
