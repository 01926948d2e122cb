-- ===== src/Text/Search.antt =====
-- `bytes.index`, `str.split` and slices behind a separator, over sequences of bytes or code points.
pub mod Laws
pub mod Splits
use knot_link_sdk.Base.{
  ℕ, zero, suc, ◌+◌, ◌-◌, Bool, true, false, Option, none, some, List, [], ◌∷◌, ◌++◌, ◌==◌, ltb,
  if◌then◌else◌, length, map,
}
use mathlib.Core.Option

abbrev pub Seq : Type 0
Seq = List ℕ

-- `b'&*&'`, the separator of a key and its payload
abbrev pub separator : Seq
separator = b'&' ∷ b'*' ∷ b'&' ∷ []

-- What follows `sep`, if the sequence begins with it.
pub strip_prefix : Seq → Seq → Option Seq
strip_prefix [] s = some s
strip_prefix (c ∷ sep) [] = none
strip_prefix (c ∷ sep) (x ∷ s) = let rest = strip_prefix sep s in if c == x then rest else none

-- The part before the first occurrence of `sep`, which is not empty, and the part behind it: with
-- `i = s.index(sep)`, `s[:i]` and `s[i + len(sep):]`. `none` is `ValueError`.
pub cut : Seq → Seq → Option (Seq × Seq)
cut sep [] = none
cut sep (x ∷ s) =
    let later = cut sep s in
    elim (strip_prefix sep (x ∷ s)) [
      | some rest ↦ some ([], rest)
      | none ↦ Option.map (λ (p : Seq × Seq). (x ∷ p.0, p.1)) later
    ]

-- `s.split(sep)` with enough rounds for each occurrence.
split_rounds : ℕ → Seq → Seq → List Seq
split_rounds zero sep s = s ∷ []
split_rounds (suc n) sep s = elim (cut sep s) [
  | none ↦ s ∷ []
  | some (part, rest) ↦ part ∷ split_rounds n sep rest
]

pub split : Seq → Seq → List Seq
unfolding split_rounds
split sep s = split_rounds (length s) sep s
