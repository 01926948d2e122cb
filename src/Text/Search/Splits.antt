-- ===== src/Text/Search/Splits.antt =====
-- `str.split`: one part after the other, and that the rounds are enough.
use knot_link_sdk.Base.{
  ℕ, zero, suc, ◌≤◌, ◌<◌, ◌≡◌, refl, ap, sym, ◌∙◌, inl, inr, none, some, [], ◌∷◌, arith, length,
  All, Option-cases,
}
use knot_link_sdk.Text.Search.{Seq, cut, split_rounds, split}
use knot_link_sdk.Text.Search.Laws.{Lacks, cut-nil, cut-shrinks, cut-Lacks_part, cut-none-Lacks}

module _ (c : ℕ) (sep : Seq) where
  rounds-none : (n : ℕ) (s : Seq) → cut (c ∷ sep) s ≡ none → split_rounds n (c ∷ sep) s ≡ s ∷ []
  unfolding split_rounds
  rounds-none zero s e = refl
  rounds-none (suc n) s e = ground arith

  rounds-some :
      (n : ℕ) (s part rest : Seq)
      → cut (c ∷ sep) s ≡ some (part, rest)
      → split_rounds (suc n) (c ∷ sep) s ≡ part ∷ split_rounds n (c ∷ sep) rest
  unfolding split_rounds
  rounds-some n s part rest e = ground arith

  enough :
      (n m : ℕ) (s : Seq)
      → length s ≤ n
      → length s ≤ m
      → split_rounds n (c ∷ sep) s ≡ split_rounds m (c ∷ sep) s
  enough zero m [] hn hm =
      rounds-none zero [] (cut-nil (c ∷ sep)) ∙ sym (rounds-none m [] (cut-nil (c ∷ sep)))
  enough zero m (x ∷ s) hn hm = absurd (omega arith)
  enough (suc n) zero [] hn hm =
      rounds-none (suc n) [] (cut-nil (c ∷ sep)) ∙ sym (rounds-none zero [] (cut-nil (c ∷ sep)))
  enough (suc n) zero (x ∷ s) hn hm = absurd (omega arith)
  enough (suc n) (suc m) s hn hm = elim (Option-cases (cut (c ∷ sep) s)) [
    | inl e ↦ rounds-none (suc n) s e ∙ sym (rounds-none (suc m) s e)
    | inr ((part, rest), e) ↦
        let shorter = cut-shrinks c sep s part rest e in
        rounds-some n s part rest e
        ∙ ap (λ ps. part ∷ ps) (enough n m rest (omega arith) (omega arith))
        ∙ sym (rounds-some m s part rest e)
  ]

  -- Without an occurrence the text is the only part.
  pub split-none : (s : Seq) → cut (c ∷ sep) s ≡ none → split (c ∷ sep) s ≡ s ∷ []
  unfolding split
  split-none s e = rounds-none (length s) s e

  -- Else the parts are what stands before the first occurrence, and the parts of what is behind it.
  pub split-some :
      (s part rest : Seq)
      → cut (c ∷ sep) s ≡ some (part, rest)
      → split (c ∷ sep) s ≡ part ∷ split (c ∷ sep) rest
  unfolding split
  split-some s part rest e =
      let shorter = cut-shrinks c sep s part rest e in
      enough (length s) (suc (length s)) s (omega arith) (omega arith)
      ∙ rounds-some (length s) s part rest e
      ∙ ap (λ ps. part ∷ ps) (enough (length s) (length rest) rest (omega arith) (omega arith))

module _ (c : ℕ) where
  parts_lack : (n : ℕ) (s : Seq) → length s < n → All (Lacks c) (split (c ∷ []) s)
  parts_lack zero s h = absurd (omega arith)
  parts_lack (suc n) s h = elim (Option-cases (cut (c ∷ []) s)) [
    | inl e ↦ rw (split-none c [] s e) (cut-none-Lacks c s e, tt)
    | inr ((part, rest), e) ↦
        let shorter = cut-shrinks c [] s part rest e in
        rw (split-some c [] s part rest e)
          (cut-Lacks_part c s part rest e, parts_lack n rest (omega arith))
  ]

  -- No part of a split holds the separator.
  pub split-Lacks : (s : Seq) → All (Lacks c) (split (c ∷ []) s)
  split-Lacks s = parts_lack (suc (length s)) s (omega arith)
