-- ===== src/Text/Search/Laws.antt =====
-- What `cut` and `split` find, and where.
use knot_link_sdk.Base.{
  ℕ, ◌≤◌, ◌<◌, ◌≡◌, ◌≢◌, refl, ap, sym, ◌∙◌, inl, inr, Option, none, some, [], ◌∷◌, ◌++◌, arith,
  length, length-append, All, Option-cases,
}
use mathlib.Core.Option
use knot_link_sdk.Text.Search.{Seq, strip_prefix, cut}

-- The item does not occur.
abbrev pub Lacks : ℕ → Seq → Type 0
Lacks c = All (λ x. x ≢ c)

strip_prefix-append : (sep rest : Seq) → strip_prefix sep (sep ++ rest) ≡ some rest
unfolding strip_prefix
strip_prefix-append [] rest = refl
strip_prefix-append (c ∷ sep) rest = ground (arith, strip_prefix-append sep rest)

strip_prefix_sound : (sep s rest : Seq) → strip_prefix sep s ≡ some rest → s ≡ sep ++ rest
unfolding strip_prefix
strip_prefix_sound [] s rest e = ground arith
strip_prefix_sound (c ∷ sep) [] rest e = cc
strip_prefix_sound (c ∷ sep) (x ∷ s) rest e = ground (arith, strip_prefix_sound sep s rest)

strip_prefix-ne : (c x : ℕ) (sep s : Seq) → x ≢ c → strip_prefix (c ∷ sep) (x ∷ s) ≡ none
unfolding strip_prefix
strip_prefix-ne c x sep s h = ground arith

abbrev behind : ℕ → Seq × Seq → Seq × Seq
behind x p = (x ∷ p.0, p.1)

cut_here :
    (sep s rest : Seq) (x : ℕ)
    → strip_prefix sep (x ∷ s) ≡ some rest
    → cut sep (x ∷ s) ≡ some ([], rest)
unfolding cut
cut_here sep s rest x e = ground arith

cut_later :
    (sep s : Seq) (x : ℕ)
    → strip_prefix sep (x ∷ s) ≡ none
    → cut sep (x ∷ s) ≡ Option.map (behind x) (cut sep s)
unfolding cut
cut_later sep s x e = ground arith

pub cut-nil : (sep : Seq) → cut sep [] ≡ none
unfolding cut
cut-nil sep = refl

module _ (c : ℕ) (sep : Seq) where
  -- A separator behind a part that lacks its first item is found there.
  pub cut-append :
      (part rest : Seq)
      → Lacks c part
      → cut (c ∷ sep) (part ++ (c ∷ sep ++ rest)) ≡ some (part, rest)
  cut-append [] rest _ =
      cut_here (c ∷ sep) (sep ++ rest) rest c (strip_prefix-append (c ∷ sep) rest)
  cut-append (x ∷ part) rest (h, hs) =
      cut_later (c ∷ sep) (part ++ (c ∷ sep ++ rest)) x (strip_prefix-ne c x sep _ h)
      ∙ ap (Option.map (behind x)) (cut-append part rest hs)

  pub cut-Lacks : (s : Seq) → Lacks c s → cut (c ∷ sep) s ≡ none
  cut-Lacks [] _ = cut-nil (c ∷ sep)
  cut-Lacks (x ∷ s) (h, hs) =
      cut_later (c ∷ sep) s x (strip_prefix-ne c x sep s h)
      ∙ ap (Option.map (behind x)) (cut-Lacks s hs)

  behind-inv :
      (x : ℕ) (o : Option (Seq × Seq)) (part rest : Seq)
      → Option.map (behind x) o ≡ some (part, rest)
      → (part' : Seq) × (o ≡ some (part', rest)) × (part ≡ x ∷ part')
  behind-inv x none part rest e = cc
  behind-inv x (some (p, r)) part rest e = (p, ground arith, ground arith)

  -- What is found is an occurrence.
  pub cut_sound :
      (s part rest : Seq) → cut (c ∷ sep) s ≡ some (part, rest) → s ≡ part ++ (c ∷ sep ++ rest)
  cut_sound [] part rest e = cc (cut-nil (c ∷ sep))
  cut_sound (x ∷ s) part rest e = elim (Option-cases (strip_prefix (c ∷ sep) (x ∷ s))) [
    | inl later ↦
        let (part', found, eq) =
          behind-inv x (cut (c ∷ sep) s) part rest (sym (cut_later (c ∷ sep) s x later) ∙ e) in
        rw eq (ap (λ t. x ∷ t) (cut_sound s part' rest found))
    | inr (r, here) ↦
        ground (arith, cut_here (c ∷ sep) s r x here, strip_prefix_sound (c ∷ sep) (x ∷ s) r)
  ]

  -- The occurrence that is found is the first: none begins earlier.
  pub cut-first :
      (part rest : Seq)
      → (p : Seq) × (r : Seq) × (cut (c ∷ sep) (part ++ (c ∷ sep ++ rest)) ≡ some (p, r))
        × (length p ≤ length part)
  cut-first [] rest = (
    [],
    rest,
    cut_here (c ∷ sep) (sep ++ rest) rest c (strip_prefix-append (c ∷ sep) rest),
    omega arith,
  )
  cut-first (x ∷ part) rest =
      elim (Option-cases (strip_prefix (c ∷ sep) (x ∷ (part ++ (c ∷ sep ++ rest))))) [
        | inr (r, here) ↦
            ([], r, cut_here (c ∷ sep) (part ++ (c ∷ sep ++ rest)) r x here, omega arith)
        | inl later ↦
            let (p, r, found, le) = cut-first part rest in
            (
              x ∷ p,
              r,
              cut_later (c ∷ sep) (part ++ (c ∷ sep ++ rest)) x later
                  ∙ ap (Option.map (behind x)) found,
              omega arith,
            )
      ]

  -- What is behind the separator is shorter.
  pub cut-shrinks :
      (s part rest : Seq) → cut (c ∷ sep) s ≡ some (part, rest) → length rest < length s
  cut-shrinks s part rest e =
      rw (cut_sound s part rest e)
        (omega (arith, length-append part (c ∷ sep ++ rest), length-append sep rest))

part_nil :
    (part rest r : Seq)
    → ◌≡◌ {A = Option (Seq × Seq)} (some ([], r)) (some (part, rest))
    → part ≡ []
part_nil part rest r e = ground arith

map-none : (x : ℕ) (o : Option (Seq × Seq)) → Option.map (behind x) o ≡ none → o ≡ none
map-none x none e = refl
map-none x (some p) e = cc

-- A separator of one item: the part before it lacks that item.
module _ (c : ℕ) where
  strip_one : (x : ℕ) (s : Seq) → strip_prefix (c ∷ []) (x ∷ s) ≡ none → x ≢ c
  unfolding strip_prefix
  strip_one x s e = ground arith

  pub cut-Lacks_part : (s part rest : Seq) → cut (c ∷ []) s ≡ some (part, rest) → Lacks c part
  cut-Lacks_part [] part rest e = cc (cut-nil (c ∷ []))
  cut-Lacks_part (x ∷ s) part rest e = elim (Option-cases (strip_prefix (c ∷ []) (x ∷ s))) [
    | inl later ↦
        let (part', found, eq) =
          behind-inv c [] x (cut (c ∷ []) s) part rest (sym (cut_later (c ∷ []) s x later) ∙ e) in
        rw eq (strip_one x s later, cut-Lacks_part s part' rest found)
    | inr (r, here) ↦ rw (part_nil part rest r (sym (cut_here (c ∷ []) s r x here) ∙ e)) tt
  ]

  pub cut-none-Lacks : (s : Seq) → cut (c ∷ []) s ≡ none → Lacks c s
  cut-none-Lacks [] e = tt
  cut-none-Lacks (x ∷ s) e = elim (Option-cases (strip_prefix (c ∷ []) (x ∷ s))) [
    | inl later ↦ (
      strip_one x s later,
      cut-none-Lacks s (map-none x (cut (c ∷ []) s) (sym (cut_later (c ∷ []) s x later) ∙ e)),
    )
    | inr (r, here) ↦ cc (cut_here (c ∷ []) s r x here)
  ]
