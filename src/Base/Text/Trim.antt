-- ===== src/Base/Text/Trim.antt =====
-- Trimming one byte off the ends of a text.
use x402_k8s_operator.Base.{
  ℕ, zero, suc, ◌≡◌, refl, sym, ap, ◌∙◌, append_assoc, append-nil, length, length-append,
}
use x402_k8s_operator.Base.{◌≢◌, inl, inr}
use x402_k8s_operator.Base.{[], ◌∷◌, ◌++◌, arith}
use x402_k8s_operator.Base.{◌⊎◌, inl, inr, if◌then◌else◌, Str, eqb}
use x402_k8s_operator.Base.{Bool-cases}
use x402_k8s_operator.Base.Text.{is_empty, push_unless, trim_right, trim_left, trim}

-- n copies of a byte
abbrev pub replicate : ℕ → ℕ → Str
replicate zero b = []
replicate (suc n) b = b ∷ replicate n b

abbrev pub EndsIn : ℕ → Str → Type 0
EndsIn b s = (p : Str) × (s ≡ p ++ b ∷ [])

module _ (cut : ℕ) where
  trim_right_end : trim_right (cut ∷ []) cut ≡ []
  unfolding trim_right
  trim_right_end = ground arith

  -- One more byte of the cutset at the end is trimmed.
  pub trim_right-concat : (s : Str) → trim_right (s ++ cut ∷ []) cut ≡ trim_right s cut
  unfolding trim_right
  trim_right-concat [] = ground arith
  trim_right-concat (c ∷ s) = ap (push_unless cut c) (trim_right-concat s)

  -- A text that ends in another byte keeps all of itself.
  pub trim_right_keep : (s : Str) (c : ℕ) → c ≢ cut → trim_right (s ++ c ∷ []) cut ≡ s ++ c ∷ []
  unfolding trim_right
  trim_right_keep [] c h = ground arith
  trim_right_keep (d ∷ []) c h = ground arith
  trim_right_keep (d ∷ e ∷ s) c h = rw (trim_right_keep (e ∷ s) c h)

  push_unless_split :
      (c : ℕ) (s r : Str) (n : ℕ)
      → s ≡ r ++ replicate n cut
      → (m : ℕ) × (c ∷ s ≡ push_unless cut c r ++ replicate m cut)
  push_unless_split c s (d ∷ r) n e = (n, ap (λ t. c ∷ t) e)
  push_unless_split c s [] n e = elim (Bool-cases (eqb c cut)) [
    | inl same ↦ (suc n, rw same (ground arith))
    | inr other ↦ (n, rw other (ground arith))
  ]

  -- What is trimmed is copies of the byte.
  pub trim_right_split : (s : Str) → (n : ℕ) × (s ≡ trim_right s cut ++ replicate n cut)
  unfolding trim_right
  trim_right_split [] = (0, refl)
  trim_right_split (c ∷ s) =
      let (n, e) = trim_right_split s in push_unless_split c s (trim_right s cut) n e

  -- A text and that text with one more byte of the cutset behind it trim to the same.
  pub trim-concat : (s : Str) → trim (s ++ cut ∷ []) cut ≡ trim s cut
  unfolding trim
  trim-concat s = ap (λ t. trim_left t cut) (trim_right-concat s)

  push_unless-append :
      (c : ℕ) (s : Str) (d : ℕ) (r : Str) → push_unless cut c (s ++ d ∷ r) ≡ c ∷ (s ++ d ∷ r)
  push_unless-append c [] d r = refl
  push_unless-append c (b ∷ s) d r = refl

  -- Trimming stops at the last byte of the second text that is not of the cutset, if there is one.
  pub trim_right-append :
      (s t : Str)
      → trim_right (s ++ t) cut
        ≡ (if is_empty (trim_right t cut) then trim_right s cut else s ++ trim_right t cut)
  unfolding trim_right
  trim_right-append [] t = ground arith
  trim_right-append (c ∷ s) t = rw (trim_right-append s t) (behind (trim_right t cut))
    where
      behind :
          (r : Str)
          → push_unless cut c (if is_empty r then trim_right s cut else s ++ r)
            ≡ (if is_empty r then push_unless cut c (trim_right s cut) else c ∷ (s ++ r))
      behind [] = refl
      behind (d ∷ r) = push_unless-append c s d r

  -- A text that begins with a byte of the cutset is trimmed away, or keeps that byte.
  pub trim_right-cons :
      (t : Str)
      → (trim_right (cut ∷ t) cut ≡ []) ⊎ ((r : Str) × (trim_right (cut ∷ t) cut ≡ cut ∷ r))
  unfolding trim_right
  trim_right-cons t = first (trim_right t cut)
    where
      first :
          (r : Str)
          → (push_unless cut cut r ≡ []) ⊎ ((r' : Str) × (push_unless cut cut r ≡ cut ∷ r'))
      first [] = inl (ground arith)
      first (d ∷ r) = inr (d ∷ r, refl)

  push_unless-ne-cut : (c : ℕ) (r : Str) → push_unless cut c r ≢ cut ∷ []
  push_unless-ne-cut c [] e = ground arith
  push_unless-ne-cut c (d ∷ r) e = cc e

  -- What is left is never the byte that is cut.
  pub trim_right-ne-cut : (s : Str) → trim_right s cut ≢ cut ∷ []
  unfolding trim_right
  trim_right-ne-cut [] e = cc e
  trim_right-ne-cut (c ∷ s) e = push_unless-ne-cut c (trim_right s cut) e

  replicate-last : (n : ℕ) → replicate (suc n) cut ≡ replicate n cut ++ cut ∷ []
  replicate-last zero = refl
  replicate-last (suc n) = ap (λ t. cut ∷ t) (replicate-last n)

  trim_right-replicate :
      (s : Str) (n : ℕ) → trim_right (s ++ replicate n cut) cut ≡ trim_right s cut
  trim_right-replicate s zero = ap (λ t. trim_right t cut) (append-nil s)
  trim_right-replicate s (suc n) =
      ap (λ t. trim_right t cut) (sym (append_assoc s (cut ∷ []) (replicate n cut)))
      ∙ trim_right-replicate (s ++ cut ∷ []) n
      ∙ trim_right-concat s

  -- The second text is the first without the copies of the byte at its end.
  abbrev pub IsTrimmed : Str → Str → Type 0
  IsTrimmed s t = (¬ EndsIn cut t) × ((n : ℕ) × (s ≡ t ++ replicate n cut))

  whole_of_split : (s r : Str) (n : ℕ) → ¬ EndsIn cut s → s ≡ r ++ replicate n cut → r ≡ s
  whole_of_split s r zero h e = sym (e ∙ append-nil r)
  whole_of_split s r (suc n) h e = absurd (
      h (
        r ++ replicate n cut,
        e ∙ ap (λ t. r ++ t) (replicate-last n) ∙ sym (append_assoc r (replicate n cut) (cut ∷ [])),
      ))

  trim_right_whole : (s : Str) → ¬ EndsIn cut s → trim_right s cut ≡ s
  trim_right_whole s h =
      let (n, e) = trim_right_split s in whole_of_split s (trim_right s cut) n h e

  pub IsTrimmed-unique : (s t : Str) → IsTrimmed s t → trim_right s cut ≡ t
  IsTrimmed-unique s t (kept, (n, e)) =
      ap (λ x. trim_right x cut) e ∙ trim_right-replicate t n ∙ trim_right_whole t kept

  trim_right-kept : (s : Str) → ¬ EndsIn cut (trim_right s cut)
  trim_right-kept s (p, e) =
      let (n, split) = trim_right_split s in
      let (m, split2) = trim_right_split p in
      let again : trim_right s cut ≡ trim_right p cut =
        ap (λ x. trim_right x cut) split
        ∙ trim_right-replicate (trim_right s cut) n
        ∙ ap (λ x. trim_right x cut) e
        ∙ trim_right-concat p in
      absurd (
        omega (
          arith,
          ap length e,
          ap length again,
          length-append p (cut ∷ []),
          ap length split2,
          length-append (trim_right p cut) (replicate m cut),
        ))

  pub trim_right-IsTrimmed : (s : Str) → IsTrimmed s (trim_right s cut)
  trim_right-IsTrimmed s = (trim_right-kept s, trim_right_split s)
