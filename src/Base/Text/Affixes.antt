-- ===== src/Base/Text/Affixes.antt =====
-- Prefixes, suffixes and what trimming a suffix leaves.
use x402_k8s_operator.Base.{◌≡◌, refl, sym, ap, ◌∙◌, ◌⊎◌}
use x402_k8s_operator.Base.{◌≢◌, ◌↔◌, inl, inr, true, false}
use x402_k8s_operator.Base.{[], ◌∷◌, ◌++◌, arith}
use x402_k8s_operator.Base.{Str, ◌==◌, ==_iff, ==_refl, ==_ne}
use x402_k8s_operator.Base.{Bool-cases, length, length-append}
use x402_k8s_operator.Base.Text.{is_empty, has_prefix, has_suffix, trim_suffix}

pub is_empty_iff : (s : Str) → (is_empty s ≡ true) ↔ (s ≡ [])
is_empty_iff [] = ground arith
is_empty_iff (c ∷ s) = ground arith

pub has_prefix-append : (p rest : Str) → has_prefix (p ++ rest) p ≡ true
unfolding has_prefix
has_prefix-append [] [] = refl
has_prefix-append [] (c ∷ rest) = refl
has_prefix-append (c ∷ p) rest = ground (arith, has_prefix-append p rest)

pub has_prefix_split : (s p : Str) → has_prefix s p ≡ true → (rest : Str) × (s ≡ p ++ rest)
unfolding has_prefix
has_prefix_split [] [] h = ([], refl)
has_prefix_split (d ∷ s) [] h = (d ∷ s, refl)
has_prefix_split [] (c ∷ p) h = cc
has_prefix_split (d ∷ s) (c ∷ p) h =
    let (rest, e) = has_prefix_split s p (ground arith) in (rest, ground arith)

-- A prefix is what the text begins with.
pub has_prefix_iff : (s p : Str) → (has_prefix s p ≡ true) ↔ ((rest : Str) × (s ≡ p ++ rest))
has_prefix_iff s p = (has_prefix_split s p, λ (rest, e). rw e (has_prefix-append p rest))

pub has_suffix-append : (p suffix : Str) → has_suffix (p ++ suffix) suffix ≡ true
unfolding has_suffix ◌==◌
has_suffix-append [] [] = refl
has_suffix-append [] (c ∷ s) = ground (arith, ==_refl s)
has_suffix-append (c ∷ p) suffix = ground (arith, has_suffix-append p suffix)

pub has_suffix_split : (s suffix : Str) → has_suffix s suffix ≡ true → (p : Str) × (s ≡ p ++ suffix)
unfolding has_suffix
has_suffix_split [] suffix h = ([], (==_iff [] suffix).0 h)
has_suffix_split (c ∷ s) suffix h = elim (Bool-cases ((c ∷ s) == suffix)) [
  | inl same ↦ ([], (==_iff (c ∷ s) suffix).0 same)
  | inr other ↦ let (p, e) = has_suffix_split s suffix (ground arith) in (c ∷ p, ap (λ t. c ∷ t) e)
]

-- The text ends in this.
abbrev pub EndsWith : Str → Str → Type 0
EndsWith s suffix = (p : Str) × (s ≡ p ++ suffix)

pub has_suffix_iff : (s suffix : Str) → (has_suffix s suffix ≡ true) ↔ EndsWith s suffix
has_suffix_iff s suffix = (has_suffix_split s suffix, λ (p, e). rw e (has_suffix-append p suffix))

not-append-eq_self : (c : _) (p suffix : Str) → (c ∷ p) ++ suffix ≢ suffix
not-append-eq_self c p suffix e = absurd (omega (arith, ap length e, length-append (c ∷ p) suffix))

-- Trimming the suffix of a text that ends in it gives what stands before it.
pub trim_suffix-append : (p suffix : Str) → trim_suffix (p ++ suffix) suffix ≡ p
unfolding trim_suffix
trim_suffix-append [] [] = refl
trim_suffix-append [] (c ∷ s) = rw (==_refl (c ∷ s))
trim_suffix-append (c ∷ p) suffix =
    rw (==_ne _ _ (not-append-eq_self c p suffix), trim_suffix-append p suffix)

-- A text without the suffix is kept.
pub trim_suffix_keep : (s suffix : Str) → has_suffix s suffix ≡ false → trim_suffix s suffix ≡ s
unfolding trim_suffix has_suffix
trim_suffix_keep [] suffix h = refl
trim_suffix_keep (c ∷ s) suffix h = elim (Bool-cases ((c ∷ s) == suffix)) [
  | inl same ↦ cc (rw same at h)
  | inr other ↦ rw (other, trim_suffix_keep s suffix (rw other at h))
]

-- The second text is the first without the suffix, if it has it.
abbrev pub Strips : Str → Str → Str → Type 0
Strips suffix s t = (s ≡ t ++ suffix) ⊎ ((¬ EndsWith s suffix) × (s ≡ t))

pub trim_suffix-Strips : (suffix s : Str) → Strips suffix s (trim_suffix s suffix)
trim_suffix-Strips suffix s = elim (Bool-cases (has_suffix s suffix)) [
  | inl ends ↦
      let (p, e) = has_suffix_split s suffix ends in
      inl (
        e
        ∙ ap (λ t. t ++ suffix)
            (sym (trim_suffix-append p suffix) ∙ sym (ap (λ t. trim_suffix t suffix) e)))
  | inr other ↦ inr (
    (λ ends. cc ((has_suffix_iff s suffix).1 ends, other)),
    sym (trim_suffix_keep s suffix other),
  )
]

pub Strips-unique : (suffix s t : Str) → Strips suffix s t → trim_suffix s suffix ≡ t
Strips-unique suffix s t (inl e) = rw e (trim_suffix-append t suffix)
Strips-unique suffix s t (inr (plain, e)) = elim (Bool-cases (has_suffix s suffix)) [
  | inl ends ↦ absurd (plain ((has_suffix_iff s suffix).0 ends))
  | inr other ↦ trim_suffix_keep s suffix other ∙ e
]
