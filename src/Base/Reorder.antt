-- ===== src/Base/Reorder.antt =====
-- Reorderings of a list, as the order of an iteration over a Go map.
use mathlib.Core.List.{Permᴰ}
use x402_k8s_operator.Base.{suc, ◌≡◌, refl, sym, ap, ◌∙◌}
use x402_k8s_operator.Base.{inl, inr}
use x402_k8s_operator.Base.{List, [], ◌∷◌, arith}
use x402_k8s_operator.Base.{length, All, Elem}

module _ {A : Type 0} where
  pub All-reorder : (P : A → Type 0) {xs ys : List A} → Permᴰ xs ys → All P xs → All P ys
  All-reorder P Permᴰ.nil h = tt
  All-reorder P (Permᴰ.cons e d) (p, h) = (rw e at p, All-reorder P d h)
  All-reorder P (Permᴰ.swap e f) (p, (q, h)) = (rw f at q, (rw e at p, h))
  All-reorder P (Permᴰ.trans d d') h = All-reorder P d' (All-reorder P d h)

  pub Elem-reorder : (a : A) {xs ys : List A} → Permᴰ xs ys → Elem a xs → Elem a ys
  Elem-reorder a Permᴰ.nil h = h
  Elem-reorder a (Permᴰ.cons e d) (inl p) = inl (p ∙ e)
  Elem-reorder a (Permᴰ.cons e d) (inr h) = inr (Elem-reorder a d h)
  Elem-reorder a (Permᴰ.swap e f) (inl p) = inr (inl (p ∙ e))
  Elem-reorder a (Permᴰ.swap e f) (inr (inl p)) = inl (p ∙ f)
  Elem-reorder a (Permᴰ.swap e f) (inr (inr h)) = inr (inr h)
  Elem-reorder a (Permᴰ.trans d d') h = Elem-reorder a d' (Elem-reorder a d h)

  pub reorder_refl : (xs : List A) → Permᴰ xs xs
  reorder_refl [] = Permᴰ.nil
  reorder_refl (x ∷ xs) = Permᴰ.cons refl (reorder_refl xs)

  -- Any element can come first.
  pub reorder_first : (a : A) (xs : List A) → Elem a xs → (rest : List A) × Permᴰ xs (a ∷ rest)
  reorder_first a [] h = absurd h
  reorder_first a (x ∷ xs) (inl e) = (xs, Permᴰ.cons (sym e) (reorder_refl xs))
  reorder_first a (x ∷ xs) (inr h) =
      let (rest, d) = reorder_first a xs h in
      (x ∷ rest, Permᴰ.trans (Permᴰ.cons refl d) (Permᴰ.swap refl refl))

  pub Elem_All : (P : A → Type 0) (a : A) (xs : List A) → All P xs → Elem a xs → P a
  Elem_All P a [] h m = absurd m
  Elem_All P a (x ∷ xs) (p, h) (inl e) = rw (e) p
  Elem_All P a (x ∷ xs) (p, h) (inr m) = Elem_All P a xs h m

module _ {A : Type 0} where
  pub symm : {xs ys : List A} → Permᴰ xs ys → Permᴰ ys xs
  symm Permᴰ.nil = Permᴰ.nil
  symm (Permᴰ.cons e d) = Permᴰ.cons (sym e) (symm d)
  symm (Permᴰ.swap e f) = Permᴰ.swap (sym f) (sym e)
  symm (Permᴰ.trans d d') = Permᴰ.trans (symm d') (symm d)

  pub length_reorder : {xs ys : List A} → Permᴰ xs ys → length xs ≡ length ys
  length_reorder Permᴰ.nil = refl
  length_reorder (Permᴰ.cons e d) = ap suc (length_reorder d)
  length_reorder (Permᴰ.swap e f) = refl
  length_reorder (Permᴰ.trans d d') = length_reorder d ∙ length_reorder d'

  nil_of_length : (xs : List A) → length xs ≡ 0 → xs ≡ []
  nil_of_length [] h = refl
  nil_of_length (x ∷ xs) h = absurd (omega arith)

  pub reorder_nil : {xs : List A} → Permᴰ [] xs → xs ≡ []
  reorder_nil {xs} d = nil_of_length xs (sym (length_reorder d))
