-- ===== src/Controller/Api/Slices.antt =====
-- The copies of slices in api/v1alpha1/zz_generated.deepcopy.go, over the copy of an element.
use x402_k8s_operator.Base.{◌≡◌, refl, sym, ap, ◌∙◌, none, some, List, ◌∷◌, map, length, All, arith}
use mathlib.Core.Path.{subst}
use x402_k8s_operator.Controller.Api.Regions.{
  Region, read, Slice, elements, next, IsIn, IsNew, Grows, Grows-IsIn, Grows-elements, Grows-IsNew,
  read_new,
}
use x402_k8s_operator.Controller.Api.Copies.{
  copy_each, Memory, Shape, IsStable, IsDeepCopy, All-Valid, All-view, All-New, All-New_before,
  copy_each-IsDeepCopy,
}

-- The region of an element type in a memory, and how an array is added to it.
pub record Area {H : Type 0} (memory : Memory H) (A : Type 0) : Type 0 where
  pub region : H → Region A
  pub put : List A → H → H
  pub extends_grows : (h h' : H) → memory.Extends h h' → Grows (region h) (region h')
  pub region_put : (xs : List A) (h : H) → region (put xs h) ≡ xs ∷ region h
  pub put_extends : (xs : List A) (h : H) → memory.Extends h (put xs h)

module _ {H : Type 0} {memory : Memory H} {A : Type 0} (area : Area memory A) where
  abbrev pub put_copies : List A × H → Slice × H
  put_copies o = (some (next (area.region o.1)), area.put o.0 o.1)

  -- A slice that is not nil gets a new array, with a copy of each element.
  unfoldable pub copy_slice : (A → H → A × H) → Slice → H → Slice × H
  unfolding copy_each read
  copy_slice copy none h = (none, h)
  copy_slice copy (some a) h = put_copies (copy_each copy (read (area.region h) a) h)

  module _ {B : Type 0} (shape : Shape H A B) where
    abbrev pub slice_shape : Shape H Slice (List B)
    slice_shape = record {
      Valid = λ h s. IsIn (area.region h) s × All (shape.Valid h) (elements (area.region h) s);
      New = λ h h' s. IsNew (area.region h) s × All (shape.New h h') (elements (area.region h') s);
      view = λ h s. map (shape.view h) (elements (area.region h) s);
    }

    pub slice-IsStable : IsStable memory shape → IsStable memory slice_shape
    slice-IsStable stable = (
      λ h h' s e (i, vs).
          let grows = area.extends_grows h h' e in
          let same : elements (area.region h') s ≡ elements (area.region h) s =
            Grows-elements (area.region h) (area.region h') s grows i in
          let xs : List A = elements (area.region h) s in
          (
            (
              Grows-IsIn (area.region h) (area.region h') s grows i,
              subst (All (shape.Valid h')) (sym same) (All-Valid memory shape stable h h' xs e vs),
            ),
            ap (map (shape.view h')) same ∙ All-view memory shape stable h h' xs e vs,
            λ before (n, ns). (
              n,
              subst (All (shape.New before h')) (sym same)
                  (All-New memory shape stable before h h' xs e vs ns),
            ),
          ),
      λ before h h' s e (n, ns). (
        Grows-IsNew (area.region before) (area.region h) s (area.extends_grows before h e) n,
        All-New_before memory shape stable before h h' (elements (area.region h') s) e ns,
      ),
    )

    put-IsIn :
        (xs : List A) (h : H) → IsIn (area.region (area.put xs h)) (some (length (area.region h)))
    put-IsIn xs h =
        subst (λ r. IsIn r (some (length (area.region h)))) (sym (area.region_put xs h))
          (omega arith)

    put-elements :
        (xs : List A) (h : H)
        → elements (area.region (area.put xs h)) (some (length (area.region h))) ≡ xs
    put-elements xs h =
        ap (λ r. read r (length (area.region h))) (area.region_put xs h)
        ∙ read_new xs (area.region h)

    pub copy_slice-IsDeepCopy :
        (copy : A → H → A × H)
        → IsStable memory shape
        → IsDeepCopy memory shape copy
        → IsDeepCopy memory slice_shape (copy_slice copy)
    unfolding copy_slice
    copy_slice-IsDeepCopy copy stable deep none h _ =
        (memory.extends_refl h, (tt, tt), (tt, tt), refl)
    copy_slice-IsDeepCopy copy stable deep (some a) h (i, vs) =
        let xs : List A = read (area.region h) a in
        let (e1, vs1, ns1, s1) = copy_each-IsDeepCopy memory shape stable copy deep xs h vs in
        let h1 : H = (copy_each copy xs h).1 in
        let ys : List A = (copy_each copy xs h).0 in
        let h2 : H = area.put ys h1 in
        let e2 = area.put_extends ys h1 in
        let same = put-elements ys h1 in
        (
          memory.extends_trans h h1 h2 e1 e2,
          (
            put-IsIn ys h1,
            subst (All (shape.Valid h2)) (sym same) (All-Valid memory shape stable h1 h2 ys e2 vs1),
          ),
          (
            (area.extends_grows h h1 e1).0,
            subst (All (shape.New h h2)) (sym same)
                (All-New memory shape stable h h1 h2 ys e2 vs1 ns1),
          ),
          ap (map (shape.view h2)) same ∙ All-view memory shape stable h1 h2 ys e2 vs1 ∙ s1,
        )
