-- ===== src/Controller/Api/Copies.antt =====
-- What a deep copy in a memory of regions promises, and that a copy of a slice keeps the promise of
-- the copy of its elements.
use x402_k8s_operator.Base.{◌≡◌, refl, List, [], ◌∷◌, map, All}

-- A loop of copies.
unfoldable pub copy_each : {A H : Type 0} → (A → H → A × H) → List A → H → List A × H
copy_each copy [] h = ([], h)
copy_each copy (a ∷ rest) h =
    let o = copy a h in let others = copy_each copy rest o.1 in (o.0 ∷ others.0, others.1)

-- A memory with an order of growth.
pub record Memory (H : Type 0) : Type 1 where
  pub Extends : H → H → Type 0
  pub extends_refl : (h : H) → Extends h h
  pub extends_trans : (h h' h'' : H) → Extends h h' → Extends h' h'' → Extends h h''

-- The values of a type in a memory: whether what a value refers to is there, whether all of it is
-- newer than another memory, and what the value stands for.
pub record Shape (H A B : Type 0) : Type 1 where
  pub Valid : H → A → Type 0
  pub New : H → H → A → Type 0
  pub view : H → A → B

module _ {H : Type 0} (memory : Memory H) {A B : Type 0} (shape : Shape H A B) where
  -- A valid value stays and stands for the same in a memory that has grown, and what is newer than a
  -- memory is newer than one before it.
  abbrev pub IsStable : Type 0
  IsStable =
      ((h h' : H) (a : A)
        → memory.Extends h h'
        → shape.Valid h a
        → shape.Valid h' a
          × (shape.view h' a ≡ shape.view h a)
          × ((before : H) → shape.New before h a → shape.New before h' a))
      × ((before h h' : H) (a : A)
          → memory.Extends before h
          → shape.New h h' a
          → shape.New before h' a)

  -- The copy of a valid value leaves what there was, stands for the same, and refers to new arrays
  -- only.
  abbrev pub IsDeepCopy : (A → H → A × H) → Type 0
  IsDeepCopy copy =
      (a : A) (h : H)
      → shape.Valid h a
      → memory.Extends h (copy a h).1
        × shape.Valid (copy a h).1 (copy a h).0
        × shape.New h (copy a h).1 (copy a h).0
        × (shape.view (copy a h).1 (copy a h).0 ≡ shape.view h a)

  module _ (stable : IsStable) where
    pub All-Valid :
        (h h' : H) (xs : List A)
        → memory.Extends h h'
        → All (shape.Valid h) xs
        → All (shape.Valid h') xs
    All-Valid h h' [] e _ = tt
    All-Valid h h' (a ∷ xs) e (v, vs) = ((stable.0 h h' a e v).0, All-Valid h h' xs e vs)

    pub All-view :
        (h h' : H) (xs : List A)
        → memory.Extends h h'
        → All (shape.Valid h) xs
        → map (shape.view h') xs ≡ map (shape.view h) xs
    All-view h h' [] e _ = refl
    All-view h h' (a ∷ xs) e (v, vs) = rw ((stable.0 h h' a e v).1, All-view h h' xs e vs)

    pub All-New :
        (before h h' : H) (xs : List A)
        → memory.Extends h h'
        → All (shape.Valid h) xs
        → All (shape.New before h) xs
        → All (shape.New before h') xs
    All-New before h h' [] e _ _ = tt
    All-New before h h' (a ∷ xs) e (v, vs) (n, ns) =
        ((stable.0 h h' a e v).2 before n, All-New before h h' xs e vs ns)

    pub All-New_before :
        (before h h' : H) (xs : List A)
        → memory.Extends before h
        → All (shape.New h h') xs
        → All (shape.New before h') xs
    All-New_before before h h' [] e _ = tt
    All-New_before before h h' (a ∷ xs) e (n, ns) =
        (stable.1 before h h' a e n, All-New_before before h h' xs e ns)

    pub copy_each-IsDeepCopy :
        (copy : A → H → A × H)
        → IsDeepCopy copy
        → (xs : List A) (h : H) → All (shape.Valid h) xs
        → memory.Extends h (copy_each copy xs h).1
          × All (shape.Valid (copy_each copy xs h).1) (copy_each copy xs h).0
          × All (shape.New h (copy_each copy xs h).1) (copy_each copy xs h).0
          × (map (shape.view (copy_each copy xs h).1) (copy_each copy xs h).0
              ≡ map (shape.view h) xs)
    unfolding copy_each
    copy_each-IsDeepCopy copy deep [] h _ = (memory.extends_refl h, tt, tt, refl)
    copy_each-IsDeepCopy copy deep (a ∷ xs) h (v, vs) =
        let (e1, v1, n1, s1) = deep a h v in
        let h1 : H = (copy a h).1 in
        let (e2, v2, n2, s2) = copy_each-IsDeepCopy copy deep xs h1 (All-Valid h h1 xs e1 vs) in
        let h2 : H = (copy_each copy xs h1).1 in
        let (v1', s1', n1') = stable.0 h1 h2 (copy a h).0 e2 v1 in
        (
          memory.extends_trans h h1 h2 e1 e2,
          (v1', v2),
          (n1' h n1, All-New_before h h1 h2 _ e1 n2),
          rw (s1', s1, s2, All-view h h1 xs e1 vs),
        )
