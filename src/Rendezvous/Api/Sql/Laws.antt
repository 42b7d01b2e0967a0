-- ===== src/Rendezvous/Api/Sql/Laws.antt =====
-- Laws of the statements on tables.
use mathlib.Core.List.{Memᴰ}
use reachmydevice.Prelude.{
  ℕ, ◌≤◌, ◌≡◌, refl, sym, subst, Bool, true, false, ◌&&◌, ◌||◌, none, some, List, [], ◌∷◌, ◌++◌,
  arith, ◌==◌, if◌then◌else◌, All, Bool-cases, inl, inr,
}
use reachmydevice.Rendezvous.Api.Sql.{select_first, exists_row, update_where, delete_where, next_id}

module _ {A : Type 0} where
  -- No two rows agree by the test.
  abbrev pub Distinct : (A → A → Bool) → List A → Type 0
  Distinct q [] = Unit
  Distinct q (r ∷ rs) = (exists_row (q r) rs ≡ false) × Distinct q rs

  pub exists_row-append :
      (p : A → Bool) (xs ys : List A)
      → exists_row p (xs ++ ys) ≡ (exists_row p xs || exists_row p ys)
  unfolding exists_row
  exists_row-append p [] ys = refl
  exists_row-append p (x ∷ xs) ys = ground (arith, exists_row-append p xs ys)

  pub exists_row-delete_where :
      (p q : A → Bool) (xs : List A)
      → exists_row p xs ≡ false
      → exists_row p (delete_where q xs) ≡ false
  unfolding exists_row delete_where
  exists_row-delete_where p q [] h = refl
  exists_row-delete_where p q (x ∷ xs) h = ground (arith, exists_row-delete_where p q xs)

  -- A row that a deletion does not hit stays.
  pub exists_row-spared :
      (p q : A → Bool) (xs : List A)
      → exists_row p xs ≡ true
      → exists_row (λ r. q r && p r) xs ≡ false
      → exists_row p (delete_where q xs) ≡ true
  unfolding exists_row delete_where
  exists_row-spared p q [] h k = h
  exists_row-spared p q (x ∷ xs) h k = ground (arith, exists_row-spared p q xs)

  pub exists_row-update_where :
      (p q : A → Bool) (f : A → A) (xs : List A)
      → ((r : A) → p (f r) ≡ p r)
      → exists_row p (update_where q f xs) ≡ exists_row p xs
  unfolding exists_row update_where
  exists_row-update_where p q f [] h = refl
  exists_row-update_where p q f (x ∷ xs) h = ground (arith, h x, exists_row-update_where p q f xs h)

  pub exists_row-ext :
      (p q : A → Bool) (xs : List A) → ((r : A) → p r ≡ q r) → exists_row p xs ≡ exists_row q xs
  unfolding exists_row
  exists_row-ext p q [] h = refl
  exists_row-ext p q (x ∷ xs) h = ground (arith, h x, exists_row-ext p q xs h)

  pub Distinct-snoc :
      (q : A → A → Bool) (xs : List A) (a : A)
      → Distinct q xs
      → exists_row (λ r. q r a) xs ≡ false
      → Distinct q (xs ++ a ∷ [])
  unfolding exists_row
  Distinct-snoc q [] a d h = (refl, tt)
  Distinct-snoc q (x ∷ xs) a d h =
      (ground (arith, exists_row-append (q x) xs (a ∷ [])), Distinct-snoc q xs a d.1 (ground arith))

  pub Distinct-delete_where :
      (q : A → A → Bool) (p : A → Bool) (xs : List A)
      → Distinct q xs
      → Distinct q (delete_where p xs)
  unfolding delete_where
  Distinct-delete_where q p [] d = tt
  Distinct-delete_where q p (x ∷ xs) d =
      ground (arith, exists_row-delete_where (q x) p xs d.0, Distinct-delete_where q p xs d.1)

  -- An update that keeps the column of the test keeps it distinct.
  pub Distinct-update_where :
      (q : A → A → Bool) (p : A → Bool) (f : A → A) (xs : List A)
      → ((r s : A) → q (f r) s ≡ q r s)
      → ((r s : A) → q r (f s) ≡ q r s)
      → Distinct q xs
      → Distinct q (update_where p f xs)
  unfolding update_where
  Distinct-update_where q p f [] hl hr d = tt
  Distinct-update_where q p f (x ∷ xs) hl hr d =
      let rest = Distinct-update_where q p f xs hl hr d.1 in
      let same = exists_row-update_where (q x) p f xs (hr x) in
      let moved = exists_row-update_where (q (f x)) p f xs (hr (f x)) in
      (ground (arith, same, moved, exists_row-ext (q (f x)) (q x) xs (hl x)), rest)

  next_id-le :
      (key : A → ℕ) (bound : ℕ) (xs : List A)
      → next_id key xs ≤ bound
      → exists_row (λ r. key r == bound) xs ≡ false
  unfolding exists_row next_id
  next_id-le key bound [] h = refl
  next_id-le key bound (x ∷ xs) h = ground (arith, next_id-le key bound xs)

  pub exists_row-next_id :
      (key : A → ℕ) (xs : List A) → exists_row (λ r. key r == next_id key xs) xs ≡ false
  exists_row-next_id key xs = next_id-le key (next_id key xs) xs (omega arith)

  pub All-delete_where :
      (P Q : A → Type 0) (p : A → Bool) (xs : List A)
      → ((r : A) → P r → p r ≡ false → Q r)
      → All P xs
      → All Q (delete_where p xs)
  unfolding delete_where
  All-delete_where P Q p [] h a = tt
  All-delete_where P Q p (x ∷ xs) h a = elim (Bool-cases (p x)) [
    | inl e ↦ rw e (All-delete_where P Q p xs h a.1)
    | inr e ↦ rw e (h x a.0 e, All-delete_where P Q p xs h a.1)
  ]

  -- The row found, and the column by which it was looked for.
  pub select_first_sound :
      (p : A → Bool) (xs : List A) (r : A) → select_first p xs ≡ some r → p r ≡ true
  unfolding select_first
  select_first_sound p [] r h = cc
  select_first_sound p (x ∷ xs) r h = ground (arith, select_first_sound p xs r)

  pub select_first-Mem :
      (p : A → Bool) (xs : List A) (r : A) → select_first p xs ≡ some r → Memᴰ r xs × (p r ≡ true)
  unfolding select_first
  select_first-Mem p [] r h = absurd (cc)
  select_first-Mem p (x ∷ xs) r h = elim (Bool-cases (p x)) [
    | inl yes' ↦
        let same : x ≡ r = ground (arith, yes', h) in
        (Memᴰ.head (sym same), subst (λ y. p y ≡ true) same yes')
    | inr no' ↦
        let (is_in, test) = select_first-Mem p xs r (ground (arith, no', h)) in
        (Memᴰ.tail is_in, test)
  ]

  pub exists_row-select_first :
      (p q : A → Bool) (xs : List A) (r : A)
      → select_first p xs ≡ some r
      → q r ≡ true
      → exists_row q xs ≡ true
  unfolding select_first exists_row
  exists_row-select_first p q [] r h k = cc
  exists_row-select_first p q (x ∷ xs) r h k = ground (arith, exists_row-select_first p q xs r)

  -- Nothing is found exactly where there is no such row.
  pub select_first-none :
      (p : A → Bool) (xs : List A) → exists_row p xs ≡ false → select_first p xs ≡ none
  unfolding select_first exists_row
  select_first-none p [] h = refl
  select_first-none p (x ∷ xs) h = ground (arith, select_first-none p xs)

  pub exists_row-none :
      (p : A → Bool) (xs : List A) → select_first p xs ≡ none → exists_row p xs ≡ false
  unfolding select_first exists_row
  exists_row-none p [] h = refl
  exists_row-none p (x ∷ xs) h = ground (arith, exists_row-none p xs)

  -- The row that is found after an update that keeps the column by which it is looked for.
  pub select_first-update_where :
      (want p : A → Bool) (f : A → A) (xs : List A) (row : A)
      → ((r : A) → want (f r) ≡ want r)
      → select_first want xs ≡ some row
      → select_first want (update_where p f xs) ≡ some (if p row then f row else row)
  unfolding select_first update_where
  select_first-update_where want p f [] row keeps h = cc
  select_first-update_where want p f (x ∷ xs) row keeps h =
      ground (arith, keeps x, select_first-update_where want p f xs row keeps)

  pub select_first-delete_where :
      (want p : A → Bool) (xs : List A) (row : A)
      → select_first want xs ≡ some row
      → p row ≡ false
      → select_first want (delete_where p xs) ≡ some row
  unfolding select_first delete_where
  select_first-delete_where want p [] row h k = cc
  select_first-delete_where want p (x ∷ xs) row h k =
      ground (arith, select_first-delete_where want p xs row)

  pub select_first-append :
      (want : A → Bool) (xs ys : List A) (row : A)
      → select_first want xs ≡ some row
      → select_first want (xs ++ ys) ≡ some row
  unfolding select_first
  select_first-append want [] ys row h = cc
  select_first-append want (x ∷ xs) ys row h = ground (arith, select_first-append want xs ys row)

  -- Two rows that agree in a distinct column are one.
  pub Distinct-eq :
      (q : A → A → Bool) (want other : A → Bool) (xs : List A) (a b : A)
      → Distinct q xs
      → ((r t : A) → q r t ≡ q t r)
      → select_first want xs ≡ some a
      → select_first other xs ≡ some b
      → q a b ≡ true
      → a ≡ b
  unfolding select_first
  Distinct-eq q want other [] a b d comm h k e = cc
  Distinct-eq q want other (x ∷ xs) a b d comm h k e = ground (
    arith,
    Distinct-eq q want other xs a b d.1 comm,
    comm a b,
    comm x a,
    comm x b,
    exists_row-select_first want (q x) xs a,
    exists_row-select_first other (q x) xs b,
  )

  -- The last row alone may be found where no other has the column.
  pub select_first-snoc :
      (p q : A → Bool) (xs : List A) (a : A)
      → ((r : A) → q r ≡ false → p r ≡ false)
      → exists_row q xs ≡ false
      → select_first p (xs ++ a ∷ []) ≡ (if p a then some a else none)
  unfolding select_first exists_row
  select_first-snoc p q [] a other h = refl
  select_first-snoc p q (x ∷ xs) a other h =
      ground (arith, other x, select_first-snoc p q xs a other)

  pub select_first-All :
      (P : A → Type 0) (p : A → Bool) (xs : List A) (r : A)
      → All P xs
      → select_first p xs ≡ some r
      → P r
  unfolding select_first
  select_first-All P p [] r a h = absurd (cc)
  select_first-All P p (x ∷ xs) r a h = elim (Bool-cases (p x)) [
    | inl e ↦ let same : x ≡ r = ground (arith, h) in subst P same a.0
    | inr e ↦ select_first-All P p xs r a.1 (ground (arith, h))
  ]

  pub delete_where-All : (p : A → Bool) (xs : List A) → All (λ r. p r ≡ false) (delete_where p xs)
  unfolding delete_where
  delete_where-All p [] = tt
  delete_where-All p (x ∷ xs) = elim (Bool-cases (p x)) [
    | inl e ↦ rw e (delete_where-All p xs)
    | inr e ↦ rw e (e, delete_where-All p xs)
  ]
