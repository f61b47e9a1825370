-- ===== src/Store/Table/Laws.antt =====
-- Laws of the table queries.
use corcy.Prelude.{
  ltb, All-map, ap, ◌<◌, none, ◌+◌, ◌≤◌, Bool, true, false, not, ◌&&◌, some, List, [], ◌∷◌, ◌≡◌,
  refl, arith, if◌then◌else◌, All, length, is_some, Bool-cases, inl, inr,
}
use mathlib.Core.Option
use corcy.Store.Table.{find_first, find_many, count, delete_many, update, exists}

module _ {ℓ} {A : Type ℓ} where
  pub find_first-holds :
      (p : A → Bool) (xs : List A) (x : A) → find_first p xs ≡ some x → p x ≡ true
  unfolding find_first
  find_first-holds p [] x h = ground arith
  find_first-holds p (y ∷ ys) x h = ground (arith, find_first-holds p ys x)

  pub find_first-eq-exists : (p : A → Bool) (xs : List A) → is_some (find_first p xs) ≡ exists p xs
  unfolding find_first exists
  find_first-eq-exists p [] = refl
  find_first-eq-exists p (y ∷ ys) = ground (arith, find_first-eq-exists p ys)

  pub length-find_many : (p : A → Bool) (xs : List A) → length (find_many p xs) ≡ count p xs
  unfolding find_many count
  length-find_many p [] = refl
  length-find_many p (y ∷ ys) = ground (arith, length-find_many p ys)

  pub All-find_many : (p : A → Bool) (xs : List A) → All (λ x. p x ≡ true) (find_many p xs)
  unfolding find_many
  All-find_many p [] = tt
  All-find_many p (y ∷ ys) = elim (Bool-cases (p y)) [
    | inl h ↦ rw h (h, All-find_many p ys)
    | inr h ↦ rw h (All-find_many p ys)
  ]

  pub count-delete_many :
      (p q : A → Bool) (xs : List A) → count p (delete_many q xs) ≡ count (λ x. p x && not (q x)) xs
  unfolding count delete_many
  count-delete_many p q [] = refl
  count-delete_many p q (y ∷ ys) = ground (arith, count-delete_many p q ys)

  -- An update that keeps the test and the rows' own order maps what a search finds.
  pub find_first-update :
      (p q : A → Bool) (f : A → A) (xs : List A)
      → ((x : A) → p (f x) ≡ p x)
      → find_first p (update q f xs) ≡ Option.map (λ x. if q x then f x else x) (find_first p xs)
  unfolding find_first update
  find_first-update p q f [] h = refl
  find_first-update p q f (y ∷ ys) h = ground (arith, h y, find_first-update p q f ys h)

  pub find_first-update_self :
      (p : A → Bool) (f : A → A) (xs : List A)
      → ((x : A) → p (f x) ≡ p x)
      → find_first p (update p f xs) ≡ Option.map f (find_first p xs)
  unfolding find_first update
  find_first-update_self p f [] h = refl
  find_first-update_self p f (y ∷ ys) h = ground (arith, h y, find_first-update_self p f ys h)

  -- An update that keeps the test keeps the count.
  pub count-update :
      (p q : A → Bool) (f : A → A) (xs : List A)
      → ((x : A) → p (f x) ≡ p x)
      → count p (update q f xs) ≡ count p xs
  unfolding count update
  count-update p q f [] h = refl
  count-update p q f (y ∷ ys) h = ground (arith, h y, count-update p q f ys h)

  pub exists-eq-count : (p : A → Bool) (xs : List A) → exists p xs ≡ ltb 0 (count p xs)
  unfolding exists count
  exists-eq-count p [] = refl
  exists-eq-count p (y ∷ ys) = ground (arith, exists-eq-count p ys)

  pub is_some-find_first :
      (p : A → Bool) (xs : List A) → is_some (find_first p xs) ≡ ltb 0 (count p xs)
  unfolding find_first count
  is_some-find_first p [] = refl
  is_some-find_first p (y ∷ ys) = ground (arith, is_some-find_first p ys)

  pub count_zero : (p : A → Bool) (xs : List A) → count p xs ≡ 0 → All (λ x. p x ≡ false) xs
  unfolding count
  count_zero p [] h = tt
  count_zero p (y ∷ ys) h = elim (Bool-cases (p y)) [
    | inl e ↦ absurd (ground (arith, e))
    | inr e ↦ (e, count_zero p ys (ground (arith, e)))
  ]

  -- At most one row passes the test: it is the one that a search finds.
  pub unique_row :
      (p : A → Bool) (xs : List A) (r : A)
      → count p xs ≤ 1
      → find_first p xs ≡ some r
      → All (λ x. p x ≡ true → x ≡ r) xs
  unfolding count find_first
  unique_row p [] r h e = tt
  unique_row p (y ∷ ys) r h e = elim (Bool-cases (p y)) [
    | inl t ↦ (
      λ _. ground (arith, t),
      All-map ys (count_zero p ys (ground (arith, t))) (λ x f g. ground (arith, f, g)),
    )
    | inr t ↦ (λ g. ground (arith, g, t), unique_row p ys r (ground (arith, t)) (ground (arith, t)))
  ]

  pub count_and_zero :
      (p q : A → Bool) (r : A) (xs : List A)
      → All (λ x. q x ≡ true → x ≡ r) xs
      → p r ≡ false
      → count (λ x. p x && q x) xs ≡ 0
  unfolding count
  count_and_zero p q r [] h e = refl
  count_and_zero p q r (y ∷ ys) (h, hs) e = elim (Bool-cases (q y)) [
    | inl t ↦ rw (ap p (h t), e) (count_and_zero p q r ys hs e)
    | inr t ↦ ground (arith, t, count_and_zero p q r ys hs e)
  ]

  pub count_split :
      (p q : A → Bool) (xs : List A)
      → count p (delete_many q xs) + count (λ x. p x && q x) xs ≡ count p xs
  unfolding count delete_many
  count_split p q [] = omega arith
  count_split p q (y ∷ ys) = ground (arith, count_split p q ys)

  pub count-delete_many-le :
      (p q : A → Bool) (xs : List A) → count p (delete_many q xs) ≤ count p xs
  count-delete_many-le p q xs = omega (arith, count_split p q xs)

  pub All-delete_many {κ} :
      (P : A → Type κ) (q : A → Bool) (xs : List A)
      → All P xs
      → All (λ x. P x × (q x ≡ false)) (delete_many q xs)
  unfolding delete_many
  All-delete_many P q [] h = tt
  All-delete_many P q (y ∷ ys) (p, h) = elim (Bool-cases (q y)) [
    | inl t ↦ rw t (All-delete_many P q ys h)
    | inr t ↦ rw t ((p, t), All-delete_many P q ys h)
  ]

  pub All-update {κ μ} :
      {P : A → Type κ} {Q : A → Type μ} (q : A → Bool) (f : A → A) (xs : List A)
      → All P xs
      → ((x : A) → P x → q x ≡ true → Q (f x))
      → ((x : A) → P x → q x ≡ false → Q x)
      → All Q (update q f xs)
  unfolding update
  All-update q f [] h hit miss = tt
  All-update q f (y ∷ ys) (p, h) hit miss = elim (Bool-cases (q y)) [
    | inl t ↦ rw t (hit y p t, All-update q f ys h hit miss)
    | inr t ↦ rw t (miss y p t, All-update q f ys h hit miss)
  ]

  pub All-find_first {κ} :
      (P : A → Type κ) (p : A → Bool) (xs : List A) {r : A}
      → All P xs
      → find_first p xs ≡ some r
      → P r
  unfolding find_first
  All-find_first P p [] h e = absurd (cc e)
  All-find_first P p (y ∷ ys) (k, h) e = elim (Bool-cases (p y)) [
    | inl t ↦ let same : y ≡ _ = ground (arith, t) in rw same at k
    | inr t ↦ All-find_first P p ys h (ground (arith, t))
  ]

  -- A found row that passes a test which at most one row passes is found by that test too.
  pub find_first_by_unique :
      (p q : A → Bool) (xs : List A) (r : A)
      → find_first p xs ≡ some r
      → q r ≡ true
      → count q xs ≤ 1
      → find_first q xs ≡ some r
  unfolding find_first count
  find_first_by_unique p q [] r e t h = absurd (cc e)
  find_first_by_unique p q (y ∷ ys) r e t h = elim (Bool-cases (q y)) [
    | inl g ↦ elim (Bool-cases (p y)) [
      | inl k ↦ ground (arith, g, k)
      | inr k ↦
          let later : find_first p ys ≡ some r = ground (arith, k) in
          let off : q r ≡ false =
            All-find_first (λ x. q x ≡ false) p ys (count_zero q ys (ground (arith, g))) later in
          absurd (cc (t, off))
    ]
    | inr g ↦
        let other : p y ≡ true → y ≡ r = λ k. ground (arith, k) in
        elim (Bool-cases (p y)) [
          | inl k ↦ absurd (cc (ap q (other k), g, t))
          | inr k ↦ rw g (find_first_by_unique p q ys r (ground (arith, k)) t (ground (arith, g)))
        ]
  ]

  pub count-find_first :
      (p q : A → Bool) (xs : List A) (r : A)
      → find_first q xs ≡ some r
      → p r ≡ true
      → 0 < count (λ x. p x && q x) xs
  unfolding find_first count
  count-find_first p q [] r e t = absurd (cc e)
  count-find_first p q (y ∷ ys) r e t = elim (Bool-cases (q y)) [
    | inl k ↦ let same : y ≡ r = ground (arith, k) in rw (ap p same, t, k) (omega arith)
    | inr k ↦ ground (arith, k, count-find_first p q ys r)
  ]

  pub find_first-none : (p : A → Bool) (xs : List A) → count p xs ≡ 0 → find_first p xs ≡ none
  unfolding find_first count
  find_first-none p [] h = refl
  find_first-none p (y ∷ ys) h = ground (arith, find_first-none p ys)

  pub count-delete_self :
      (p q : A → Bool) (xs : List A)
      → ((x : A) → p x ≡ true → q x ≡ true)
      → count p (delete_many q xs) ≡ 0
  unfolding count delete_many
  count-delete_self p q [] h = refl
  count-delete_self p q (y ∷ ys) h = ground (arith, h y, count-delete_self p q ys h)

  pub count-delete_other :
      (p q : A → Bool) (xs : List A)
      → ((x : A) → p x ≡ true → q x ≡ false)
      → count p (delete_many q xs) ≡ count p xs
  unfolding count delete_many
  count-delete_other p q [] h = refl
  count-delete_other p q (y ∷ ys) h = ground (arith, h y, count-delete_other p q ys h)

  pub count-first :
      (p q : A → Bool) (xs : List A) (r : A)
      → find_first p xs ≡ some r
      → q r ≡ true
      → 0 < count q xs
  unfolding find_first count
  count-first p q [] r e t = absurd (cc e)
  count-first p q (y ∷ ys) r e t = elim (Bool-cases (p y)) [
    | inl k ↦ let same : y ≡ r = ground (arith, k) in rw (ap q same, t) (omega arith)
    | inr k ↦ ground (arith, k, count-first p q ys r)
  ]

  -- Rows that an update does not touch are found as before.
  pub find_first-update_other :
      (p q : A → Bool) (f : A → A) (xs : List A)
      → ((x : A) → p (f x) ≡ p x)
      → ((x : A) → q x ≡ true → p x ≡ false)
      → find_first p (update q f xs) ≡ find_first p xs
  unfolding find_first update
  find_first-update_other p q f [] h d = refl
  find_first-update_other p q f (y ∷ ys) h d =
      ground (arith, h y, d y, find_first-update_other p q f ys h d)

  pub count_mono :
      (p q : A → Bool) (xs : List A) → ((x : A) → p x ≡ true → q x ≡ true) → count p xs ≤ count q xs
  unfolding count
  count_mono p q [] h = omega arith
  count_mono p q (y ∷ ys) h = ground (arith, h y, count_mono p q ys h)

  pub find_many-none : (p : A → Bool) (xs : List A) → count p xs ≡ 0 → find_many p xs ≡ []
  unfolding find_many count
  find_many-none p [] h = refl
  find_many-none p (y ∷ ys) h = ground (arith, find_many-none p ys)

  -- An update that gives the same row again does nothing the second time.
  pub update_twice :
      (p : A → Bool) (f : A → A) (xs : List A)
      → ((x : A) → p (f x) ≡ p x)
      → ((x : A) → f (f x) ≡ f x)
      → update p f (update p f xs) ≡ update p f xs
  unfolding update
  update_twice p f [] h g = refl
  update_twice p f (y ∷ ys) h g = ground (arith, h y, g y, update_twice p f ys h g)

  pub exists-update :
      (p q : A → Bool) (f : A → A) (xs : List A)
      → ((x : A) → p (f x) ≡ p x)
      → exists p (update q f xs) ≡ exists p xs
  unfolding exists update
  exists-update p q f [] h = refl
  exists-update p q f (y ∷ ys) h = ground (arith, h y, exists-update p q f ys h)

  pub update_missing :
      (p : A → Bool) (f : A → A) (xs : List A) → exists p xs ≡ false → update p f xs ≡ xs
  unfolding exists update
  update_missing p f [] h = refl
  update_missing p f (y ∷ ys) h = ground (arith, h, update_missing p f ys)

  -- What a query returns is in the table.
  pub All-find_many_counted :
      (p : A → Bool) (xs : List A)
      → All
          (λ x. (p x ≡ true) × ((q : A → Bool) → q x ≡ true → 0 < count (λ y. p y && q y) xs))
          (find_many p xs)
  unfolding find_many count
  All-find_many_counted p [] = tt
  All-find_many_counted p (y ∷ ys) = elim (Bool-cases (p y)) [
    | inl h ↦ rw h (
      (h, λ q k. rw k (omega arith)),
      All-map (find_many p ys) (All-find_many_counted p ys)
          (λ x k. (k.0, λ q e. ground (arith, k.1 q e))),
    )
    | inr h ↦ rw h (All-find_many_counted p ys)
  ]
