-- ===== src/Schema/Columns.antt =====
-- What ensureSQLiteColumn does to a table's columns and rows.
use verstak_sync_server.Prelude.{
  ◌≡◌, refl, ap, ◌∙◌, String, true, List, [], ◌∷◌, ◌++◌, map, ◌==◌, Bool-cases, inl, inr, any, All,
  arith, eq_refl,
}
use verstak_sync_server.Schema.Old.{Table, ensure_column}

any-append_left :
    (name : String) (xs ys : List String)
    → any (λ c. c == name) xs ≡ true
    → any (λ c. c == name) (xs ++ ys) ≡ true
any-append_left name [] ys h = absurd (ground arith)
any-append_left name (x ∷ xs) ys h = elim (Bool-cases (x == name)) [
  | inl e ↦ rw e refl
  | inr e ↦ rw e (any-append_left name xs ys (rw e at h))
]

any-append_last : (name : String) (xs : List String) → any (λ c. c == name) (xs ++ name ∷ []) ≡ true
any-append_last name [] = rw (eq_refl name) refl
any-append_last name (x ∷ xs) = elim (Bool-cases (x == name)) [
  | inl e ↦ rw e refl
  | inr e ↦ rw e (any-append_last name xs)
]

module _ {ℓ} {R : Type ℓ} where
  abbrev pub HasColumn : String → Table R → Type 0
  HasColumn name t = any (λ c. c == name) t.columns ≡ true

  pub ensure_column-HasColumn :
      (name : String) (reset : R → R) (t : Table R) → HasColumn name (ensure_column name reset t)
  unfolding ensure_column
  ensure_column-HasColumn name reset t = elim (Bool-cases (any (λ c. c == name) t.columns)) [
    | inl e ↦ rw e e
    | inr e ↦ rw e (any-append_last name t.columns)
  ]

  -- A column that is there stays.
  pub ensure_column_keeps :
      (kept name : String) (reset : R → R) (t : Table R)
      → HasColumn kept t
      → HasColumn kept (ensure_column name reset t)
  unfolding ensure_column
  ensure_column_keeps kept name reset t h = elim (Bool-cases (any (λ c. c == name) t.columns)) [
    | inl e ↦ rw e h
    | inr e ↦ rw e (any-append_left kept t.columns (name ∷ []) h)
  ]

  pub ensure_column_there :
      (name : String) (reset : R → R) (t : Table R)
      → HasColumn name t
      → ensure_column name reset t ≡ t
  unfolding ensure_column
  ensure_column_there name reset t h = rw h refl

  pub map_fixed : (f : R → R) (xs : List R) → All (λ x. f x ≡ x) xs → map f xs ≡ xs
  map_fixed f [] h = refl
  map_fixed f (x ∷ xs) (h, hs) = rw (h, map_fixed f xs hs)

  pub All-fixed :
      (f : R → R) (xs : List R) → ((x : R) → f (f x) ≡ f x) → All (λ x. f x ≡ x) (map f xs)
  All-fixed f [] h = tt
  All-fixed f (x ∷ xs) h = (h x, All-fixed f xs h)

  -- What commutes with `f` keeps what `f` leaves alone.
  pub All-commute :
      (f g : R → R) (xs : List R)
      → ((x : R) → f (g x) ≡ g (f x))
      → All (λ x. f x ≡ x) xs
      → All (λ x. f x ≡ x) (map g xs)
  All-commute f g [] h k = tt
  All-commute f g (x ∷ xs) h (k, ks) = (h x ∙ ap g k, All-commute f g xs h ks)

  pub ensure_column-All :
      (f : R → R) (name : String) (reset : R → R) (t : Table R)
      → ((x : R) → f (reset x) ≡ reset (f x))
      → All (λ x. f x ≡ x) t.rows
      → All (λ x. f x ≡ x) (ensure_column name reset t).rows
  unfolding ensure_column
  ensure_column-All f name reset t h k = elim (Bool-cases (any (λ c. c == name) t.columns)) [
    | inl e ↦ rw e k
    | inr e ↦ rw e (All-commute f reset t.rows h k)
  ]
