-- ===== src/Admin/Pagination.antt =====
-- The page that is shown is one that there is, and the pages make up the list.
use verstak_sync_server.Prelude.{
  ℕ, zero, suc, ◌+◌, ◌-◌, ◌*◌, ◌/◌, ◌≤◌, ◌<◌, ◌≡◌, refl, sym, ap, ◌∙◌, Bool-cases, inl, inr, ltb,
  ltb→lt, eqb, if◌then◌else◌, arith, List, [], ◌∷◌, ◌++◌, take, drop, length, take_all,
}
use native.Mathlib.Nat.{div-mul-le_self, lt-div-mul-add, mul-le-mul_right}
use verstak_sync_server.Admin.Lists.{WebList, page_count, page_rows, finish_web_list}

abbrev at_least_one : ℕ → ℕ
at_least_one q = if eqb q 0 then 1 else q

rounded_up :
    (q per_page total : ℕ)
    → q * per_page ≤ (total + per_page) - 1
    → (total + per_page) - 1 < q * per_page + per_page
    → 0 < per_page
    → (0 < at_least_one q)
      × (total ≤ at_least_one q * per_page)
      × (0 < total → (at_least_one q - 1) * per_page < total)
rounded_up zero p t low high h = (omega arith, omega arith, λ k. omega arith)
rounded_up (suc k) p t low high h = (ground arith, ground arith, λ t. ground arith)

-- The pages number as many as are needed for all the rows, and one at least.
page_count_bounds :
    (per_page total : ℕ)
    → 0 < per_page
    → (0 < page_count per_page total)
      × (total ≤ page_count per_page total * per_page)
      × (0 < total → (page_count per_page total - 1) * per_page < total)
page_count_bounds p t h =
    rounded_up (((t + p) - 1) / p) p t (div-mul-le_self ((t + p) - 1) p) (lt-div-mul-add h) h

abbrev at_most : ℕ → ℕ → ℕ
at_most n page = if ltb n page then n else page

at_most_bounds :
    (n page p t : ℕ)
    → 0 < page
    → 0 < n
    → (0 < t → (n - 1) * p < t)
    → (0 < at_most n page)
      × (at_most n page ≤ n)
      × (page ≤ n → at_most n page ≡ page)
      × (n < page → at_most n page ≡ n)
      × (0 < t → (at_most n page - 1) * p < t)
at_most_bounds n page p t h k low = elim (Bool-cases (ltb n page)) [
  | inl e ↦
      let over : n < page = ltb→lt n page e in
      rw e (k, omega arith, λ q. omega arith, λ q. refl, low)
  | inr e ↦
      let within : page ≤ n = ground arith in
      let offset : (page - 1) * p ≤ (n - 1) * p = mul-le-mul_right p (omega arith) in
      rw e (h, within, λ q. refl, λ q. omega arith, λ q. omega (arith, low q, offset))
]

links :
    (n page before after : ℕ)
    → (1 < page → (if ltb 1 page then page - 1 else before) + 1 ≡ page)
      × (page < n → (if ltb page n then page + 1 else after) ≡ page + 1)
      × (page ≤ 1 → (if ltb 1 page then page - 1 else before) ≡ before)
      × (n ≤ page → (if ltb page n then page + 1 else after) ≡ after)
links n page before after =
    (λ h. ground arith, λ h. ground arith, λ h. ground arith, λ h. ground arith)

-- The page to show is the one that was asked for, or the last one where there are fewer. It is
-- not empty unless the whole list is, the pages hold all the rows, and the links to the page
-- before and the page after lead to pages that there are, and are left out at the ends.
pub finish_web_list_bounds :
    (l : WebList) (total : ℕ)
    → 0 < l.page
    → 0 < l.per_page
    → let m = finish_web_list l total in
      (0 < m.page)
      × (m.page ≤ m.pages)
      × (l.page ≤ m.pages → m.page ≡ l.page)
      × (m.pages < l.page → m.page ≡ m.pages)
      × (total ≤ m.pages * m.per_page)
      × (0 < total → (m.page - 1) * m.per_page < total)
      × (1 < m.page → m.previous + 1 ≡ m.page)
      × (m.page < m.pages → m.next ≡ m.page + 1)
      × (m.page ≤ 1 → m.previous ≡ l.previous)
      × (m.pages ≤ m.page → m.next ≡ l.next)
unfolding finish_web_list
finish_web_list_bounds l total h k =
    let n = page_count l.per_page total in
    let (some_page, fits, low) = page_count_bounds l.per_page total k in
    let (first, last, asked, fewer, within) =
      at_most_bounds n l.page l.per_page total h some_page low in
    let (before, after, no_before, no_after) = links n (at_most n l.page) l.previous l.next in
    (first, last, asked, fewer, fits, within, before, after, no_before, no_after)

module _ {ℓ} {A : Type ℓ} where
  take-add : (m n : ℕ) (xs : List A) → take (m + n) xs ≡ take m xs ++ take n (drop m xs)
  take-add zero n xs = let e : 0 + n ≡ n = omega arith in rw e refl
  take-add (suc m) zero [] = let e : suc m + 0 ≡ suc m = omega arith in rw e refl
  take-add (suc m) (suc n) [] = let e : suc m + suc n ≡ suc (m + suc n) = omega arith in rw e refl
  take-add (suc m) n (x ∷ xs) =
      let e : suc m + n ≡ suc (m + n) = omega arith in rw e (ap (λ ys. x ∷ ys) (take-add m n xs))

  -- The rows on the pages with the numbers from 1 to `n`, as they are shown one after the other.
  abbrev pub pages_up_to : WebList → ℕ → List A → List A
  pages_up_to l zero xs = []
  pages_up_to l (suc n) xs =
      pages_up_to l n xs ++ page_rows (finish_web_list (record l { page = suc n }) (length xs)) xs

  pages_up_to-take :
      (l : WebList) (n : ℕ) (xs : List A)
      → 0 < l.per_page
      → n ≤ page_count l.per_page (length xs)
      → pages_up_to l n xs ≡ take (n * l.per_page) xs
  unfolding finish_web_list
  pages_up_to-take l zero xs h k = let e : 0 * l.per_page ≡ 0 = omega arith in rw e refl
  pages_up_to-take l (suc n) xs h k =
      let p = l.per_page in
      let before = pages_up_to-take l n xs h (omega arith) in
      let asked : at_most (page_count p (length xs)) (suc n) ≡ suc n = ground arith in
      let offset : (at_most (page_count p (length xs)) (suc n) - 1) * p ≡ n * p =
        ap (λ page. (page - 1) * p) asked ∙ ap (λ m. m * p) (omega arith) in
      let more : suc n * p ≡ n * p + p = omega arith in
      ap (λ ys. ys ++ take p (drop ((at_most (page_count p (length xs)) (suc n) - 1) * p) xs))
        before
      ∙ ap (λ m. take (n * p) xs ++ take p (drop m xs)) offset
      ∙ sym (take-add (n * p) p xs)
      ∙ ap (λ m. take m xs) (sym more)

  -- Browsing through all the pages shows every row once, in the order of the list.
  pub pages_up_to-all :
      (l : WebList) (xs : List A)
      → 0 < l.page
      → 0 < l.per_page
      → pages_up_to l (finish_web_list l (length xs)).pages xs ≡ xs
  unfolding finish_web_list
  pages_up_to-all l xs h k =
      let n = page_count l.per_page (length xs) in
      let (some_page, fits, low) = page_count_bounds l.per_page (length xs) k in
      pages_up_to-take l n xs k (omega arith) ∙ take_all (n * l.per_page) xs fits
