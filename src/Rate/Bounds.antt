-- ===== src/Rate/Bounds.antt =====
-- What the limiter promises: no more attempts in a window than the limit, and a bounded map.
use verstak_sync_server.Prelude.{
  ℕ, suc, ◌+◌, ◌-◌, ◌≤◌, ◌<◌, min, ◌≡◌, refl, sym, ap, ◌∙◌, subst, String, Bool, true, false, ◌||◌,
  ◌&&◌, Bool-cases, inl, inr, Option, none, some, List, [], ◌∷◌, eqb, ltb, leb, if◌then◌else◌, ◌==◌,
  length, All, arith, leb→le, any, ◌⊎◌, eq_iff, eq_refl,
}
use verstak_sync_server.Server.World.{RateBucket}
use verstak_sync_server.Server.Request.{lookup}
use verstak_sync_server.Rate.{
  RatePolicy, max_rate_limit_buckets, zero_bucket, Buckets, bucket_of, is_zero, oldest_key, remove,
  evict, put, consume, allow,
}

-- An attempt: when, and on which key.
abbrev pub Attempt : Type 0
Attempt = ℕ × String

-- How many attempts on the key the limiter lets through, when the attempts come one after the
-- other, each under the policy of its own key.
abbrev pub let_through : (String → RatePolicy) → String → List Attempt → Buckets → ℕ
let_through policy key [] bs = 0
let_through policy key ((t, k) ∷ more) bs =
    let ((allowed, wait), after) = allow t k (policy k) bs in
    let rest = let_through policy key more after in if (k == key) && allowed then suc rest else rest

-- How many attempts there are on the key.
abbrev pub attempts_on : String → List Attempt → ℕ
attempts_on key [] = 0
attempts_on key ((t, k) ∷ more) =
    let rest = attempts_on key more in if k == key then suc rest else rest

abbrev opened : ℕ → ℕ → ℕ → RateBucket
opened count start seen = record { count = count; window_start = some start; last_seen = seen }

module _ (policy : RatePolicy) (start count seen t : ℕ)
    (open_ : ltb t (start + policy.window) ≡ true) where
  consume-refused :
      leb policy.limit count ≡ true
      → consume t policy (opened count start seen)
        ≡ ((false, (start + policy.window) - t), opened count start t)
  consume-refused f = rw (open_, f)

  consume-allowed :
      leb policy.limit count ≡ false
      → consume t policy (opened count start seen) ≡ ((true, 0), opened (suc count) start t)
  consume-allowed f = rw (open_, f)

and_false : (a : Bool) → (a && false) ≡ false
and_false true = refl
and_false false = refl

and_right : (a b : Bool) → (a && b) ≡ true → b ≡ true
and_right true b h = h
and_right false b h = absurd (ground arith)

length-put_known :
    (key : String) (b c : RateBucket) (bs : Buckets)
    → lookup key bs ≡ some c
    → length (put key b bs) ≡ length bs
length-put_known key b c [] h = absurd (ground arith)
length-put_known key b c ((k, d) ∷ bs) h = elim (Bool-cases (k == key)) [
  | inl e ↦ rw e
  | inr e ↦ let same = length-put_known key b c bs (rw e at h) in rw e (omega (arith, same))
]

length-put :
    (key : String) (b : RateBucket) (bs : Buckets) → length (put key b bs) ≤ suc (length bs)
length-put key b [] = omega arith
length-put key b ((k, c) ∷ bs) = elim (Bool-cases (k == key)) [
  | inl e ↦ rw e (omega arith)
  | inr e ↦ let less = length-put key b bs in rw e (omega (arith, less))
]

lookup-put : (key : String) (b : RateBucket) (bs : Buckets) → lookup key (put key b bs) ≡ some b
lookup-put key b [] = rw (eq_refl key)
lookup-put key b ((k, c) ∷ bs) = elim (Bool-cases (k == key)) [
  | inl e ↦ rw (e, e)
  | inr e ↦ let rest = lookup-put key b bs in rw (e, e, rest)
]

lookup-put_other :
    (key k : String) (b : RateBucket) (bs : Buckets)
    → (k == key) ≡ false
    → lookup key (put k b bs) ≡ lookup key bs
lookup-put_other key k b [] h = rw h
lookup-put_other key k b ((j, c) ∷ bs) h = elim (Bool-cases (j == k)) [
  | inl e ↦ let same = (eq_iff j k).0 e in rw (same, eq_refl k, h) refl
  | inr e ↦ let rest = lookup-put_other key k b bs h in rw (e, rest)
]

module _ (policy : RatePolicy) (bs : Buckets)
    (room : suc (length bs) ≤ max_rate_limit_buckets) where
  -- An attempt on another key leaves the key's bucket, and adds one bucket at most.
  allow-other :
      (t : ℕ) (key k : String)
      → (k == key) ≡ false
      → let after = (allow t k policy bs).1 in
        (lookup key after ≡ lookup key bs) × (length after ≤ suc (length bs))
  unfolding allow
  allow-other t key k h =
      let full : leb max_rate_limit_buckets (length bs) ≡ false = ground arith in
      let b = (consume t policy (bucket_of (lookup k bs))).1 in
      elim (Bool-cases (eqb policy.limit 0 || eqb policy.window 0)) [
        | inl e ↦ rw e (refl, omega arith)
        | inr e ↦
            rw (e, full, and_false (is_zero (bucket_of (lookup k bs)).window_start))
              (lookup-put_other key k b bs h, length-put k b bs)
      ]

  -- An attempt on the key stores the bucket that it leaves.
  allow-stored :
      (t : ℕ) (key : String) (b : RateBucket)
      → 1 ≤ policy.limit
      → 1 ≤ policy.window
      → bucket_of (lookup key bs) ≡ b
      → allow t key policy bs ≡ ((consume t policy b).0, put key (consume t policy b).1 bs)
  unfolding allow
  allow-stored t key b some_limit some_window found =
      let full : leb max_rate_limit_buckets (length bs) ≡ false = ground arith in
      let on : (eqb policy.limit 0 || eqb policy.window 0) ≡ false = ground arith in
      rw (on, found, full, and_false (is_zero b.window_start)) refl

module _ (policy : String → RatePolicy) (key : String) (some_limit : 1 ≤ (policy key).limit)
    (some_window : 1 ≤ (policy key).window) where
  let_through-opened :
      (start count seen : ℕ) (more : List Attempt) (bs : Buckets)
      → All (λ a. a.0 < start + (policy key).window) more
      → count ≤ (policy key).limit
      → length bs + length more ≤ max_rate_limit_buckets
      → lookup key bs ≡ some (opened count start seen)
      → let_through policy key more bs ≡ min ((policy key).limit - count) (attempts_on key more)
  let_through-opened start count seen [] bs hs k room found = omega arith
  let_through-opened start count seen ((t, j) ∷ more) bs (h, hs) k room found =
      elim (Bool-cases (j == key)) [
        | inr e ↦
            let other = allow-other (policy j) bs (omega (arith, room)) t key j e in
            let rest =
              let_through-opened start count seen more (allow t j (policy j) bs).1 hs k
                (omega (arith, room, other.1)) (other.0 ∙ found) in
            rw e rest
        | inl e ↦
            let same : j ≡ key = (eq_iff j key).0 e in
            let open_ : ltb t (start + (policy key).window) ≡ true = ground (arith, h) in
            let stored =
              allow-stored (policy key) bs (omega (arith, room)) t key (opened count start seen)
                some_limit some_window (ap bucket_of found) in
            elim (Bool-cases (leb (policy key).limit count)) [
              | inl f ↦
                  let b = opened count start t in
                  let there = consume-refused (policy key) start count seen t open_ f in
                  let put_one = length-put_known key b (opened count start seen) bs found in
                  let rest =
                    let_through-opened start count t more (put key b bs) hs k
                      (omega (arith, room, put_one)) (lookup-put key b bs) in
                  let full = leb→le (policy key).limit count f in
                  rw (same, eq_refl key, stored, there) (omega (arith, rest, full))
              | inr f ↦
                  let b = opened (suc count) start t in
                  let there = consume-allowed (policy key) start count seen t open_ f in
                  let put_one = length-put_known key b (opened count start seen) bs found in
                  let more_room : suc count ≤ (policy key).limit = ground (arith, f) in
                  let rest =
                    let_through-opened start (suc count) t more (put key b bs) hs more_room
                      (omega (arith, room, put_one)) (lookup-put key b bs) in
                  rw (same, eq_refl key, stored, there) (omega (arith, rest, more_room))
            ]
      ]

-- Of any attempts, on any keys and each under the policy of its key, that all fall into the window
-- that the first one begins, the limiter lets through, of those on the key of the first one, as
-- many as the limit, or all where they are fewer. The policy of that key is in force (its limit
-- and its window are positive), the key has no bucket yet, and the map has room for a bucket for
-- each attempt, so that none is evicted.
pub let_through-window :
    (policy : String → RatePolicy) (key : String) (start : ℕ) (more : List Attempt) (bs : Buckets)
    → 1 ≤ (policy key).limit
    → 1 ≤ (policy key).window
    → lookup key bs ≡ none
    → All (λ a. a.0 < start + (policy key).window) more
    → length bs + suc (length more) ≤ max_rate_limit_buckets
    → let_through policy key ((start, key) ∷ more) bs
      ≡ min (policy key).limit (attempts_on key ((start, key) ∷ more))
let_through-window policy key start more bs some_limit some_window fresh hs room =
    let stored =
      allow-stored (policy key) bs (omega (arith, room)) start key zero_bucket some_limit
        some_window (ap bucket_of fresh) in
    let none_yet : leb (policy key).limit 0 ≡ false = ground (arith, some_limit) in
    let b = opened 1 start start in
    let put_one = length-put key b bs in
    let rest =
      let_through-opened policy key some_limit some_window start 1 start more (put key b bs) hs
        some_limit (omega (arith, room, put_one)) (lookup-put key b bs) in
    rw (eq_refl key, stored, none_yet) (omega (arith, rest, some_limit))

length-remove : (key : String) (bs : Buckets) → length (remove key bs) ≤ length bs
length-remove key [] = omega arith
length-remove key ((j, b) ∷ bs) =
    let less = length-remove key bs in
    elim (Bool-cases (j == key)) [
      | inl e ↦ rw e (omega (arith, less))
      | inr e ↦ rw e (omega (arith, less))
    ]

any-remove_less :
    (key : String) (bs : Buckets)
    → any (λ b. b.0 == key) bs ≡ true
    → suc (length (remove key bs)) ≤ length bs
any-remove_less key [] h = absurd (ground arith)
any-remove_less key ((j, b) ∷ bs) h = elim (Bool-cases (j == key)) [
  | inl e ↦ let less = length-remove key bs in rw e (omega (arith, less))
  | inr e ↦ let less = any-remove_less key bs (rw e at h) in rw e (omega (arith, less))
]

first_or_rest :
    (j o : String) (bs : Buckets)
    → (o ≡ j) ⊎ (any (λ b. b.0 == o) bs ≡ true)
    → ((j == o) || any (λ b. b.0 == o) bs) ≡ true
first_or_rest j o bs (inl h) = let e = (eq_iff j o).1 (sym h) in rw e
first_or_rest j o bs (inr h) = elim (Bool-cases (j == o)) [ inl e ↦ rw e | inr e ↦ rw (e, h) ]

same_or_rest :
    (k j o : String) (bs : Buckets)
    → (o ≡ k) ⊎ (any (λ b. b.0 == o) bs ≡ true)
    → (o ≡ k) ⊎ (((j == o) || any (λ b. b.0 == o) bs) ≡ true)
same_or_rest k j o bs (inl h) = inl h
same_or_rest k j o bs (inr h) = inr (first_or_rest j o bs (inr h))

-- A key that is not empty, and that is `k` or one of the map's.
abbrev IsKnown : String → Buckets → String → Type 0
IsKnown k bs o = ((o == "") ≡ false) × ((o ≡ k) ⊎ (any (λ b. b.0 == o) bs ≡ true))

oldest_key-IsKnown :
    (k : String) (seen : ℕ) (bs : Buckets)
    → (k == "") ≡ false
    → All (λ b. (b.0 == "") ≡ false) bs
    → IsKnown k bs (oldest_key k seen bs)
oldest_key-IsKnown k seen [] h hs = (h, inl refl)
oldest_key-IsKnown k seen ((j, b) ∷ bs) h (g, gs) = elim (Bool-cases (ltb b.last_seen seen)) [
  | inl e ↦
      let step : oldest_key k seen ((j, b) ∷ bs) ≡ oldest_key j b.last_seen bs = rw (h, e) in
      let (named, known) = oldest_key-IsKnown j b.last_seen bs g gs in
      subst (IsKnown k ((j, b) ∷ bs)) (sym step)
        (named, inr (first_or_rest j (oldest_key j b.last_seen bs) bs known))
  | inr e ↦
      let step : oldest_key k seen ((j, b) ∷ bs) ≡ oldest_key k seen bs = rw (h, e) in
      let (named, known) = oldest_key-IsKnown k seen bs h gs in
      subst (IsKnown k ((j, b) ∷ bs)) (sym step)
        (named, same_or_rest k j (oldest_key k seen bs) bs known)
]

evict-less :
    (bs : Buckets)
    → 1 ≤ length bs
    → All (λ b. (b.0 == "") ≡ false) bs
    → suc (length (evict bs)) ≤ length bs
evict-less [] h hs = absurd (omega arith)
evict-less ((j, b) ∷ bs) h (g, gs) =
    let (named, known) = oldest_key-IsKnown j b.last_seen bs g gs in
    let there = first_or_rest j (oldest_key j b.last_seen bs) bs known in
    rw named (any-remove_less (oldest_key j b.last_seen bs) ((j, b) ∷ bs) there)

put-bounded :
    (key : String) (c : RateBucket) (bs : Buckets) (o : Option RateBucket)
    → lookup key bs ≡ o
    → All (λ b. (b.0 == "") ≡ false) bs
    → length bs ≤ max_rate_limit_buckets
    → length (
        put key c (
          if is_zero (bucket_of o).window_start && leb max_rate_limit_buckets (length bs)
          then evict bs
          else bs))
      ≤ max_rate_limit_buckets
put-bounded key c bs o f named h =
    elim (Bool-cases
      (is_zero (bucket_of o).window_start && leb max_rate_limit_buckets (length bs))) [
        | inl e ↦
            let full =
              and_right (is_zero (bucket_of o).window_start)
                (leb max_rate_limit_buckets (length bs)) e in
            let many = leb→le max_rate_limit_buckets (length bs) full in
            let less = evict-less bs (omega (arith, many)) named in
            let put_one = length-put key c (evict bs) in rw e (omega (arith, less, put_one, h))
        | inr e ↦ rw e (put_in o f e)
      ]
  where
    put_in :
        (o : Option RateBucket)
        → lookup key bs ≡ o
        → (is_zero (bucket_of o).window_start && leb max_rate_limit_buckets (length bs)) ≡ false
        → length (put key c bs) ≤ max_rate_limit_buckets
    put_in none k e = let put_one = length-put key c bs in ground (arith, put_one)
    put_in (some b) k e = let same = length-put_known key c b bs k in omega (arith, same, h)

-- The limiter's map never holds more than 10000 buckets: an attempt on any key, under any policy
-- and at any time, keeps the bound, where the keys of the map are not empty.
pub allow-bounded :
    (now : ℕ) (key : String) (policy : RatePolicy) (bs : Buckets)
    → All (λ b. (b.0 == "") ≡ false) bs
    → length bs ≤ max_rate_limit_buckets
    → length (allow now key policy bs).1 ≤ max_rate_limit_buckets
unfolding allow
allow-bounded now key policy bs named h =
    elim (Bool-cases (eqb policy.limit 0 || eqb policy.window 0)) [
      | inl e ↦ rw e h
      | inr e ↦
          let after = (consume now policy (bucket_of (lookup key bs))).1 in
          rw e (put-bounded key after bs (lookup key bs) refl named h)
    ]
