-- ===== src/Rate/Digits.antt =====
-- internal/server/rate.go, strconvItoa: a number in decimal, for the header Retry-After. The
-- loop runs on fuel, twenty rounds, which is the length of the array that it fills from the end;
-- a Go int has 64 bits.
use verstak_sync_server.Prelude.{
  ℕ, zero, suc, ◌+◌, ◌-◌, ◌*◌, ◌/◌, ◌%◌, ◌^◌, ◌≤◌, ◌<◌, ◌≡◌, refl, ap, ◌∙◌, subst, Bool-cases, inl,
  inr, eqb, if◌then◌else◌, List, [], ◌∷◌, ◌++◌, length, length-append, ℤ, pos, negsuc, arith,
}
use native.Mathlib.Nat.{pow-suc}

-- `for value > 0`, with the digits written so far after those to come.
unfoldable pub digits : ℕ → ℕ → List ℕ
digits zero value = []
digits (suc fuel) value =
    let before = digits fuel (value / 10) in
    if eqb value 0 then [] else before ++ (48 + value % 10) ∷ []

-- The negation of the least integer is itself, and not greater than 0.
abbrev pub negated : ℕ → ℕ
negated n = if eqb (suc n) (2 ^ 63) then 0 else suc n

abbrev pub array_length : ℕ
array_length = 20

-- strconvItoa
unfoldable pub strconv_itoa : ℤ → List ℕ
strconv_itoa (pos n) = if eqb n 0 then 48 ∷ [] else digits array_length n
strconv_itoa (negsuc n) = 45 ∷ digits array_length (negated n)

-- The number that a row of digits stands for, in the usual way.
abbrev pub read_digits : ℕ → List ℕ → ℕ
read_digits acc [] = acc
read_digits acc (c ∷ cs) = read_digits (acc * 10 + (c - 48)) cs

read_digits-append :
    (acc c : ℕ) (cs : List ℕ) → read_digits acc (cs ++ c ∷ []) ≡ read_digits acc cs * 10 + (c - 48)
read_digits-append acc c [] = refl
read_digits-append acc c (d ∷ cs) = read_digits-append (acc * 10 + (d - 48)) c cs

smaller : (fuel value : ℕ) → value < 10 ^ suc fuel → value / 10 < 10 ^ fuel
smaller fuel value h = omega (arith, pow-suc 10 fuel)

read_digits-digits :
    (fuel value : ℕ) → value < 10 ^ fuel → read_digits 0 (digits fuel value) ≡ value
unfolding digits
read_digits-digits zero value h = omega arith
read_digits-digits (suc fuel) value h = elim (Bool-cases (eqb value 0)) [
  | inl e ↦ let none_left : 0 ≡ value = ground arith in rw e none_left
  | inr e ↦
      let before = read_digits-digits fuel (value / 10) (smaller fuel value h) in
      let last : read_digits 0 (digits fuel (value / 10)) * 10 + (48 + value % 10 - 48) ≡ value =
        omega (arith, before) in
      rw e (read_digits-append 0 (48 + value % 10) (digits fuel (value / 10)) ∙ last)
]

digits_zero : (fuel : ℕ) → digits fuel 0 ≡ []
unfolding digits
digits_zero zero = refl
digits_zero (suc fuel) = refl

-- With enough rounds the loop has ended by itself: more rounds write nothing more.
digits_enough :
    (fuel more value : ℕ) → value < 10 ^ fuel → digits (fuel + more) value ≡ digits fuel value
unfolding digits
digits_enough zero more value h =
    let none_left : 0 ≡ value = omega arith in
    subst (λ v. digits (0 + more) v ≡ []) none_left (digits_zero (0 + more))
digits_enough (suc fuel) more value h =
    let next : suc fuel + more ≡ suc (fuel + more) = omega arith in
    let rest = digits_enough fuel more (value / 10) (smaller fuel value h) in
    rw next (elim (Bool-cases (eqb value 0)) [
      | inl e ↦ rw e refl
      | inr e ↦ rw e (ap (λ ds. ds ++ (48 + value % 10) ∷ []) rest)
    ])

length-digits : (fuel value : ℕ) → length (digits fuel value) ≤ fuel
unfolding digits
length-digits zero value = omega arith
length-digits (suc fuel) value = elim (Bool-cases (eqb value 0)) [
  | inl e ↦ rw e (omega arith)
  | inr e ↦ rw e (
      omega (
        arith,
        length-append (digits fuel (value / 10)) ((48 + value % 10) ∷ []),
        length-digits fuel (value / 10),
      ))
]

-- For a number that is not negative and fits into 63 bits strconvItoa ends within the array, with
-- room for a sign; its digits stand for the number, and further rounds would add none.
pub strconv_itoa_lem :
    (n more : ℕ)
    → n < 2 ^ 63
    → (read_digits 0 (strconv_itoa (pos n)) ≡ n)
      × (length (strconv_itoa (pos n)) + 1 ≤ array_length)
      × (read_digits 0 (digits (array_length + more) n) ≡ n)
      × (0 < n → digits (array_length + more) n ≡ strconv_itoa (pos n))
unfolding strconv_itoa
strconv_itoa_lem n more h =
    let few : n < 10 ^ 19 = omega arith in
    let same : digits 20 n ≡ digits 19 n = digits_enough 19 1 n few in
    let longer : digits (20 + more) n ≡ digits 20 n = digits_enough 20 more n (omega arith) in
    let read = read_digits-digits 20 n (omega arith) in
    elim (Bool-cases (eqb n 0)) [
      | inl e ↦
          let none_left : 0 ≡ n = ground arith in
          (
            rw e none_left,
            rw e (omega arith),
            ap (read_digits 0) longer ∙ read,
            λ k. absurd (omega (arith, none_left)),
          )
      | inr e ↦ (
        rw e read,
        rw (e, same) (omega (arith, length-digits 19 n)),
        ap (read_digits 0) longer ∙ read,
        λ k. rw e longer,
      )
    ]
