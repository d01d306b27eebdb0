-- ===== src/Traffic/HuMobilePhone/Normal.antt =====
-- The normal form of a mobile number.
use nyzrating.Prelude.{
  ℕ, zero, suc, ◌≡◌, refl, Bool, true, false, not, ◌&&◌, Option, some, [], ◌∷◌, keep, all, arith,
  inl, inr, Bool-cases, drop, leb,
}
use nyzrating.Prelude.Text.{Text, codes, starts_with, is_space, truthy, or_empty}
use nyzrating.Traffic.HuMobilePhone.{
  is_separator, digits_of, with_country, digits_of_raw, plus_for_zeros, with_plus,
  normalize_hu_mobile,
}

-- What the model relies on of the decimals of Unicode: no separator is one, the ASCII digits 3
-- and 6 are, and the plus is not.
pub record AreDecimals (is_decimal : ℕ → Bool) : Type 0 where
  pub no_separator : (c : ℕ) → is_decimal c ≡ true → is_separator c ≡ false
  pub zero_to_nine : (c : ℕ) → leb 48 c && leb c 57 ≡ true → is_decimal c ≡ true

module _ (is_decimal : ℕ → Bool) (laws : AreDecimals is_decimal) where
  all-keep : (p : ℕ → Bool) (s : Text) → all p (keep p s) ≡ true
  all-keep p [] = refl
  all-keep p (c ∷ s) = ground (arith, all-keep p s)

  all-drop : (p : ℕ → Bool) (n : ℕ) (s : Text) → all p s ≡ true → all p (drop n s) ≡ true
  all-drop p zero s h = h
  all-drop p (suc n) [] h = refl
  all-drop p (suc n) (c ∷ s) h = all-drop p n s (ground arith)

  keep-all : (p : ℕ → Bool) (s : Text) → all p s ≡ true → keep p s ≡ s
  keep-all p [] h = refl
  keep-all p (c ∷ s) h = ground (arith, keep-all p s)

  keep_decimals : (s : Text) → all is_decimal s ≡ true → keep (λ c. not (is_separator c)) s ≡ s
  keep_decimals [] h = refl
  keep_decimals (c ∷ s) h = ground (arith, laws.no_separator c, keep_decimals s)

  all-country :
      (s : Text) → all is_decimal s ≡ true → all is_decimal (with_country is_decimal s) ≡ true
  unfolding with_country
  all-country s h =
      ground
        (arith, all-drop is_decimal 2 s h, laws.zero_to_nine 51 refl, laws.zero_to_nine 54 refl)

  pub all-raw : (s : Text) → all is_decimal (digits_of_raw is_decimal s) ≡ true
  unfolding digits_of
  all-raw s = ground (
    arith,
    all-keep is_decimal (drop 1 s),
    all-country (keep is_decimal s) (all-keep is_decimal s),
  )

  -- The normal form of a normal form.
  plus-normal :
      (digits : Text)
      → all is_decimal digits ≡ true
      → starts_with digits (codes "36") ≡ true
      → normalize_hu_mobile is_decimal (some (43 ∷ digits)) ≡ 43 ∷ digits
  unfolding normalize_hu_mobile starts_with is_separator is_space digits_of
  plus-normal digits h p = rw (keep_decimals digits h, keep-all is_decimal digits h, p) refl

  with_plus-normal :
      (digits : Text)
      → all is_decimal digits ≡ true
      → normalize_hu_mobile is_decimal (some (with_plus is_decimal digits))
        ≡ with_plus is_decimal digits
  unfolding normalize_hu_mobile
  with_plus-normal digits h = elim (Bool-cases (starts_with digits (codes "36"))) [
    | inl hungarian ↦ rw hungarian (plus-normal digits h hungarian)
    | inr foreign ↦ rw foreign refl
  ]

  -- Where the decimals are what Unicode calls so, a normal form of a mobile number is its own
  -- normal form: a plus and digits from 36 on, or the empty text for any other.
  pub normalize_hu_mobile-idempotent :
      (value : Option Text)
      → normalize_hu_mobile is_decimal (some (normalize_hu_mobile is_decimal value))
        ≡ normalize_hu_mobile is_decimal value
  unfolding normalize_hu_mobile
  normalize_hu_mobile-idempotent value =
      let raw = keep (λ c. not (is_separator c)) (or_empty value) in
      elim (Bool-cases (truthy raw)) [
        | inl something ↦ rw something (
            with_plus-normal (digits_of_raw is_decimal (plus_for_zeros is_decimal raw))
              (all-raw (plus_for_zeros is_decimal raw)))
        | inr nothing ↦ rw nothing refl
      ]
