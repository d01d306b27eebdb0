-- ===== src/Traffic/HuMobilePhone/Forms.antt =====
-- The ways to write a mobile number that lead to the same normal form.
use nyzrating.Prelude.{
  ℕ, ◌≡◌, refl, ◌↔◌, ◌⊎◌, inl, inr, Bool, true, false, not, ◌||◌, [], ◌∷◌, ◌++◌, all, take, length,
  keep, drop, arith, if◌then◌else◌, Option, some, Bool-cases, sym, ◌∙◌, subst,
}
use nyzrating.Prelude.Text.{Text, codes, starts_with, mem_text, text_eq, truthy, or_empty}
use nyzrating.Traffic.HuMobilePhone.{
  mobile_prefixes, is_separator, digits_of, with_country, digits_of_raw, plus_for_zeros, with_plus,
  normalize_hu_mobile,
}
use nyzrating.Traffic.HuMobilePhone.Normal.{AreDecimals, all-raw, normalize_hu_mobile-idempotent}

-- Nine characters that begin with a prefix of mobile numbers.
abbrev pub IsLocal : Text → Type 0
IsLocal local = (length local ≡ 9) × (mem_text (take 2 local) mobile_prefixes ≡ true)

-- The digits of a number in the country: bare, or after 06, 6 or 36.
abbrev pub IsNational : Text → Text → Type 0
IsNational local digits =
    (digits ≡ local)
    ⊎ (digits ≡ codes "6" ++ local)
    ⊎ (digits ≡ codes "06" ++ local)
    ⊎ (digits ≡ codes "36" ++ local)

-- Which characters a local number begins with.
local_head :
    (local : Text)
    → IsLocal local
    → starts_with local (codes "0") || starts_with local (codes "6") ≡ false
unfolding mem_text text_eq starts_with
local_head [] h = cc
local_head (a ∷ []) h = cc
local_head (a ∷ b ∷ s) h = ground arith

module _ (is_decimal : ℕ → Bool) where
  country_to :
      (local d : Text)
      → IsLocal local
      → with_country is_decimal d ≡ codes "36" ++ local
      → IsNational local d
  unfolding with_country starts_with
  country_to local [] l h = ground arith
  country_to local (a ∷ []) l h = ground arith
  country_to local (a ∷ b ∷ d) l h = ground arith

  country_from :
      (local d : Text)
      → IsLocal local
      → IsNational local d
      → with_country is_decimal d ≡ codes "36" ++ local
  unfolding with_country starts_with
  country_from [] d l h = absurd (ground arith)
  country_from (a ∷ []) d l h = absurd (ground arith)
  country_from (a ∷ b ∷ s) d l (inl e) = ground (arith, local_head (a ∷ b ∷ s) l)
  country_from (a ∷ b ∷ s) d l (inr (inl e)) = ground (arith, local_head (a ∷ b ∷ s) l)
  country_from (a ∷ b ∷ s) d l (inr (inr (inl e))) = ground arith
  country_from (a ∷ b ∷ s) d l (inr (inr (inr e))) = ground arith

  -- The text without separators.
  abbrev pub compact : Option Text → Text
  compact value = keep (λ c. not (is_separator c)) (or_empty value)

  -- Whether a text without separators begins with a plus or with 00.
  abbrev pub is_international : Text → Bool
  is_international raw = starts_with raw (codes "+") || starts_with raw (codes "00")

  -- The digits of a text without separators, after a plus or 00.
  abbrev pub digits_after : Text → Text
  digits_after raw =
      if starts_with raw (codes "00")
      then digits_of is_decimal (drop 2 raw)
      else if starts_with raw (codes "+")
      then digits_of is_decimal (drop 1 raw)
      else digits_of is_decimal raw

  -- The writings of a number: from abroad with 36, or as in the country.
  abbrev pub Writes : Text → Text → Type 0
  Writes local raw =
      ((is_international raw ≡ true) × (digits_after raw ≡ codes "36" ++ local))
      ⊎ ((is_international raw ≡ false) × IsNational local (digits_after raw))

  with_plus_iff :
      (local d : Text) → (with_plus is_decimal d ≡ codes "+36" ++ local) ↔ (d ≡ codes "36" ++ local)
  unfolding starts_with
  with_plus_iff local [] = (λ h. cc, λ h. cc)
  with_plus_iff local (a ∷ []) = (λ h. ground arith, λ h. ground arith)
  with_plus_iff local (a ∷ b ∷ d) = (λ h. ground arith, λ h. ground arith)

  -- The shape of a normal form.
  abbrev pub IsNormal : Text → Type 0
  IsNormal n =
      (n ≡ []) ⊎ ((digits : Text) × (n ≡ codes "+36" ++ digits) × (all is_decimal digits ≡ true))

  raw_from_abroad :
      (raw : Text)
      → is_international raw ≡ true
      → digits_of_raw is_decimal (plus_for_zeros is_decimal raw) ≡ digits_after raw
  unfolding starts_with
  raw_from_abroad [] h = cc
  raw_from_abroad (a ∷ []) h = ground arith
  raw_from_abroad (a ∷ b ∷ raw) h = ground arith

  raw_in_country :
      (raw : Text)
      → is_international raw ≡ false
      → digits_of_raw is_decimal (plus_for_zeros is_decimal raw)
        ≡ with_country is_decimal (digits_after raw)
  raw_in_country raw h = ground arith

  raw_iff :
      (local raw : Text)
      → IsLocal local
      → (digits_of_raw is_decimal (plus_for_zeros is_decimal raw) ≡ codes "36" ++ local)
        ↔ Writes local raw
  raw_iff local raw l = elim (Bool-cases (is_international raw)) [
    | inl abroad ↦
        rw (raw_from_abroad raw abroad)
          ((λ h. inl (abroad, h)), (λ w. elim w [ inl e ↦ e.1 | inr e ↦ absurd (ground arith) ]))
    | inr home ↦ rw (raw_in_country raw home) (
      (λ h. inr (home, country_to local (digits_after raw) l h)),
      (λ w. elim w [
        | inl e ↦ absurd (ground arith)
        | inr e ↦ country_from local (digits_after raw) l e.1
      ]),
    )
  ]

  -- The test for an empty text changes nothing.
  when_empty :
      (raw : Text)
      → let n = with_plus is_decimal (digits_of_raw is_decimal (plus_for_zeros is_decimal raw)) in
        (if truthy raw then n else []) ≡ n
  unfolding starts_with digits_of with_country
  when_empty [] = refl
  when_empty (a ∷ raw) = refl

  normal_iff :
      (value : Option Text) (local : Text)
      → IsLocal local
      → (normalize_hu_mobile is_decimal value ≡ codes "+36" ++ local) ↔ Writes local (compact value)
  unfolding normalize_hu_mobile
  normal_iff value local l =
      let raw = compact value in
      let digits = digits_of_raw is_decimal (plus_for_zeros is_decimal raw) in
      let (plus_to, plus_from) = with_plus_iff local digits in
      let (raw_to, raw_from) = raw_iff local raw l in
      (
        (λ h. raw_to (plus_to (sym (when_empty raw) ∙ h))),
        (λ w. when_empty raw ∙ plus_from (raw_from w)),
      )

  with_plus-IsNormal :
      (digits : Text) → all is_decimal digits ≡ true → IsNormal (with_plus is_decimal digits)
  unfolding starts_with
  with_plus-IsNormal [] h = inl refl
  with_plus-IsNormal (a ∷ []) h = inl (ground arith)
  with_plus-IsNormal (a ∷ b ∷ d) h = elim (Bool-cases (starts_with (a ∷ b ∷ d) (codes "36"))) [
    | inl hungarian ↦ inr (d, ground arith, ground arith)
    | inr foreign ↦ inl (rw foreign refl)
  ]

  -- Where the decimals are what Unicode calls so, a normal form is empty, or +36 and decimals,
  -- and is its own normal form; and it is +36 and a local number, of nine characters with the
  -- prefix of a mobile number, exactly when the value without separators writes that number:
  -- after a plus or 00 its decimals are 36 and the local number, and otherwise they are the
  -- local number, alone or after 6, 06 or 36.
  pub normalize_hu_mobile_exact :
      AreDecimals is_decimal
      → (value : Option Text) (local : Text) → IsLocal local
      → let n = normalize_hu_mobile is_decimal value in
        IsNormal n
        × (normalize_hu_mobile is_decimal (some n) ≡ n)
        × ((n ≡ codes "+36" ++ local) ↔ Writes local (compact value))
  unfolding normalize_hu_mobile
  normalize_hu_mobile_exact laws value local l =
      let raw = plus_for_zeros is_decimal (compact value) in
      (
        subst IsNormal (sym (when_empty (compact value)))
            (with_plus-IsNormal (digits_of_raw is_decimal raw) (all-raw is_decimal laws raw)),
        normalize_hu_mobile-idempotent is_decimal laws value,
        normal_iff value local l,
      )
