-- ===== src/Tenant/Slugs/Candidates.antt =====
-- Which characters the slug of a demo tenant has, and how long it gets.
use nyzrating.Prelude.{
  ℕ, zero, suc, ◌-◌, ◌≤◌, ◌≡◌, refl, arith, Bool, true, false, ◌&&◌, ◌||◌, [], ◌∷◌, ◌++◌, ◌==◌,
  length, length-append, length-take, take, all, keep, ◌∙◌,
}
use mathlib.Core.List.{reverse, reverse-cons}
use nyzrating.Prelude.Text.{Text, codes, text_or, lower}
use nyzrating.Auth.TwoFactor.Attempts.{str}
use nyzrating.Tenant.Slugs.{
  hyphen, in_slug, is_ascii, hyphenate, single_hyphens, lstrip_hyphens, strip_hyphens,
  demo_slug_base, candidate_demo_slug,
}

abbrev slug_char : ℕ → Bool
slug_char c = in_slug c || c == hyphen

hyphenate_chars : (replaced : Bool) (s : Text) → all slug_char (hyphenate replaced s) ≡ true
unfolding hyphenate
hyphenate_chars b [] = refl
hyphenate_chars b (c ∷ s) = ground (arith, hyphenate_chars false s, hyphenate_chars true s)

single_hyphens_chars :
    (after : Bool) (s : Text)
    → all slug_char s ≡ true
    → all slug_char (single_hyphens after s) ≡ true
unfolding single_hyphens
single_hyphens_chars b [] h = refl
single_hyphens_chars b (c ∷ s) h = ground (arith, single_hyphens_chars (c == hyphen) s)

lstrip_hyphens_chars : (s : Text) → all slug_char s ≡ true → all slug_char (lstrip_hyphens s) ≡ true
unfolding lstrip_hyphens
lstrip_hyphens_chars [] h = refl
lstrip_hyphens_chars (c ∷ s) h = ground (arith, lstrip_hyphens_chars s)

module _ (p : ℕ → Bool) where
  all-append : (s t : Text) → all p (s ++ t) ≡ (all p s && all p t)
  all-append [] t = refl
  all-append (c ∷ s) t = ground (arith, all-append s t)

  all-reverse : (s : Text) → all p (reverse s) ≡ all p s
  all-reverse [] = refl
  all-reverse (c ∷ s) =
      ground (arith, reverse-cons c s, all-append (reverse s) (c ∷ []), all-reverse s)

  all-take : (n : ℕ) (s : Text) → all p s ≡ true → all p (take n s) ≡ true
  all-take zero s h = refl
  all-take (suc n) [] h = refl
  all-take (suc n) (c ∷ s) h = ground (arith, all-take n s)

strip_hyphens_chars : (s : Text) → all slug_char s ≡ true → all slug_char (strip_hyphens s) ≡ true
strip_hyphens_chars s h =
    let front = lstrip_hyphens s in
    let back = lstrip_hyphens (reverse front) in
    all-reverse slug_char back
    ∙ lstrip_hyphens_chars (reverse front) (all-reverse slug_char front ∙ lstrip_hyphens_chars s h)

text_or_chars :
    (s t : Text)
    → all slug_char s ≡ true
    → all slug_char t ≡ true
    → all slug_char (text_or s t) ≡ true
text_or_chars [] t h h' = h'
text_or_chars (c ∷ s) t h h' = h

-- The base of a slug has at most 48 characters, which are small letters, digits and hyphens.
demo_slug_base_chars :
    (nfkd : Text → Text) (raw_name : Text)
    → (all slug_char (demo_slug_base nfkd raw_name) ≡ true)
      × (length (demo_slug_base nfkd raw_name) ≤ 48)
unfolding demo_slug_base
demo_slug_base_chars nfkd raw_name =
    let hyphenated = hyphenate false (lower (keep is_ascii (nfkd raw_name))) in
    let single = single_hyphens false (strip_hyphens hyphenated) in
    (
      all-take slug_char 48 (text_or single (codes "demo")) (
          text_or_chars single (codes "demo")
            (single_hyphens_chars false (strip_hyphens hyphenated) (
              strip_hyphens_chars hyphenated
                (hyphenate_chars false (lower (keep is_ascii (nfkd raw_name))))))
            refl),
      length-take 48 (text_or single (codes "demo")),
    )

-- A candidate has at most 64 characters while its number has.
length-candidate_demo_slug :
    (base : Text) (suffix : ℕ)
    → length (str suffix) ≤ 64
    → length (candidate_demo_slug base suffix) ≤ 64
unfolding candidate_demo_slug
length-candidate_demo_slug base n h = ground (
  arith,
  length-take 64 base,
  length-take (64 - length (str n)) base,
  length-append (take (64 - length (str n)) base) (str n),
)
