-- ===== src/Prelude/Text.antt =====
-- Python's `str` as its list of code points, with the methods that the program calls.
-- `strip` knows every code point for which `str.isspace` holds. `lower` and `upper` map the ASCII
-- letters, and `lower` also the Kelvin sign, the one other code point whose lower case is a
-- single ASCII letter; other letters stay as they are, which no comparison of the result with an
-- ASCII literal can tell.
use Prim.Native.Nat.{◌≤◌, ℕ, ◌+◌, ◌-◌}
use Prim.Native.Char.{code}
use Prim.Native.String.{String}
use mathlib.Core.Path.{◌≡◌, refl, ap, sym, subst, ◌∙◌}
use mathlib.Core.Logic.{◌↔◌, inl, inr}
use mathlib.Core.Bool.{Bool, true, false, ◌&&◌, ◌||◌}
use mathlib.Core.Option.{Option, none, some}
use mathlib.Core.List.{
  List, [], ◌∷◌, ◌++◌, map, reverse, reverse-append, reverse-cons, reverse-reverse,
}
use native.Mathlib.Omega.{arith}
use nyzrating.Prelude.Lists.{length}
use nyzrating.Prelude.Tests.{leb, ◌==◌, if◌then◌else◌, Bool-cases}

abbrev pub Text : Type 0
Text = List ℕ

-- A literal of the source.
abbrev pub codes : String → Text
codes String.[] = []
codes (String.◌∷◌ c s) = code c ∷ codes s

-- `s == t`
unfoldable pub text_eq : Text → Text → Bool
text_eq [] [] = true
text_eq [] (d ∷ t) = false
text_eq (c ∷ s) [] = false
text_eq (c ∷ s) (d ∷ t) = c == d && text_eq s t

pub text_eq_iff : (s t : Text) → (text_eq s t ≡ true) ↔ (s ≡ t)
unfolding text_eq
text_eq_iff [] [] = (λ h. refl, λ h. refl)
text_eq_iff [] (d ∷ t) = (λ h. cc, λ h. cc)
text_eq_iff (c ∷ s) [] = (λ h. cc, λ h. cc)
text_eq_iff (c ∷ s) (d ∷ t) =
    (λ h. ground (arith, text_eq_iff s t), λ h. ground (arith, text_eq_iff s t))

pub text_eq_refl : (s : Text) → text_eq s s ≡ true
text_eq_refl s = (text_eq_iff s s).1 refl

-- The truth of a text: it is not empty.
abbrev pub truthy : Text → Bool
truthy [] = false
truthy (c ∷ s) = true

-- `s or d`
abbrev pub text_or : Text → Text → Text
text_or [] d = d
text_or (c ∷ s) d = c ∷ s

-- `o or ""` on an optional text.
abbrev pub or_empty : Option Text → Text
or_empty none = []
or_empty (some s) = s

-- `s or None`
abbrev pub text_or_none : Text → Option Text
text_or_none [] = none
text_or_none (c ∷ s) = some (c ∷ s)

-- `str.isspace` of one character.
unfoldable pub is_space : ℕ → Bool
is_space c =
    (leb 9 c && leb c 13)
    || (leb 28 c && leb c 32)
    || c == 133
    || c == 160
    || c == 5760
    || (leb 8192 c && leb c 8202)
    || c == 8232
    || c == 8233
    || c == 8239
    || c == 8287
    || c == 12288

unfoldable pub lstrip : Text → Text
unfolding is_space
lstrip [] = []
lstrip (c ∷ s) = if is_space c then lstrip s else c ∷ s

-- `s.strip()`
unfoldable pub strip : Text → Text
unfolding lstrip
strip s = reverse (lstrip (reverse (lstrip s)))

unfoldable pub lower_char : ℕ → ℕ
lower_char c = if leb 65 c && leb c 90 then c + 32 else if c == 8490 then 107 else c

unfoldable pub lower : Text → Text
unfolding lower_char
lower = map lower_char

unfoldable pub upper_char : ℕ → ℕ
upper_char c = if leb 97 c && leb c 122 then c - 32 else c

unfoldable pub upper : Text → Text
unfolding upper_char
upper = map upper_char

-- `s.startswith(p)`
unfoldable pub starts_with : Text → Text → Bool
starts_with s [] = true
starts_with [] (d ∷ p) = false
starts_with (c ∷ s) (d ∷ p) = c == d && starts_with s p

-- `s.endswith(p)`
unfoldable pub ends_with : Text → Text → Bool
unfolding starts_with
ends_with s p = starts_with (reverse s) (reverse p)

-- `str.isdigit` of one ASCII character.
unfoldable pub is_digit : ℕ → Bool
is_digit c = leb 48 c && leb c 57

-- `item in values`
unfoldable pub mem_text : Text → List Text → Bool
unfolding text_eq
mem_text t [] = false
mem_text t (u ∷ us) = text_eq t u || mem_text t us

lstrip_idem : (s : Text) → lstrip (lstrip s) ≡ lstrip s
unfolding lstrip
lstrip_idem [] = refl
lstrip_idem (c ∷ s) = elim (Bool-cases (is_space c)) [
  | inl p ↦ rw p (lstrip_idem s)
  | inr p ↦ rw p (rw p)
]

lstrip-snoc : (s : Text) (c : ℕ) → is_space c ≡ false → lstrip (s ++ c ∷ []) ≡ lstrip s ++ c ∷ []
unfolding lstrip
lstrip-snoc [] c h = rw h
lstrip-snoc (d ∷ s) c h = elim (Bool-cases (is_space d)) [
  | inl p ↦ rw p (lstrip-snoc s c h)
  | inr p ↦ rw p
]

-- A text is stripped from the right.
abbrev rstrip : Text → Text
rstrip s = reverse (lstrip (reverse s))

rstrip-cons : (c : ℕ) (s : Text) → is_space c ≡ false → rstrip (c ∷ s) ≡ c ∷ rstrip s
rstrip-cons c s h = rw (reverse-cons, lstrip-snoc (reverse s) c h, reverse-append) refl

length-lstrip : (s : Text) → length (lstrip s) ≤ length s
unfolding lstrip
length-lstrip [] = omega arith
length-lstrip (c ∷ s) = ground (arith, length-lstrip s)

longer : (c : ℕ) (s : Text) → is_space c ≡ true → lstrip (c ∷ s) ≡ c ∷ s → ⊥
unfolding lstrip
longer c s p h = omega (arith, ap length (sym (rw p at h)), length-lstrip s)

lstrip-rstrip : (s : Text) → lstrip s ≡ s → lstrip (rstrip s) ≡ rstrip s
unfolding lstrip
lstrip-rstrip [] h = refl
lstrip-rstrip (c ∷ s) h = elim (Bool-cases (is_space c)) [
  | inl p ↦ absurd (longer c s p h)
  | inr p ↦ rw (rstrip-cons c s p) (rw p)
]

-- `s.strip().strip() == s.strip()`
pub strip_idem : (s : Text) → strip (strip s) ≡ strip s
unfolding strip
strip_idem s = rw (lstrip-rstrip (lstrip s) (lstrip_idem s), reverse-reverse, lstrip_idem) refl

-- A cleaned text is truthy or `None`, and stays as it is when cleaned again.
pub text_or_none-strip :
    (s : Text) (k : Text) → text_or_none (strip s) ≡ some k → text_or_none (strip k) ≡ some k
text_or_none-strip s k h =
    let e = text_or_none-eq (strip s) k h in
    subst (λ u. text_or_none (strip u) ≡ some u) e (rw strip_idem (h ∙ ap some (sym e)))
  where
    text_or_none-eq : (t u : Text) → text_or_none t ≡ some u → t ≡ u
    text_or_none-eq [] u p = cc
    text_or_none-eq (c ∷ t) u p = cc
