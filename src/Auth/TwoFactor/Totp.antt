-- ===== src/Auth/TwoFactor/Totp.antt =====
-- The codes of an authenticator app in backend/core/modules/auth/use_cases/login_service.py:
-- HOTP over HMAC-SHA-1. Base32, HMAC and the classes of Unicode characters are parameters.
use nyzrating.Prelude.{
  ℕ, zero, suc, ◌+◌, ◌-◌, ◌*◌, ◌/◌, ◌%◌, ◌^◌, Bool, true, false, Option, none, some, List, [], ◌∷◌,
  ◌++◌, ltb, ◌==◌, keep, length, take, drop, if◌then◌else◌, ◌>>=◌,
}
use nyzrating.Prelude.Text.{Text, text_eq, upper}
use nyzrating.Auth.TwoFactor.Attempts.{str}

pub record Crypto : Type 0 where
  -- `str.isalnum` and `str.isdigit` of one character
  pub is_alnum : ℕ → Bool
  pub is_digit_char : ℕ → Bool
  -- `base64.b32decode`; `none` is its error
  pub b32decode : Text → Option (List ℕ)
  pub hmac_sha1 : List ℕ → List ℕ → List ℕ

-- `struct.pack(">Q", n)`, with an error from 2 ^ 64
abbrev pack_bytes : ℕ → ℕ → List ℕ
pack_bytes zero n = []
pack_bytes (suc width) n = pack_bytes width (n / 256) ++ (n % 256) ∷ []

unfoldable pub pack_q : ℕ → Option (List ℕ)
pack_q n = if ltb n (2 ^ 64) then some (pack_bytes 8 n) else none

-- `struct.unpack(">I", bytes)[0]`, with an error unless there are four
unfoldable pub unpack_i : List ℕ → Option ℕ
unpack_i (a ∷ b ∷ c ∷ d ∷ []) = some (((a * 256 + b) * 256 + c) * 256 + d)
unpack_i _ = none

-- `digest[-1]`
abbrev pub last_byte : List ℕ → Option ℕ
last_byte [] = none
last_byte (b ∷ []) = some b
last_byte (b ∷ c ∷ bytes) = last_byte (c ∷ bytes)

abbrev pub zeros : ℕ → Text
zeros zero = []
zeros (suc n) = 48 ∷ zeros n

-- `s.zfill(width)` of a text without a sign
unfoldable pub zfill : ℕ → Text → Text
zfill width s = zeros (width - length s) ++ s

module _ (c : Crypto) where
  unfoldable pub sanitize_totp_secret : Text → Text
  sanitize_totp_secret secret = keep c.is_alnum (upper secret)

  -- The four bytes at the offset that the last byte names, less the sign bit.
  unfoldable pub truncate : List ℕ → Option ℕ
  truncate digest = do
    b ← last_byte digest
    n ← unpack_i (take 4 (drop (b % 16) digest))
    some (n % 2 ^ 31)

  -- `none` is an exception: a secret that is not Base32, or a counter that does not fit.
  unfoldable pub hotp : Text → ℕ → Option Text
  hotp secret counter = do
    key ← c.b32decode (sanitize_totp_secret secret)
    msg ← pack_q counter
    binary ← truncate (c.hmac_sha1 key msg)
    some (zfill 6 (str (binary % 10 ^ 6)))

  abbrev pub matches_hotp : Option Text → Text → Option Bool → Option Bool
  matches_hotp none code rest = none
  matches_hotp (some expected) code rest = if text_eq expected code then some true else rest

  -- The loop over the counters; a counter below zero does not fit.
  abbrev pub try_counters : Text → Text → List (Option ℕ) → Option Bool
  try_counters secret code [] = some false
  try_counters secret code (none ∷ counters) = none
  try_counters secret code (some n ∷ counters) =
      matches_hotp (hotp secret n) code (try_counters secret code counters)

  abbrev pub one_before : ℕ → Option ℕ
  one_before zero = none
  one_before (suc n) = some n

  abbrev pub period : ℕ
  period = 30000000

  -- With the default period and window: the counter of the instant, and one on either side.
  unfoldable pub verify_authenticator_code : ℕ → Text → Text → Option Bool
  verify_authenticator_code now secret code =
      let normalized_code = keep c.is_digit_char code in
      let n = now / period in
      if length normalized_code == 6
      then try_counters secret normalized_code (one_before n ∷ some n ∷ some (n + 1) ∷ [])
      else some false
