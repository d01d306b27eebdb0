-- ===== src/Tenant/Signup.antt =====
-- backend/core/modules/tenant/signup/abuse_controls.py: the switch of the demo signup and the
-- daily counters, in Redis, or in memory where Redis gives no answer. The Redis client is a
-- parameter, of which a call that fails gives none or false; `fail_closed` is the answer of
-- `_fail_closed_active`, and `day_key` the day of the instant in UTC.
pub mod Counters
use nyzrating.Prelude.{
  ℕ, zero, suc, ◌+◌, ◌*◌, Bool, true, false, Option, none, some, List, [], ◌∷◌, ◌++◌, if◌then◌else◌,
}
use nyzrating.Prelude.Int.{ℤ, pos, negsuc}
use nyzrating.Prelude.Text.{Text, codes, text_or, strip, lower, mem_text}
use nyzrating.Prelude.Dict.{Dict, get, put}

pub record Redis (R : Type 0) : Type 0 where
  pub read : Text → R → Option (Option Text)
  pub set : Text → Text → R → Bool × R
  pub incr : Text → R → Option ℕ × R
  pub ttl : Text → R → Option ℤ
  pub expire : Text → ℕ → R → Bool × R

pub record State (R : Type 0) : Type 0 where
  pub remote : R
  pub fallback_counters : Dict ℕ
  pub fallback_enabled_override : Option Bool

abbrev pub signup_enabled_key : Text
signup_enabled_key = codes "security:demo_signup:enabled"

abbrev pub counter_prefix : Text
counter_prefix = codes "security:demo_signup:counter"

abbrev pub counter_ttl_sec : ℕ
counter_ttl_sec = 3 * 24 * 60 * 60

abbrev pub or_default : Bool → Option Bool → Bool
or_default default_enabled none = default_enabled
or_default default_enabled (some enabled) = enabled

abbrev pub truths : List Text
truths = codes "1" ∷ codes "true" ∷ codes "yes" ∷ codes "on" ∷ []

abbrev pub parse_enabled : Bool → Option Text → Bool
parse_enabled default_enabled none = default_enabled
parse_enabled default_enabled (some value) = mem_text (lower (strip value)) truths

unfoldable pub counter_key : Text → Text → Text → Text
counter_key day_key scope key =
    let normalized_scope = text_or (lower (strip scope)) (codes "global") in
    let normalized_key = text_or (lower (strip key)) (codes "default") in
    counter_prefix
    ++ (codes ":"
        ++ (day_key ++ (codes ":" ++ (normalized_scope ++ (codes ":" ++ normalized_key)))))

abbrev pub or_zero : Option ℕ → ℕ
or_zero none = 0
or_zero (some n) = n

-- `int(ttl or -1) < 0`
abbrev pub never_expires : ℤ → Bool
never_expires (pos zero) = true
never_expires (pos (suc n)) = false
never_expires (negsuc n) = true

module _ {R : Type 0} where
  unfoldable pub is_demo_signup_enabled : Option (Redis R) → Bool → Bool → State R → Bool
  is_demo_signup_enabled none fail_closed default_enabled s =
      if fail_closed then false else or_default default_enabled s.fallback_enabled_override
  is_demo_signup_enabled (some client) fail_closed default_enabled s =
      elim (client.read signup_enabled_key s.remote) [
        | some value ↦ parse_enabled default_enabled value
        | none ↦
            if fail_closed then false else or_default default_enabled s.fallback_enabled_override
      ]

  -- False is the RuntimeError.
  unfoldable pub set_demo_signup_enabled : Option (Redis R) → Bool → Bool → State R → Bool × State R
  set_demo_signup_enabled none fail_closed enabled s =
      if fail_closed
      then (false, s)
      else (true, record s { fallback_enabled_override = some enabled })
  set_demo_signup_enabled (some client) fail_closed enabled s =
      let (ok, r) =
        client.set signup_enabled_key (if enabled then codes "1" else codes "0") s.remote in
      let written = record s { remote = r } in
      if ok
      then (true, written)
      else if fail_closed
      then (false, written)
      else (true, record written { fallback_enabled_override = some enabled })

  -- The answer of Redis: none where one of the calls fails.
  unfoldable pub bump_remote : Redis R → Text → R → Option ℕ × R
  bump_remote client key r =
      let (count, s) = client.incr key r in
      elim count [
        | none ↦ (none, s)
        | some n ↦ elim (client.ttl key s) [
          | none ↦ (none, s)
          | some left ↦
              let (ok, t) = client.expire key counter_ttl_sec s in
              if never_expires left then (if ok then some n else none, t) else (some n, s)
        ]
      ]

  unfoldable pub bump_fallback : Text → State R → ℕ × State R
  bump_fallback key s =
      let count = or_zero (get key s.fallback_counters) + 1 in
      (count, record s { fallback_counters = put key count s.fallback_counters })

  abbrev pub counted : ℕ × State R → Option ℕ × State R
  counted (n, s) = (some n, s)

  -- None is the RuntimeError.
  unfoldable pub bump_daily_counter :
      Option (Redis R) → Bool → Text → Text → Text → State R → Option ℕ × State R
  bump_daily_counter none fail_closed day_key scope key s =
      if fail_closed then (none, s) else counted (bump_fallback (counter_key day_key scope key) s)
  bump_daily_counter (some client) fail_closed day_key scope key s =
      let (count, r) = bump_remote client (counter_key day_key scope key) s.remote in
      let written = record s { remote = r } in
      elim count [
        | some n ↦ (some n, written)
        | none ↦
            if fail_closed
            then (none, written)
            else counted (bump_fallback (counter_key day_key scope key) written)
      ]
