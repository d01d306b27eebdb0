-- ===== src/Tenant/Signup/Counters.antt =====
-- What the demo signup reads back of its switch and of its daily counters.
use nyzrating.Prelude.{
  ℕ, ◌+◌, ◌≡◌, refl, arith, Bool, true, false, none, some, List, [], ◌∷◌, if◌then◌else◌,
}
use nyzrating.Prelude.Text.{
  Text, codes, text_eq, text_eq_iff, strip, lower, mem_text, lstrip, is_space, lower_char,
}
use nyzrating.Prelude.Dict.{get, get-put}
use nyzrating.Tenant.Signup.{
  Redis, State, signup_enabled_key, parse_enabled, or_zero, counter_key, is_demo_signup_enabled,
  set_demo_signup_enabled, bump_fallback, bump_daily_counter,
}

-- Redis holds what was set.
abbrev pub ReadsBack : {R : Type 0} → Redis R → Type 0
ReadsBack {R} client =
    (k v : Text) (r : R)
    → (client.set k v r).0 ≡ true
    → client.read k (client.set k v r).1 ≡ some (some v)

parse_switch :
    (default_enabled enabled : Bool)
    → parse_enabled default_enabled (some (if enabled then codes "1" else codes "0")) ≡ enabled
unfolding mem_text text_eq strip lstrip is_space lower lower_char
parse_switch d true = refl
parse_switch d false = refl

-- In memory, the switch is read as it was set.
switch_in_memory :
    {R : Type 0} (default_enabled enabled : Bool) (s : State R)
    → is_demo_signup_enabled none false default_enabled
        (set_demo_signup_enabled none false enabled s).1
      ≡ enabled
unfolding is_demo_signup_enabled set_demo_signup_enabled
switch_in_memory d e s = refl

-- In a Redis that holds what was set, the switch is read as it was set, when the write succeeds.
switch_in_redis :
    {R : Type 0} (client : Redis R) (fail_closed default_enabled enabled : Bool) (s : State R)
    → ReadsBack client
    → (client.set signup_enabled_key (if enabled then codes "1" else codes "0") s.remote).0 ≡ true
    → is_demo_signup_enabled
        (some client)
        fail_closed
        default_enabled
        (set_demo_signup_enabled (some client) fail_closed enabled s).1
      ≡ enabled
unfolding is_demo_signup_enabled set_demo_signup_enabled
switch_in_redis client f d e s back ok =
    let v = if e then codes "1" else codes "0" in
    rw (ok, back signup_enabled_key v s.remote ok) (parse_switch d e)

-- A call counts under the day, the scope and the key.
abbrev Call : Type 0
Call = Text × (Text × Text)

abbrev key_of : Call → Text
key_of (day_key, (scope, key)) = counter_key day_key scope key

unfoldable calls_of : Text → List Call → ℕ
calls_of k [] = 0
calls_of k (c ∷ cs) = let n = calls_of k cs in if text_eq (key_of c) k then n + 1 else n

module _ {R : Type 0} where
  abbrev count_call : Call → State R → State R
  count_call (day_key, (scope, key)) s = (bump_daily_counter none false day_key scope key s).1

  unfoldable count_calls : List Call → State R → State R
  count_calls [] s = s
  count_calls (c ∷ cs) s = count_calls cs (count_call c s)

  abbrev count_of : Text → State R → ℕ
  count_of k s = or_zero (get k s.fallback_counters)

  count_call_counts :
      (k : Text) (c : Call) (s : State R)
      → count_of k (count_call c s)
        ≡ (if text_eq (key_of c) k then count_of k s + 1 else count_of k s)
  unfolding bump_daily_counter bump_fallback
  count_call_counts k (d, (sc, x)) s =
      let j = counter_key d sc x in
      ground (
        arith,
        get-put j k (or_zero (get j s.fallback_counters) + 1) s.fallback_counters,
        text_eq_iff j k,
      )

  -- In memory, a counter grows by the number of the calls with its key.
  count_calls_counts :
      (k : Text) (cs : List Call) (s : State R)
      → count_of k (count_calls cs s) ≡ count_of k s + calls_of k cs
  unfolding count_calls calls_of
  count_calls_counts k [] s = omega arith
  count_calls_counts k (c ∷ cs) s =
      ground (arith, count_call_counts k c s, count_calls_counts k cs (count_call c s))
