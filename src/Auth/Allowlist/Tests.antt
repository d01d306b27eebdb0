-- ===== src/Auth/Allowlist/Tests.antt =====
-- Runs of the allowlist, and its theorem at an example.
use nyzrating.Prelude.{◌+◌, ℕ, ◌≡◌, refl, true, false, none, some, List, [], ◌∷◌}
use nyzrating.Prelude.Text.{codes, text_eq, strip, lower, lstrip, lower_char, is_space, mem_text}
use nyzrating.Auth.Allowlist.{Redis, store_get, is_allowed}
use nyzrating.Auth.Allowlist.Environment.{normalize_app_env, is_deployed_env, fail_closed_active}
use nyzrating.Auth.Allowlist.View.{
  Write, enter, leave, writes, writes_tokens, write_tokens, tokens, is_allowed-refines,
}

-- A client whose calls fail, with the number of the calls as its state.
abbrev failing : Redis ℕ
failing = record {
  sadd = λ k j n. (false, n + 1);
  expire = λ k ttl n. (true, n);
  delete = λ k n. (false, n + 1);
  sismember = λ k j n. none;
}

abbrev two_logins : List Write
two_logins =
    enter none 7 (codes "a")
    ∷ leave none 7
    ∷ enter (some (codes "acme")) 7 (codes "b")
    ∷ enter none 7 (codes "c")
    ∷ []

is_allowed-refines_example :
    is_allowed
      (some failing)
      false
      none
      7
      (codes "c")
      (writes (some failing) false 15 two_logins (0, []))
    ≡ true
unfolding writes_tokens write_tokens text_eq tokens store_get mem_text
is_allowed-refines_example =
    is_allowed-refines (some failing) false 15 (λ k j r. refl, λ k r. refl, λ k j r. refl)
      two_logins (0, []) none 7 (codes "c")

prod_is_deployed : fail_closed_active (some (codes " PROD")) true ≡ some true
unfolding fail_closed_active is_deployed_env normalize_app_env text_eq mem_text strip lower lstrip
    lower_char is_space
prod_is_deployed = refl
