-- ===== src/Throttle/Tests.antt =====
-- Runs of the throttle, and its theorem at an example.
use nyzrating.Prelude.{◌≤◌, ◌≡◌, refl, true, false, [], ◌∷◌, arith}
use nyzrating.Throttle.{bucket_allowed, pop_old}
use nyzrating.Throttle.Bound.{requests, requests_bounded}

third_is_refused : bucket_allowed 20 60 2 (10 ∷ 15 ∷ []) ≡ (false, 10 ∷ 15 ∷ [])
unfolding bucket_allowed pop_old
third_is_refused = refl

old_is_dropped : bucket_allowed 72 60 2 (10 ∷ 15 ∷ []) ≡ (true, 15 ∷ 72 ∷ [])
unfolding bucket_allowed pop_old
old_is_dropped = refl

requests_bounded_example : (requests 60 2 (10 ∷ 15 ∷ 20 ∷ []) (0, 1 ∷ [])).0 ≤ 2
requests_bounded_example =
    requests_bounded 60 2 10 (10 ∷ 15 ∷ 20 ∷ []) (1 ∷ [])
      ((omega arith, omega arith), ((omega arith, omega arith), ((omega arith, omega arith), tt)))
