-- ===== src/Throttle.antt =====
-- backend/core/kernel/security/rate_limit.py: the throttle of the sensitive routes, in memory
-- where Redis gives no answer. An instant is a number of seconds of the monotonic clock.
pub mod Bound
mod Tests
use nyzrating.Prelude.{
  ℕ, ◌+◌, ◌-◌, Bool, true, false, not, ◌&&◌, ◌||◌, Option, none, some, List, [], ◌∷◌, ◌++◌, ltb,
  leb, length, any, if◌then◌else◌,
}
use nyzrating.Prelude.Text.{Text, codes, text_eq, upper, text_or}
use nyzrating.Prelude.Dict.{Dict, get, put}

abbrev pub or_fresh : Option (List ℕ) → List ℕ
or_fresh none = []
or_fresh (some bucket) = bucket

-- The loop of `popleft`.
unfoldable pub pop_old : ℕ → ℕ → List ℕ → List ℕ
pop_old now window_sec [] = []
pop_old now window_sec (t ∷ bucket) =
    if ltb (t + window_sec) now then pop_old now window_sec bucket else t ∷ bucket

unfoldable pub bucket_allowed : ℕ → ℕ → ℕ → List ℕ → Bool × List ℕ
bucket_allowed now window_sec max_requests bucket =
    let left = pop_old now window_sec bucket in
    if leb max_requests (length left) then (false, left) else (true, left ++ now ∷ [])

unfoldable pub bucket_allowed_memory : ℕ → Text → ℕ → ℕ → Dict (List ℕ) → Bool × Dict (List ℕ)
bucket_allowed_memory now key window_sec max_requests buckets =
    let (allowed, bucket) =
      bucket_allowed now window_sec max_requests (or_fresh (get key buckets)) in
    (allowed, put key bucket buckets)

abbrev pub route : Text → Text → Text × Text → Bool
route method path (m, p) = text_eq m method && text_eq p path

abbrev pub sensitive_routes : List (Text × Text)
sensitive_routes =
    (codes "GET", codes "/api/auth/csrf-token")
    ∷ (codes "POST", codes "/api/auth/authenticator/setup")
    ∷ (codes "POST", codes "/api/auth/authenticator/confirm")
    ∷ (codes "DELETE", codes "/api/auth/authenticator")
    ∷ (codes "GET", codes "/api/platform-admin/auth/csrf-token")
    ∷ (codes "GET", codes "/api/chat/ws-token")
    ∷ []

unfoldable pub throttle_key : Text → Text → Text → Text → Text
throttle_key tenant host method path =
    tenant
    ++ (codes ":"
        ++ (text_or host (codes "unknown") ++ (codes ":" ++ (method ++ (codes ":" ++ path)))))

-- What Redis says of a key is an argument, `none` where it is missing or fails; the message is
-- left out.
unfoldable pub enforce_fallback_throttle :
    (Text → Option Bool) → ℕ → Text → Text → Text → Text → Dict (List ℕ) → Bool × Dict (List ℕ)
enforce_fallback_throttle redis now tenant host raw_method path buckets =
    let method = upper raw_method in
    let key = throttle_key tenant host method path in
    if any (route method path) sensitive_routes
    then elim (redis key) [
      | some allowed ↦ (allowed, buckets)
      | none ↦ bucket_allowed_memory now key 60 120 buckets
    ]
    else (true, buckets)
