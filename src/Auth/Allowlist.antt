-- ===== src/Auth/Allowlist.antt =====
-- backend/core/modules/auth/repository/token_allowlist.py: the jtis of the access tokens that are
-- in force, in Redis, or in memory where Redis gives no answer. The Redis client is a parameter:
-- each call says whether it succeeded, with the state it leaves. `fail_closed` is the answer of
-- `_fail_closed_active`. The logs and the warning at startup are left out.
pub mod Environment
pub mod View
mod Tests
use nyzrating.Prelude.{
  ℕ, ◌+◌, ◌*◌, Bool, true, false, ◌&&◌, Option, none, some, List, [], ◌∷◌, ◌++◌, ◌==◌,
  if◌then◌else◌,
}
use nyzrating.Prelude.Text.{Text, codes, text_eq, or_empty, mem_text}
use nyzrating.Auth.TwoFactor.Attempts.{str}

pub record Redis (R : Type 0) : Type 0 where
  pub sadd : Text → Text → R → Bool × R
  pub expire : Text → ℕ → R → Bool × R
  pub delete : Text → R → Bool × R
  pub sismember : Text → Text → R → Option Bool

-- The dictionary in memory, with a set of jtis for a tenant and a user.
abbrev pub Store : Type 0
Store = List ((Option Text × ℕ) × List Text)

abbrev pub Tables : Type 0 → Type 0
Tables R = R × Store

pub data Reply : Type 0 where
  done : Reply
  unavailable : Reply

abbrev pub same_tenant : Option Text → Option Text → Bool
same_tenant none none = true
same_tenant none (some t) = false
same_tenant (some s) none = false
same_tenant (some s) (some t) = text_eq s t

abbrev pub same_user : Option Text × ℕ → Option Text × ℕ → Bool
same_user (s, u) (t, v) = same_tenant s t && u == v

unfoldable pub redis_key : Option Text → ℕ → Text
redis_key tenant_slug user_id =
    codes "allowlist:" ++ (or_empty tenant_slug ++ (codes ":" ++ str user_id))

unfoldable pub redis_ttl_seconds : ℕ → ℕ
redis_ttl_seconds access_ttl_min = access_ttl_min * 60 + 60

unfoldable pub add_jti : Text → List Text → List Text
add_jti jti jtis = if mem_text jti jtis then jtis else jti ∷ jtis

unfoldable pub store_add : Option Text × ℕ → Text → Store → Store
store_add key jti [] = (key, add_jti jti []) ∷ []
store_add key jti ((k, jtis) ∷ store) =
    if same_user k key then (k, add_jti jti jtis) ∷ store else (k, jtis) ∷ store_add key jti store

-- A dictionary has a key once, so that `pop` drops all the entries of the key.
unfoldable pub store_pop : Option Text × ℕ → Store → Store
store_pop key [] = []
store_pop key ((k, jtis) ∷ store) =
    let rest = store_pop key store in if same_user k key then rest else (k, jtis) ∷ rest

unfoldable pub store_get : Option Text × ℕ → Store → List Text
store_get key [] = []
store_get key ((k, jtis) ∷ store) = if same_user k key then jtis else store_get key store

module _ {R : Type 0} where
  unfoldable pub register : Redis R → Text → Text → ℕ → R → Bool × R
  register client key jti ttl r =
      let (ok, s) = client.sadd key jti r in if ok then client.expire key ttl s else (false, s)

  unfoldable pub add :
      Option (Redis R) → Bool → ℕ → Option Text → ℕ → Text → Tables R → Reply × Tables R
  add none fail_closed access_ttl_min tenant_slug user_id jti (r, store) =
      if fail_closed
      then (unavailable, (r, store))
      else (done, (r, store_add (tenant_slug, user_id) jti store))
  add (some client) fail_closed access_ttl_min tenant_slug user_id jti (r, store) =
      let (ok, s) =
        register client (redis_key tenant_slug user_id) jti (redis_ttl_seconds access_ttl_min) r in
      if ok
      then (done, (s, store))
      else if fail_closed
      then (unavailable, (s, store))
      else (done, (s, store_add (tenant_slug, user_id) jti store))

  unfoldable pub remove_by_user : Option (Redis R) → Bool → Option Text → ℕ → Tables R → Tables R
  remove_by_user none fail_closed tenant_slug user_id (r, store) =
      if fail_closed then (r, store) else (r, store_pop (tenant_slug, user_id) store)
  remove_by_user (some client) fail_closed tenant_slug user_id (r, store) =
      let (ok, s) = client.delete (redis_key tenant_slug user_id) r in
      if ok
      then (s, store)
      else if fail_closed
      then (s, store)
      else (s, store_pop (tenant_slug, user_id) store)

  unfoldable pub is_allowed : Option (Redis R) → Bool → Option Text → ℕ → Text → Tables R → Bool
  is_allowed none fail_closed tenant_slug user_id jti (r, store) =
      if fail_closed then false else mem_text jti (store_get (tenant_slug, user_id) store)
  is_allowed (some client) fail_closed tenant_slug user_id jti (r, store) =
      elim (client.sismember (redis_key tenant_slug user_id) jti r) [
        | some found ↦ found
        | none ↦
            if fail_closed then false else mem_text jti (store_get (tenant_slug, user_id) store)
      ]
