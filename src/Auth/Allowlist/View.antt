-- ===== src/Auth/Allowlist/View.antt =====
-- The allowlist without Redis as the set of the jtis in force.
use nyzrating.Prelude.{
  ℕ, ◌≡◌, refl, Bool, true, false, not, ◌&&◌, ◌||◌, Option, none, some, List, [], ◌∷◌, arith,
  if◌then◌else◌, ◌↔◌, ap, ◌∙◌,
}
use mathlib.Core.Path.{fun_ext}
use nyzrating.Prelude.Text.{Text, text_eq, text_eq_iff, mem_text}
use nyzrating.Auth.Allowlist.{
  Redis, Store, Tables, same_tenant, same_user, add_jti, store_add, store_pop, store_get, add,
  remove_by_user, is_allowed, redis_key, redis_ttl_seconds, register,
}

-- For a tenant and a user, whether a jti is in force.
abbrev pub Tokens : Type 0
Tokens = Option Text × ℕ → Text → Bool

unfoldable pub tokens : Store → Tokens
tokens store key jti = mem_text jti (store_get key store)

same_tenant_iff : (s t : Option Text) → (same_tenant s t ≡ true) ↔ (s ≡ t)
same_tenant_iff none none = (λ h. refl, λ h. refl)
same_tenant_iff none (some t) = (λ h. cc, λ h. cc)
same_tenant_iff (some s) none = (λ h. cc, λ h. cc)
same_tenant_iff (some s) (some t) =
    (λ h. ground (arith, text_eq_iff s t), λ h. ground (arith, text_eq_iff s t))

same_user_iff : (a b : Option Text × ℕ) → (same_user a b ≡ true) ↔ (a ≡ b)
same_user_iff (s, u) (t, v) =
    (λ h. ground (arith, same_tenant_iff s t), λ h. ground (arith, same_tenant_iff s t))

mem_text-add_jti :
    (i j : Text) (js : List Text) → mem_text i (add_jti j js) ≡ (text_eq i j || mem_text i js)
unfolding add_jti mem_text
mem_text-add_jti i j js = ground (arith, text_eq_iff i j)

tokens-store_add :
    (k : Option Text × ℕ) (j : Text) (s : Store) (key : Option Text × ℕ) (i : Text)
    → tokens (store_add k j s) key i
      ≡ (if same_user k key then text_eq i j || tokens s key i else tokens s key i)
unfolding tokens store_add store_get mem_text
tokens-store_add k j [] key i = ground (arith, mem_text-add_jti i j [])
tokens-store_add k j ((l, js) ∷ s) key i = ground (
  arith,
  mem_text-add_jti i j js,
  tokens-store_add k j s key i,
  same_user_iff l k,
  same_user_iff l key,
  same_user_iff k key,
)

tokens-store_pop :
    (k : Option Text × ℕ) (s : Store) (key : Option Text × ℕ) (i : Text)
    → tokens (store_pop k s) key i ≡ (if same_user k key then false else tokens s key i)
unfolding tokens store_pop store_get mem_text
tokens-store_pop k [] key i = ground arith
tokens-store_pop k ((l, js) ∷ s) key i =
    ground (
      arith,
      tokens-store_pop k s key i,
      same_user_iff l k,
      same_user_iff l key,
      same_user_iff k key,
    )

-- Redis is missing, or each of its calls fails.
abbrev pub GivesNoAnswer : {R : Type 0} → Option (Redis R) → Type 0
GivesNoAnswer none = Unit
GivesNoAnswer {R} (some client) =
    ((k j : Text) (r : R) → (client.sadd k j r).0 ≡ false)
    × ((k : Text) (r : R) → (client.delete k r).0 ≡ false)
    × ((k j : Text) (r : R) → client.sismember k j r ≡ none)

-- The calls that write: a login or refresh adds a jti, and a logout removes a user's.
pub data Write : Type 0 where
  enter : Option Text → ℕ → Text → Write
  leave : Option Text → ℕ → Write

module _ {R : Type 0} (client : Option (Redis R)) (fail_closed : Bool) (access_ttl_min : ℕ) where
  unfoldable pub write : Write → Tables R → Tables R
  write (enter tenant_slug user_id jti) t =
      (add client fail_closed access_ttl_min tenant_slug user_id jti t).1
  write (leave tenant_slug user_id) t = remove_by_user client fail_closed tenant_slug user_id t

  unfoldable pub writes : List Write → Tables R → Tables R
  writes [] t = t
  writes (w ∷ ws) t = writes ws (write w t)

-- The same writes on the set.
unfoldable pub write_tokens : Write → Tokens → Tokens
write_tokens (enter tenant_slug user_id jti) c key i =
    if same_user (tenant_slug, user_id) key then text_eq i jti || c key i else c key i
write_tokens (leave tenant_slug user_id) c key i =
    if same_user (tenant_slug, user_id) key then false else c key i

unfoldable pub writes_tokens : List Write → Tokens → Tokens
writes_tokens [] c = c
writes_tokens (w ∷ ws) c = writes_tokens ws (write_tokens w c)

register_fails :
    {R : Type 0} (client : Redis R) (k j : Text) (ttl : ℕ) (r : R)
    → (client.sadd k j r).0 ≡ false
    → (register client k j ttl r).0 ≡ false
unfolding register
register_fails client k j ttl r h = rw h refl

write_refines :
    {R : Type 0} (client : Option (Redis R)) (ttl : ℕ)
    → GivesNoAnswer client
    → (w : Write) (t : Tables R)
    → tokens (write client false ttl w t).1 ≡ write_tokens w (tokens t.1)
unfolding write write_tokens add remove_by_user
write_refines none ttl h (enter t u j) (r, s) =
    fun_ext λ key. fun_ext λ i. tokens-store_add (t, u) j s key i
write_refines none ttl h (leave t u) (r, s) =
    fun_ext λ key. fun_ext λ i. tokens-store_pop (t, u) s key i
write_refines (some client) ttl (h, h', h'') (enter t u j) (r, s) =
    rw
      (
        register_fails client (redis_key t u) j (redis_ttl_seconds ttl) r (h (redis_key t u) j r),
        write,
      )
      (fun_ext λ key. fun_ext λ i. tokens-store_add (t, u) j s key i)
write_refines (some client) ttl (h, h', h'') (leave t u) (r, s) =
    rw (h' (redis_key t u) r, write) (fun_ext λ key. fun_ext λ i. tokens-store_pop (t, u) s key i)

writes_refine :
    {R : Type 0} (client : Option (Redis R)) (ttl : ℕ)
    → GivesNoAnswer client
    → (ws : List Write) (t : Tables R)
    → tokens (writes client false ttl ws t).1 ≡ writes_tokens ws (tokens t.1)
unfolding writes writes_tokens
writes_refine client ttl h [] t = refl
writes_refine client ttl h (w ∷ ws) t =
    writes_refine client ttl h ws (write client false ttl w t)
    ∙ ap (writes_tokens ws) (write_refines client ttl h w t)

-- Without an answer the dictionary in memory decides, or nothing is allowed.
is_allowed-tokens :
    {R : Type 0} (client : Option (Redis R)) (fail_closed : Bool)
    → GivesNoAnswer client
    → (tenant_slug : Option Text) (user_id : ℕ) (jti : Text) (t : Tables R)
    → is_allowed client fail_closed tenant_slug user_id jti t
      ≡ (not fail_closed && tokens t.1 (tenant_slug, user_id) jti)
unfolding is_allowed tokens
is_allowed-tokens none true h t u j (r, s) = refl
is_allowed-tokens none false h t u j (r, s) = refl
is_allowed-tokens (some client) true (h, h', h'') t u j (r, s) = rw (h'' (redis_key t u) j r) refl
is_allowed-tokens (some client) false (h, h', h'') t u j (r, s) = rw (h'' (redis_key t u) j r) refl

-- Where Redis is missing or each of its calls fails, after any logins, refreshes and logouts, a
-- token is allowed exactly when the allowlist may be kept in memory and the jti is in the set of
-- the tenant and the user, to which a login or refresh adds and which a logout empties.
pub is_allowed-refines :
    {R : Type 0} (client : Option (Redis R)) (fail_closed : Bool) (access_ttl_min : ℕ)
    → GivesNoAnswer client
    → (ws : List Write) (t : Tables R) (tenant_slug : Option Text) (user_id : ℕ) (jti : Text)
    → is_allowed client fail_closed tenant_slug user_id jti
        (writes client fail_closed access_ttl_min ws t)
      ≡ (not fail_closed && writes_tokens ws (tokens t.1) (tenant_slug, user_id) jti)
is_allowed-refines client true ttl h ws t s u j =
    is_allowed-tokens client true h s u j (writes client true ttl ws t)
is_allowed-refines client false ttl h ws t s u j =
    is_allowed-tokens client false h s u j (writes client false ttl ws t)
    ∙ ap (λ c. c (s, u) j) (writes_refine client ttl h ws t)
