-- ===== src/Auth/TwoFactor/SingleUse.antt =====
-- How often an e-mailed code can be used.
use nyzrating.Prelude.{
  ℕ, ◌+◌, ◌*◌, ◌≤◌, ◌<◌, ◌≡◌, ◌≢◌, refl, Bool, true, not, ◌&&◌, Option, none, some, List, [], ◌∷◌,
  ◌++◌, map, count, ◌==◌, arith, if◌then◌else◌,
}
use nyzrating.Prelude.Text.{Text}
use nyzrating.Auth.Tokens.{minute}
use nyzrating.Auth.TwoFactor.Codes.{
  TwoFactorCode, new_code, create_code, is_valid_code, find_valid, get_valid_code, used_code,
  invalidate_user_codes, mark_as_used,
}
use nyzrating.Auth.TwoFactor.Service.{
  TwoFactorService, Factors, create_and_send_code, generate_code, after_lookup, verify_code,
}

-- A code of the user that is not used.
abbrev pub is_live : ℕ → TwoFactorCode → Bool
is_live user_id row = row.user_id == user_id && not row.used

abbrev pub live : ℕ → List TwoFactorCode → ℕ
live user_id = count (is_live user_id)

live-snoc :
    (user_id : ℕ) (rows : List TwoFactorCode) (r : TwoFactorCode)
    → live user_id (rows ++ r ∷ []) ≡ live user_id rows + (if is_live user_id r then 1 else 0)
live-snoc user_id [] r = omega arith
live-snoc user_id (q ∷ rows) r = ground (arith, live-snoc user_id rows r)

live-invalidate :
    (user_id other : ℕ) (rows : List TwoFactorCode)
    → live other
        (map (λ row. if row.user_id == user_id && not row.used then used_code row else row) rows)
      ≡ (if user_id == other then 0 else live other rows)
unfolding used_code
live-invalidate user_id other [] = ground arith
live-invalidate user_id other (q ∷ rows) = ground (arith, live-invalidate user_id other rows)

live-mark :
    (id other : ℕ) (rows : List TwoFactorCode)
    → live other (map (λ row. if row.id == id then used_code row else row) rows) ≤ live other rows
unfolding used_code
live-mark id other [] = omega arith
live-mark id other (q ∷ rows) = ground (arith, live-mark id other rows)

module _ (sha256_hex : Text → Text) where
  -- The code that is found counts among the live ones until it is marked.
  live-found :
      (now user_id : ℕ) (code : Text) (rows : List TwoFactorCode) (r : TwoFactorCode)
      → find_valid sha256_hex now user_id code rows ≡ some r
      → live user_id (map (λ row. if row.id == r.id then used_code row else row) rows)
        < live user_id rows
  unfolding find_valid is_valid_code used_code
  live-found now user_id code [] r h = cc
  live-found now user_id code (q ∷ rows) r h =
      ground (arith, live-found now user_id code rows r, live-mark r.id user_id rows)

  find_valid-none :
      (now user_id : ℕ) (code : Text) (rows : List TwoFactorCode)
      → live user_id rows ≡ 0
      → find_valid sha256_hex now user_id code rows ≡ none
  unfolding find_valid is_valid_code
  find_valid-none now user_id code [] h = refl
  find_valid-none now user_id code (q ∷ rows) h =
      ground (arith, find_valid-none now user_id code rows)

module _ (sha256_hex : Text → Text) (svc : TwoFactorService) where
  -- A code that was sent, or a code that was checked, for any user.
  pub data Step : Factors → Factors → Type 0 where
    sent :
        (now drawn : ℕ) (sends : Text → Text → Bool) (user_id : ℕ) (email : Text) (f g : Factors)
        → create_and_send_code sha256_hex svc now drawn sends user_id email f ≡ some g
        → Step f g
    checked :
        (now user_id : ℕ) (code : Text) (token ip : Option Text) (ok : Bool) (f g : Factors)
        → verify_code sha256_hex svc now user_id code token ip f ≡ some (ok, g)
        → Step f g

  pub data Reach (f : Factors) : Factors → Type 0 where
    here : Reach f f
    next : {g h : Factors} → Reach f g → Step g h → Reach f h

  abbrev pub OneLive : Factors → Type 0
  OneLive f = (user_id : ℕ) → live user_id f.code_table.rows ≤ 1

  sent_live :
      (now drawn : ℕ) (sends : Text → Text → Bool) (user_id : ℕ) (email : Text) (f g : Factors)
      → create_and_send_code sha256_hex svc now drawn sends user_id email f ≡ some g
      → (other : ℕ)
      → live other g.code_table.rows
        ≤ (if user_id == other then 1 else live other f.code_table.rows)
  unfolding create_and_send_code create_code invalidate_user_codes new_code
  sent_live now drawn sends user_id email f g e other =
      let cleared =
        map (λ row. if row.user_id == user_id && not row.used then used_code row else row)
          f.code_table.rows in
      ground (
        arith,
        live-invalidate user_id other f.code_table.rows,
        live-snoc other cleared (
            new_code sha256_hex f.code_table.next_id user_id (generate_code drawn) email
              (now + svc.code_expiry_minutes * minute)),
      )

  -- A check that succeeds leaves fewer live codes of the user, and no check adds one.
  lookup_live :
      (now user_id : ℕ) (code : Text) (token ip : Option Text) (f : Factors)
      (found : Option TwoFactorCode)
      → get_valid_code sha256_hex now user_id code f.code_table ≡ found
      → (other : ℕ)
      → let (ok, g) = after_lookup sha256_hex svc now user_id token ip f found in
        (live other g.code_table.rows ≤ live other f.code_table.rows)
        × (ok ≡ true → live user_id g.code_table.rows < live user_id f.code_table.rows)
  unfolding get_valid_code mark_as_used
  lookup_live now user_id code token ip f none e other = ground arith
  lookup_live now user_id code token ip f (some r) e other = (
    live-mark r.id other f.code_table.rows,
    λ _. live-found sha256_hex now user_id code f.code_table.rows r e,
  )

  checked_live :
      (now user_id : ℕ) (code : Text) (token ip : Option Text) (ok : Bool) (f g : Factors)
      → verify_code sha256_hex svc now user_id code token ip f ≡ some (ok, g)
      → (other : ℕ)
      → (live other g.code_table.rows ≤ live other f.code_table.rows)
        × (ok ≡ true → live user_id g.code_table.rows < live user_id f.code_table.rows)
  unfolding verify_code
  checked_live now user_id code token ip ok f g e other =
      let found = get_valid_code sha256_hex now user_id code f.code_table in
      ground (arith, lookup_live now user_id code token ip f found refl other)

  Step-OneLive : {f g : Factors} → Step f g → OneLive f → OneLive g
  Step-OneLive (sent now drawn sends id email f g e) h other =
      ground (arith, sent_live now drawn sends id email f g e other, h other)
  Step-OneLive (checked now id code token ip ok f g e) h other =
      omega (arith, (checked_live now id code token ip ok f g e other).0, h other)

  Reach-OneLive : {f g : Factors} → Reach f g → OneLive f → OneLive g
  Reach-OneLive here h = h
  Reach-OneLive (next r s) h = Step-OneLive s (Reach-OneLive r h)

  no_code_left :
      (now user_id : ℕ) (code : Text) (token ip : Option Text) (f g : Factors)
      → live user_id f.code_table.rows ≡ 0
      → ¬ (verify_code sha256_hex svc now user_id code token ip f ≡ some (true, g))
  unfolding verify_code get_valid_code
  no_code_left now user_id code token ip f g h e =
      ground (arith, find_valid-none sha256_hex now user_id code f.code_table.rows h)

  -- Codes that were sent to other users, and checks of any user that fail or succeed.
  pub data Unsent (user_id : ℕ) (f : Factors) : Factors → Type 0 where
    start : Unsent user_id f f
    sent_other :
        {g h : Factors} (now drawn : ℕ) (sends : Text → Text → Bool) (other : ℕ) (email : Text)
        → Unsent user_id f g
        → other ≢ user_id
        → create_and_send_code sha256_hex svc now drawn sends other email g ≡ some h
        → Unsent user_id f h
    checked_any :
        {g h : Factors} (now other : ℕ) (code : Text) (token ip : Option Text) (ok : Bool)
        → Unsent user_id f g
        → verify_code sha256_hex svc now other code token ip g ≡ some (ok, h)
        → Unsent user_id f h

  Unsent-live :
      (user_id : ℕ) {f g : Factors}
      → Unsent user_id f g
      → live user_id f.code_table.rows ≡ 0
      → live user_id g.code_table.rows ≡ 0
  Unsent-live user_id start z = z
  Unsent-live user_id (sent_other {g} {h} now drawn sends other email r ne e) z =
      let before = Unsent-live user_id r z in
      ground (arith, sent_live now drawn sends other email g h e user_id, before, ne)
  Unsent-live user_id (checked_any {g} {h} now other code token ip ok r e) z =
      let before = Unsent-live user_id r z in
      omega (arith, (checked_live now other code token ip ok g h e user_id).0, before)

  -- From tables where no user has more than one code that is not used, every sequence of codes
  -- sent and checked leads to such tables; and once a check of a user has then succeeded, and
  -- after any codes sent to other users and any checks of any user, which fail or succeed, no
  -- check of that user succeeds with any code, at any time and from anywhere, until a code is
  -- sent to the user.
  pub verify_code-once :
      (f g h k l : Factors) (user_id now later : ℕ) (code code' : Text)
      (token ip token' ip' : Option Text)
      → OneLive f
      → Reach f g
      → verify_code sha256_hex svc now user_id code token ip g ≡ some (true, h)
      → Unsent user_id h k
      → OneLive g
        × (¬ (verify_code sha256_hex svc later user_id code' token' ip' k ≡ some (true, l)))
  verify_code-once f g h k l user_id now later code code' token ip token' ip' one reach e since =
      let kept = Reach-OneLive reach one in
      let used = (checked_live now user_id code token ip true g h e user_id).1 refl in
      let none_left = Unsent-live user_id since (omega (arith, used, kept user_id)) in
      (kept, no_code_left later user_id code' token' ip' k l none_left)
