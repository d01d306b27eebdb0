-- ===== src/Auth/Closed.antt =====
-- What each use case does to a session that is closed.
use nyzrating.Prelude.{
  ℕ, ◌≡◌, refl, inl, inr, Bool, true, false, not, ◌&&◌, Option, none, some, if◌then◌else◌,
  Option-cases, or_else,
}
use nyzrating.Prelude.Text.{Text, codes, text_eq, or_empty, truthy}
use nyzrating.Auth.Tokens.{
  Payload, Verdict, accepted, expired, broken, refused, Jwt, Config, make_refresh_pair,
}
use nyzrating.Auth.Sessions.{
  Session, Sessions, get_by_jti, create, update, invalidated, invalidate, written, is_expired,
  invalidate_all_for_user, invalidate_by_hash,
}
use nyzrating.Auth.Sessions.Rows.{
  invalidated-IsQuiet, written-IsQuiet, IsClosed, where_rows-IsClosed, create-IsClosed,
}
use nyzrating.Auth.Refresh.{
  Call, rotate, check_session, check_found, check_subject, check_verdict, issue, tenant_ver,
  versions_match, current_ver,
}
use nyzrating.Auth.Logout.{
  logout_with_expired_token, close_if, close_expired, logout_subject, logout_verdict,
}

update-IsClosed :
    (jti : Text) (s : Session) (t : Sessions)
    → IsClosed jti t
    → IsClosed jti (update (invalidated s) t)
unfolding update
update-IsClosed jti s t c =
    where_rows-IsClosed jti _ (written (invalidated s)) (written-IsQuiet s) t c

pub all-IsClosed :
    (jti : Text) (user_id : ℕ) (t : Sessions)
    → IsClosed jti t
    → IsClosed jti (invalidate_all_for_user user_id t)
unfolding invalidate_all_for_user
all-IsClosed jti user_id t c = where_rows-IsClosed jti _ invalidated invalidated-IsQuiet t c

pub hash-IsClosed :
    (jti hash : Text) (t : Sessions) → IsClosed jti t → IsClosed jti (invalidate_by_hash hash t)
unfolding invalidate_by_hash
hash-IsClosed jti hash t c = where_rows-IsClosed jti _ invalidated invalidated-IsQuiet t c

pub jti-IsClosed : (jti j : Text) (t : Sessions) → IsClosed jti t → IsClosed jti (invalidate j t)
unfolding invalidate
jti-IsClosed jti j t c = where_rows-IsClosed jti _ invalidated invalidated-IsQuiet t c

if-IsClosed :
    (jti : Text) (b : Bool) (t u : Sessions)
    → IsClosed jti t
    → IsClosed jti u
    → IsClosed jti (if b then t else u)
if-IsClosed jti true t u x y = x
if-IsClosed jti false t u x y = y

if-result :
    (jti : Text) {R : Type 0} (b : Bool) (x y : R × Sessions)
    → IsClosed jti x.1
    → IsClosed jti y.1
    → IsClosed jti (if b then x else y).1
if-result jti true x y p q = p
if-result jti false x y p q = q

module _ {T : Type 0} (jwt : Jwt T) (config : Config) where
  close_if-IsClosed :
      (jti : Text) (token : T) (s : Option Session) (t : Sessions)
      → IsClosed jti t
      → IsClosed jti (close_if jwt config token s t)
  close_if-IsClosed jti token none t c = c
  close_if-IsClosed jti token (some s) t c =
      if-IsClosed jti (text_eq s.token_hash (jwt.hash token)) _ _ (update-IsClosed jti s t c) c

  close_expired-IsClosed :
      (jti : Text) (token : T) (p : Option Payload) (t : Sessions)
      → IsClosed jti t
      → IsClosed jti (close_expired jwt config token p t)
  close_expired-IsClosed jti token none t c = c
  close_expired-IsClosed jti token (some p) t c = elim (Option-cases p.sub) [
    | inl missing ↦ rw missing c
    | inr (id, sub) ↦ rw sub (
        if-IsClosed jti (text_eq (or_empty p.typ) (codes "refresh") && truthy (or_empty p.jti)) _ _
          (close_if-IsClosed jti token (get_by_jti p.jti t) t c) c)
  ]

  logout_subject-IsClosed :
      (jti : Text) (token : T) (p : Payload) (sub : Option ℕ) (t : Sessions)
      → IsClosed jti t
      → IsClosed jti (logout_subject jwt config token p sub t).1
  logout_subject-IsClosed jti token p none t c = c
  logout_subject-IsClosed jti token p (some id) t c =
      close_if-IsClosed jti token (get_by_jti p.jti t) t c

  pub logout-IsClosed :
      (jti : Text) (now : ℕ) (token : T) (v : Verdict) (t : Sessions)
      → IsClosed jti t
      → IsClosed jti (logout_verdict jwt config now token v t).1
  unfolding logout_with_expired_token
  logout-IsClosed jti now token expired t c = close_expired-IsClosed jti token _ t c
  logout-IsClosed jti now token broken t c = c
  logout-IsClosed jti now token refused t c = c
  logout-IsClosed jti now token (accepted p) t c =
      if-result jti (text_eq (or_empty p.typ) (codes "refresh")) _ _
        (logout_subject-IsClosed jti token p p.sub t c) c

  issue-IsClosed :
      (jti : Text) (call : Call) (id : ℕ) (p : Payload) (ver : ℕ) (token : T) (t : Sessions)
      (u : Option Sessions)
      → IsClosed jti t
      → ((v : Sessions) → u ≡ some v → IsClosed jti v)
      → IsClosed jti (issue jwt config call id p ver token t u).1
  issue-IsClosed jti call id p ver token t none c d = c
  issue-IsClosed jti call id p ver token t (some u) c d = d u refl

  rotate-IsClosed :
      (jti : Text) (call : Call) (id : ℕ) (p : Payload) (rec : Session) (t : Sessions)
      → IsClosed jti t
      → IsClosed jti (rotate jwt config call id p rec t).1
  unfolding rotate make_refresh_pair
  rotate-IsClosed jti call id p rec t c =
      let ver = current_ver call.users id p in
      let pair =
        make_refresh_pair jwt config call.now call.refresh_jti id (or_else p.al false) ver
          (tenant_ver call) in
      let left = update (invalidated rec) t in
      let closed = update-IsClosed jti rec t c in
      issue-IsClosed jti call id p ver pair.0 t
        (create id call.refresh_jti (jwt.hash pair.0) pair.1.exp call.ip call.ua left) c
        (λ v e.
          create-IsClosed jti id call.refresh_jti (jwt.hash pair.0) pair.1.exp call.ip call.ua left
            v e closed)

  check_session-IsClosed :
      (jti : Text) (call : Call) (id : ℕ) (p : Payload) (rec : Session) (t : Sessions)
      → IsClosed jti t
      → IsClosed jti (check_session jwt config call id p rec t).1
  unfolding check_session
  check_session-IsClosed jti call id p rec t c =
      if-result jti (not rec.valid) _ _
        (if-result jti (call.permissions_changed_get rec.user_id) _ _ c
          (all-IsClosed jti rec.user_id t c))
        (if-result jti (is_expired call.now rec) _ _ (update-IsClosed jti rec t c)
          (if-result jti _ _ _ c (rotate-IsClosed jti call id p rec t c)))

  check_found-IsClosed :
      (jti : Text) (call : Call) (id : ℕ) (p : Payload) (rec : Option Session) (t : Sessions)
      → IsClosed jti t
      → IsClosed jti (check_found jwt config call id p rec t).1
  check_found-IsClosed jti call id p none t c = c
  check_found-IsClosed jti call id p (some rec) t c = check_session-IsClosed jti call id p rec t c

  check_subject-IsClosed :
      (jti : Text) (call : Call) (sub : Option ℕ) (p : Payload) (t : Sessions)
      → IsClosed jti t
      → IsClosed jti (check_subject jwt config call sub p t).1
  check_subject-IsClosed jti call none p t c = c
  check_subject-IsClosed jti call (some id) p t c =
      if-result jti (versions_match call.users id p (tenant_ver call)) _ _
        (check_found-IsClosed jti call id p (get_by_jti p.jti t) t c) c

  pub refresh-IsClosed :
      (jti : Text) (call : Call) (v : Verdict) (t : Sessions)
      → IsClosed jti t
      → IsClosed jti (check_verdict jwt config call v t).1
  refresh-IsClosed jti call expired t c = c
  refresh-IsClosed jti call broken t c = c
  refresh-IsClosed jti call refused t c = c
  refresh-IsClosed jti call (accepted p) t c =
      if-result jti (text_eq (or_empty p.typ) (codes "refresh")) _ _
        (check_subject-IsClosed jti call p.sub p t c) c
