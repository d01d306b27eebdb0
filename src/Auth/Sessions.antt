-- ===== src/Auth/Sessions.antt =====
-- backend/core/modules/auth/domain/dto/session.py and
-- repository/persistence/session_repository.py: the table of refresh sessions, by ascending id,
-- less the columns that say who wrote a row.
pub mod Rows
use nyzrating.Prelude.{
  ℕ, ◌+◌, ◌≤◌, Bool, true, false, not, ◌&&◌, Option, none, some, List, [], ◌∷◌, ◌++◌, map, leb,
  length, ◌==◌, if◌then◌else◌,
}
use nyzrating.Prelude.Text.{Text, text_eq, or_empty}

pub record Session : Type 0 where
  pub id : ℕ
  pub user_id : ℕ
  pub jti : Text
  pub token_hash : Text
  pub valid : Bool
  pub ip : Option Text
  pub user_agent : Option Text
  pub expires_at : ℕ

pub record Sessions : Type 0 where
  pub rows : List Session
  pub next_id : ℕ

-- `Session.new`, with the id that the table gives.
unfoldable pub new_session : ℕ → ℕ → Text → Text → ℕ → Option Text → Option Text → Session
new_session id user_id jti token_hash expires_at ip ua = record {
  id = id;
  user_id = user_id;
  jti = jti;
  token_hash = token_hash;
  valid = true;
  ip = ip;
  user_agent = ua;
  expires_at = expires_at;
}

unfoldable pub invalidated : Session → Session
invalidated s = record s { valid = false }

unfoldable pub is_expired : ℕ → Session → Bool
is_expired now s = leb s.expires_at now

abbrev pub has_jti : Option Text → Session → Bool
has_jti none s = false
has_jti (some jti) s = text_eq s.jti jti

unfoldable pub find_jti : Option Text → List Session → Option Session
find_jti jti [] = none
find_jti jti (s ∷ rows) = if has_jti jti s then some s else find_jti jti rows

-- `get_by_jti`; no row has the jti `None`.
unfoldable pub get_by_jti : Option Text → Sessions → Option Session
get_by_jti jti t = find_jti jti t.rows

abbrev insert_if : Option Session → Session → Sessions → Option Sessions
insert_if none s t = some (record { rows = t.rows ++ s ∷ []; next_id = t.next_id + 1 })
insert_if (some other) s t = none

-- The widths of the columns, in characters; a longer text is an error of the database.
unfoldable pub fits : Text → Text → Option Text → Option Text → Bool
fits jti token_hash ip ua =
    leb (length jti) 128
    && leb (length token_hash) 255
    && leb (length (or_empty ip)) 64
    && leb (length (or_empty ua)) 255

-- `none` is the error of the unique index on the jti, or of a text that is too long for its column.
unfoldable pub create : ℕ → Text → Text → ℕ → Option Text → Option Text → Sessions → Option Sessions
create user_id jti token_hash expires_at ip ua t =
    if fits jti token_hash ip ua
    then insert_if (get_by_jti (some jti) t)
        (new_session t.next_id user_id jti token_hash expires_at ip ua) t
    else none

-- A write to every row that passes a test.
abbrev pub where_rows : (Session → Bool) → (Session → Session) → Sessions → Sessions
where_rows test f t = record t { rows = map (λ s. if test s then f s else s) t.rows }

unfoldable pub invalidate : Text → Sessions → Sessions
invalidate jti = where_rows (λ s. text_eq s.jti jti) invalidated

unfoldable pub invalidate_all_for_user : ℕ → Sessions → Sessions
invalidate_all_for_user user_id = where_rows (λ s. s.user_id == user_id && s.valid) invalidated

unfoldable pub invalidate_by_hash : Text → Sessions → Sessions
invalidate_by_hash token_hash =
    where_rows (λ s. text_eq s.token_hash token_hash && s.valid) invalidated

abbrev pub written : Session → Session → Session
written s row = record row {
  valid = s.valid;
  expires_at = s.expires_at;
  ip = s.ip;
  user_agent = s.user_agent;
}

unfoldable pub update : Session → Sessions → Sessions
update s = where_rows (λ row. row.id == s.id) (written s)
