-- ===== src/Auth/Sessions/Rows.antt =====
-- What the writes to the table of sessions keep.
use nyzrating.Prelude.{
  ℕ, ◌≡◌, refl, Bool, true, false, arith, Option, none, some, List, [], ◌∷◌, ◌++◌, map,
  if◌then◌else◌, ◌==◌, ap,
}
use nyzrating.Prelude.Text.{Text, text_eq}
use nyzrating.Auth.Sessions.{
  Session, Sessions, has_jti, find_jti, get_by_jti, create, new_session, where_rows, update,
  invalidated, written,
}

-- A write that keeps the keys of a row, and wakes no session.
pub record IsQuiet (f : Session → Session) : Type 0 where
  pub same_id : (s : Session) → (f s).id ≡ s.id
  pub same_jti : (s : Session) → (f s).jti ≡ s.jti
  pub same_user : (s : Session) → (f s).user_id ≡ s.user_id
  pub stays_closed : (s : Session) → s.valid ≡ false → (f s).valid ≡ false

pub invalidated-IsQuiet : IsQuiet invalidated
unfolding invalidated
invalidated-IsQuiet = record {
  same_id = λ s. refl;
  same_jti = λ s. refl;
  same_user = λ s. refl;
  stays_closed = λ s h. refl;
}

pub written-IsQuiet : (s : Session) → IsQuiet (written (invalidated s))
unfolding invalidated
written-IsQuiet s = record {
  same_id = λ r. refl;
  same_jti = λ r. refl;
  same_user = λ r. refl;
  stays_closed = λ r h. refl;
}

-- The write of `where_rows` to one row.
abbrev pub at_rows : (Session → Bool) → (Session → Session) → Session → Session
at_rows test f s = if test s then f s else s

pub at_rows-IsQuiet :
    (test : Session → Bool) (f : Session → Session) → IsQuiet f → IsQuiet (at_rows test f)
at_rows-IsQuiet test f q = record {
  same_id = λ s. ground (arith, q.same_id s);
  same_jti = λ s. ground (arith, q.same_jti s);
  same_user = λ s. ground (arith, q.same_user s);
  stays_closed = λ s h. ground (arith, q.stays_closed s);
}

has_jti-quiet :
    (jti : Option Text) (g : Session → Session)
    → IsQuiet g
    → (s : Session) → has_jti jti (g s) ≡ has_jti jti s
has_jti-quiet none g q s = refl
has_jti-quiet (some jti) g q s = ap (λ j. text_eq j jti) (q.same_jti s)

-- The row that is found is the row that was found, written.
find_jti-some :
    (jti : Option Text) (g : Session → Session)
    → IsQuiet g
    → (rows : List Session) (s : Session) → find_jti jti rows ≡ some s
    → find_jti jti (map g rows) ≡ some (g s)
unfolding find_jti
find_jti-some jti g q [] s h = cc
find_jti-some jti g q (r ∷ rows) s h =
    ground (arith, has_jti-quiet jti g q r, find_jti-some jti g q rows s)

pub find_jti-none :
    (jti : Option Text) (g : Session → Session)
    → IsQuiet g
    → (rows : List Session) → find_jti jti rows ≡ none
    → find_jti jti (map g rows) ≡ none
unfolding find_jti
find_jti-none jti g q [] h = refl
find_jti-none jti g q (r ∷ rows) h =
    ground (arith, has_jti-quiet jti g q r, find_jti-none jti g q rows)

pub find_jti-snoc :
    (jti : Option Text) (rows : List Session) (r s : Session)
    → find_jti jti rows ≡ some s
    → find_jti jti (rows ++ r ∷ []) ≡ some s
unfolding find_jti
find_jti-snoc jti [] r s h = cc
find_jti-snoc jti (q ∷ rows) r s h = ground (arith, find_jti-snoc jti rows r s)

pub find_jti-new :
    (jti : Option Text) (rows : List Session) (r : Session)
    → find_jti jti rows ≡ none
    → has_jti jti r ≡ true
    → find_jti jti (rows ++ r ∷ []) ≡ some r
unfolding find_jti
find_jti-new jti [] r h p = rw p
find_jti-new jti (q ∷ rows) r h p = ground (arith, find_jti-new jti rows r)

-- The session of a jti is in the table, and is closed.
abbrev pub IsClosed : Text → Sessions → Type 0
IsClosed jti t = (s : Session) × (get_by_jti (some jti) t ≡ some s) × (s.valid ≡ false)

pub where_rows-IsClosed :
    (jti : Text) (test : Session → Bool) (f : Session → Session)
    → IsQuiet f
    → (t : Sessions) → IsClosed jti t
    → IsClosed jti (where_rows test f t)
unfolding get_by_jti
where_rows-IsClosed jti test f q t (s, found, closed) =
    let quiet = at_rows-IsQuiet test f q in
    (
      at_rows test f s,
      find_jti-some (some jti) (at_rows test f) quiet t.rows s found,
      quiet.stays_closed s closed,
    )

pub create-IsClosed :
    (jti : Text) (user_id : ℕ) (new_jti token_hash : Text) (expires_at : ℕ) (ip ua : Option Text)
    (t u : Sessions)
    → create user_id new_jti token_hash expires_at ip ua t ≡ some u
    → IsClosed jti t
    → IsClosed jti u
unfolding create get_by_jti
create-IsClosed jti user_id new_jti token_hash expires_at ip ua t u e (s, found, closed) =
    let new = new_session t.next_id user_id new_jti token_hash expires_at ip ua in
    (s, ground (arith, find_jti-snoc (some jti) t.rows new s found), closed)

-- A write of a closed session to its own row closes the row.
pub update-closes :
    (jti : Option Text) (s : Session) (t : Sessions)
    → get_by_jti jti t ≡ some s
    → get_by_jti jti (update (invalidated s) t) ≡ some (written (invalidated s) s)
unfolding get_by_jti update invalidated
update-closes jti s t found =
    let test = λ (r : Session). r.id == s.id in
    let quiet = at_rows-IsQuiet test (written (invalidated s)) (written-IsQuiet s) in
    ground (arith, find_jti-some jti (at_rows test (written (invalidated s))) quiet t.rows s found)
