-- ===== src/Users/Tests.antt =====
-- The lock on an account, at examples.
use nyzrating.Prelude.{◌+◌, ◌≡◌, refl, arith, true, false, ltb, ◌&&◌, if◌then◌else◌, []}
use nyzrating.Prelude.Text.{codes, text_eq}
use nyzrating.Users.{User, is_owner}
use nyzrating.Users.Lockout.{fail_times, owner_not_locked, locked_at_fifth}

abbrev user_of_role : User
user_of_role = record {
  id = 7;
  email = codes "bob@b.hu";
  is_active = true;
  role = codes "user";
  failed_login_attempts = 2;
  security_version = 0;
  password_hash = [];
}

abbrev owner : User
owner = record user_of_role { role = codes "owner" }

is_user : is_owner user_of_role ≡ false
unfolding is_owner text_eq
is_user = refl

owns : is_owner owner ≡ true
unfolding is_owner text_eq
owns = refl

owner_not_locked_example :
    ((fail_times 9 owner).is_active ≡ true) × ((fail_times 9 owner).failed_login_attempts ≡ 2 + 9)
owner_not_locked_example = owner_not_locked 9 owner owns

locked_at_fifth_example :
    ((fail_times 3 user_of_role).is_active ≡ (ltb (2 + 3) 5 && true))
    × ((fail_times 3 user_of_role).failed_login_attempts ≡ (if ltb (2 + 3) 5 then 2 + 3 else 0))
locked_at_fifth_example = locked_at_fifth 3 user_of_role is_user (omega arith) (omega arith)
