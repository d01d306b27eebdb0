-- ===== src/Auth/TwoFactor/Tests.antt =====
-- Runs of the second factor, and its theorems at examples. Here a code is its own hash.
use nyzrating.Prelude.{ℕ, ◌≤◌, ◌≡◌, refl, arith, true, false, none, some, List, [], ◌∷◌, max}
use nyzrating.Prelude.Text.{codes, text_eq}
use nyzrating.Auth.TwoFactor.Attempts.{
  is_blocked, has_key, find_attempt, window_over, blocked_row, counted, new_attempt,
  current_attempt, record_failed, delete_attempt, reset_for_success, str,
}
use nyzrating.Auth.TwoFactor.Counters.{
  Write, failure, writes, write, count_blocks, counters, writes_counters, is_blocked-refines,
}
use nyzrating.Auth.TwoFactor.Codes.{
  create_code, new_code, get_valid_code, find_valid, is_valid_code, invalidate_user_codes,
  mark_as_used, used_code,
}
use nyzrating.Auth.TwoFactor.Service.{
  TwoFactorService, Factors, create_and_send_code, generate_code, verify_code, is_limited,
  any_blocked, scopes, record_scopes,
}
use nyzrating.Auth.TwoFactor.Limits.{Guess, guess_all, guesses_bounded}
use nyzrating.Auth.TwoFactor.SingleUse.{
  here, next, sent, start, checked_any, OneLive, verify_code-once,
}

abbrev two_failures : List Write
two_failures =
    failure 0 (codes "user") (codes "7") 15 ∷ failure 5 (codes "user") (codes "7") 15 ∷ []

is_blocked-refines_example :
    is_blocked 6 (codes "user") (codes "7") 2 15 (writes two_failures [])
    ≡ count_blocks 6 2 15 (writes_counters two_failures (counters []) (codes "user") (codes "7"))
is_blocked-refines_example = is_blocked-refines two_failures [] 6 (codes "user") (codes "7") 2 15

blocked_after_two : is_blocked 6 (codes "user") (codes "7") 2 15 (writes two_failures []) ≡ true
unfolding is_blocked blocked_row find_attempt has_key window_over text_eq writes write record_failed
    counted new_attempt current_attempt
blocked_after_two = refl

abbrev service : TwoFactorService
service = record {
  has_attempt_repo = true;
  max_attempts = 2;
  attempt_window_minutes = 15;
  code_expiry_minutes = 10;
}

abbrev empty : Factors
empty = record { code_table = record { rows = []; next_id = 1 }; attempt_rows = [] }

abbrev guess_at : ℕ → Guess
guess_at now = record { now = now; code = codes "123456"; token = codes "p"; ip = none }

guesses_bounded_example :
    (guess_all (λ t. t) service 7 (guess_at 10 ∷ guess_at 20 ∷ guess_at 15 ∷ []) (0, empty)).0
    ≤ max 1 2
unfolding get_valid_code find_valid counters find_attempt
guesses_bounded_example =
    guesses_bounded (λ t. t) service 7 10 (guess_at 10 ∷ guess_at 20 ∷ guess_at 15 ∷ []) empty refl
      refl
      (
        (refl, ground arith, ground arith, refl),
        ((refl, ground arith, ground arith, refl), ((refl, ground arith, ground arith, refl), tt)),
      )

abbrev with_code : Factors
with_code = record empty {
  code_table = record {
    rows =
        record {
          id = 1;
          user_id = 7;
          code_hash = codes "100005";
          email = [];
          expires_at = 600000000;
          used = false;
        }
        ∷ [];
    next_id = 2;
  };
}

abbrev code_used : Factors
code_used = record with_code { code_table = mark_as_used 1 with_code.code_table }

sends_code :
    create_and_send_code (λ t. t) service 0 5 (λ email code. true) 7 [] empty ≡ some with_code
unfolding create_and_send_code generate_code str create_code new_code invalidate_user_codes
sends_code = refl

uses_code :
    verify_code (λ t. t) service 3 7 (codes "100005") none none with_code ≡ some (true, code_used)
unfolding verify_code is_limited any_blocked scopes str is_blocked blocked_row find_attempt
    get_valid_code find_valid is_valid_code text_eq reset_for_success delete_attempt
uses_code = refl

abbrev wrong_tried : Factors
wrong_tried = record code_used {
  attempt_rows =
      record_failed 4 (codes "user") (codes "7") 15
        (record_failed 4 (codes "token") (codes "p") 15 []);
}

refuses_code :
    verify_code (λ t. t) service 4 7 (codes "999999") (some (codes "p")) none code_used
    ≡ some (false, wrong_tried)
unfolding verify_code is_limited any_blocked is_blocked scopes find_attempt record_failed
    get_valid_code find_valid is_valid_code text_eq str blocked_row mark_as_used has_key counted
    new_attempt current_attempt used_code record_scopes
refuses_code = refl

verify_code-once_example :
    OneLive (λ t. t) service with_code
    × (¬ (
        verify_code (λ t. t) service 5 7 (codes "100005") none none wrong_tried
        ≡ some (true, wrong_tried)))
verify_code-once_example =
    verify_code-once (λ t. t) service empty with_code code_used wrong_tried wrong_tried 7 3 5
      (codes "100005") (codes "100005") none none none none (λ user_id. ground arith)
      (next here (sent 0 5 (λ email code. true) 7 [] empty with_code sends_code)) uses_code
      (checked_any 4 7 (codes "999999") (some (codes "p")) none false start refuses_code)
