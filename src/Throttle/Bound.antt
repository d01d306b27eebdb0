-- ===== src/Throttle/Bound.antt =====
-- How many requests a bucket lets through.
use nyzrating.Prelude.{
  ℕ, ◌+◌, ◌≤◌, ◌≡◌, refl, List, [], ◌∷◌, ◌++◌, ltb, leb, length, length-append, All, All-snoc,
  if◌then◌else◌, arith, ap, sym, inl, inr, Bool-cases, ◌∙◌,
}
use mathlib.Core.List.{append-nil, append_assoc}
use nyzrating.Throttle.{pop_old, bucket_allowed}

-- The number of requests of one key that are let through, and the bucket after them.
unfoldable pub requests : ℕ → ℕ → List ℕ → ℕ × List ℕ → ℕ × List ℕ
requests window_sec max_requests [] run = run
requests window_sec max_requests (now ∷ times) (n, bucket) =
    let (allowed, left) = bucket_allowed now window_sec max_requests bucket in
    requests window_sec max_requests times ((if allowed then n + 1 else n), left)

-- The bucket ends in the requests since an instant, and they fit the limit.
record Fits (since max_requests n : ℕ) (bucket : List ℕ) : Type 0 where
  old : List ℕ
  new : List ℕ
  parts : bucket ≡ old ++ new
  recent : All (λ t. since ≤ t) new
  number : n ≡ length new
  limit : n ≤ max_requests

pop_recent :
    (now window_sec since : ℕ) (new : List ℕ)
    → now ≤ since + window_sec
    → All (λ t. since ≤ t) new
    → pop_old now window_sec new ≡ new
unfolding pop_old
pop_recent now window_sec since [] h p = refl
pop_recent now window_sec since (t ∷ new) h p = ground (arith, p.0)

-- Only requests of the old part are dropped.
pop_parts :
    (now window_sec since : ℕ) (old new : List ℕ)
    → now ≤ since + window_sec
    → All (λ t. since ≤ t) new
    → (left : List ℕ) × (pop_old now window_sec (old ++ new) ≡ left ++ new)
unfolding pop_old
pop_parts now window_sec since [] new h p = ([], pop_recent now window_sec since new h p)
pop_parts now window_sec since (t ∷ old) new h p = elim (Bool-cases (ltb (t + window_sec) now)) [
  | inl dropped ↦ rw dropped (pop_parts now window_sec since old new h p)
  | inr kept ↦ (t ∷ old, rw kept refl)
]

bucket-Fits :
    (window_sec max_requests since now n : ℕ) (bucket : List ℕ)
    → since ≤ now
    → now ≤ since + window_sec
    → Fits since max_requests n bucket
    → let (allowed, left) = bucket_allowed now window_sec max_requests bucket in
      Fits since max_requests (if allowed then n + 1 else n) left
unfolding bucket_allowed
bucket-Fits window_sec max_requests since now n bucket p q f =
    let (left, e) = pop_parts now window_sec since f.old f.new q f.recent in
    let popped : pop_old now window_sec bucket ≡ left ++ f.new =
      ap (pop_old now window_sec) f.parts ∙ e in
    let size = length-append left f.new in
    elim (Bool-cases (leb max_requests (length (left ++ f.new)))) [
      | inl full ↦
          rw (popped, full)
            (record {
              old = left;
              new = f.new;
              parts = refl;
              recent = f.recent;
              number = f.number;
              limit = f.limit;
            })
      | inr room ↦
          rw (popped, room)
            (record {
              old = left;
              new = f.new ++ now ∷ [];
              parts = append_assoc left f.new (now ∷ []);
              recent = All-snoc (λ t. since ≤ t) f.new now f.recent p;
              number = ground (arith, f.number, length-append f.new (now ∷ []));
              limit = ground (arith, f.number, size);
            })
    ]

requests-Fits :
    (window_sec max_requests since : ℕ) (times : List ℕ) (n : ℕ) (bucket : List ℕ)
    → All (λ now. (since ≤ now) × (now ≤ since + window_sec)) times
    → Fits since max_requests n bucket
    → (requests window_sec max_requests times (n, bucket)).0 ≤ max_requests
unfolding requests
requests-Fits window_sec max_requests since [] n bucket h f = f.limit
requests-Fits window_sec max_requests since (now ∷ times) n bucket h f =
    requests-Fits window_sec max_requests since times _ _ h.1
      (bucket-Fits window_sec max_requests since now n bucket h.0.0 h.0.1 f)

-- Of the requests of one key in a span of time as long as the window, the bucket in memory lets
-- at most the maximum through, whatever was in it before.
pub requests_bounded :
    (window_sec max_requests since : ℕ) (times bucket : List ℕ)
    → All (λ now. (since ≤ now) × (now ≤ since + window_sec)) times
    → (requests window_sec max_requests times (0, bucket)).0 ≤ max_requests
requests_bounded window_sec max_requests since times bucket h =
    requests-Fits window_sec max_requests since times 0 bucket h (record {
      old = bucket;
      new = [];
      parts = sym (append-nil bucket);
      recent = tt;
      number = refl;
      limit = omega arith;
    })
