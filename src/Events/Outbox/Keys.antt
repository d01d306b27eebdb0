-- ===== src/Events/Outbox/Keys.antt =====
-- The identifiers of the table's rows, and what the operations make of them.
use nyzrating.Prelude.{
  ℕ, zero, suc, ◌+◌, ◌<◌, ◌≡◌, refl, inl, inr, Bool, false, arith, List, [], ◌∷◌, ◌++◌, All, ◌==◌,
  Bool-cases, Option-cases, ap, ap₂, All-map, All-snoc, Option, none, some, map, ◌*◌, max,
}
use mathlib.Core.List.{map-append}
use nyzrating.Prelude.Text.{Text, text_eq}
use nyzrating.Events.Outbox.{
  Row, Table, find_key, update_row, new_row, append, claim_rows, claim_next_batch, mark_claimed,
  beat, mark_processed, processed_row, failed_row, dead_row, requeued_row, clean_text, has_key,
  on_row, second, insert_row,
}

-- What identifies a row.
abbrev pub Tag : Type 0
Tag = ℕ × Option Text

abbrev pub tag : {P : Type 0} → Row P → Tag
tag row = (row.id, row.idempotency_key)

abbrev pub tags : {P : Type 0} → List (Row P) → List Tag
tags = map tag

abbrev DifferentKey : Option Text → Option Text → Type 0
DifferentKey none k = Unit
DifferentKey (some j) none = Unit
DifferentKey (some j) (some k) = text_eq j k ≡ false

-- Ids ascend, and keys differ.
abbrev pub IsDistinct : List Tag → Type 0
IsDistinct [] = Unit
IsDistinct (t ∷ ts) = All (λ u. (t.0 < u.0) × DifferentKey t.1 u.1) ts × IsDistinct ts

pub record IsValid {P : Type 0} (t : Table P) : Type 0 where
  pub distinct : IsDistinct (tags t.rows)
  pub below : All (λ u. u.0 < t.next_id) (tags t.rows)

module _ {P : Type 0} where
  update_row-tags :
      (id : ℕ) (f : Row P → Row P)
      → ((row : Row P) → tag (f row) ≡ tag row)
      → (rows : List (Row P)) → tags (update_row id f rows) ≡ tags rows
  unfolding update_row
  update_row-tags id f same [] = refl
  update_row-tags id f same (row ∷ rows) = elim (Bool-cases (row.id == id)) [
    | inl here ↦ rw here (ap (λ t. t ∷ tags rows) (same row))
    | inr there ↦ rw there (ap (λ ts. tag row ∷ ts) (update_row-tags id f same rows))
  ]

  pub claim_rows-tags :
      (free : Row P → Bool) (mark : Row P → Row P)
      → ((row : Row P) → tag (mark row) ≡ tag row)
      → (limit : ℕ) (rows : List (Row P)) → tags (claim_rows free mark limit rows).0 ≡ tags rows
  unfolding claim_rows
  claim_rows-tags free mark same zero rows = refl
  claim_rows-tags free mark same (suc limit) [] = refl
  claim_rows-tags free mark same (suc limit) (row ∷ rows) = elim (Bool-cases (free row)) [
    | inl yes_free ↦
        rw yes_free (ap₂ (λ t ts. t ∷ ts) (same row) (claim_rows-tags free mark same limit rows))
    | inr not_free ↦
        rw not_free (ap (λ ts. tag row ∷ ts) (claim_rows-tags free mark same (suc limit) rows))
  ]

  same_tags-IsValid :
      (t u : Table P) → u.next_id ≡ t.next_id → tags u.rows ≡ tags t.rows → IsValid t → IsValid u
  same_tags-IsValid t u n e v = record { distinct = rw e v.distinct; below = rw (e, n) v.below }

  pub on_row-IsValid :
      (id : ℕ) (f : Row P → Row P)
      → ((row : Row P) → tag (f row) ≡ tag row)
      → (t : Table P) → IsValid t
      → IsValid (on_row id f t)
  on_row-IsValid id f same t v =
      same_tags-IsValid t (on_row id f t) refl (update_row-tags id f same t.rows) v

  pub mark_processed-IsValid :
      (id now : ℕ) (t : Table P) → IsValid t → IsValid (mark_processed id now t)
  unfolding mark_processed
  mark_processed-IsValid id now t v = on_row-IsValid id (processed_row now) (λ row. refl) t v

  pub failed_row-tag :
      (error : Text) (m d now later : ℕ) (row : Row P)
      → tag (failed_row error m d now later row) ≡ tag row
  unfolding failed_row
  failed_row-tag error m d now later row = ground arith

  pub beat-tag :
      (owner : Option Text) (s now : ℕ) (row : Row P) → tag (beat owner s now row) ≡ tag row
  unfolding beat
  beat-tag owner s now row = ground arith

  pub dead_row-tag : (error : Text) (now : ℕ) (row : Row P) → tag (dead_row error now row) ≡ tag row
  unfolding dead_row
  dead_row-tag error now row = refl

  pub requeued_row-tag : (now : ℕ) (row : Row P) → tag (requeued_row now row) ≡ tag row
  unfolding requeued_row
  requeued_row-tag now row = refl

  pub mark_claimed-tag :
      (now : ℕ) (owner : Option Text) (lease : ℕ) (row : Row P)
      → tag (mark_claimed now owner lease row) ≡ tag row
  unfolding mark_claimed
  mark_claimed-tag now owner lease row = refl

different_none : (k : Option Text) → DifferentKey k none
different_none none = tt
different_none (some k) = tt

IsDistinct-snoc :
    (ts : List Tag) (t : Tag)
    → IsDistinct ts
    → All (λ u. (u.0 < t.0) × DifferentKey u.1 t.1) ts
    → IsDistinct (ts ++ t ∷ [])
IsDistinct-snoc [] t h d = (tt, tt)
IsDistinct-snoc (u ∷ ts) t h d = (All-snoc _ ts t h.0 d.0, IsDistinct-snoc ts t h.1 d.1)

All-both : (P Q : Tag → Type 0) (ts : List Tag) → All P ts → All Q ts → All (λ u. P u × Q u) ts
All-both P Q [] p q = tt
All-both P Q (t ∷ ts) p q = ((p.0, q.0), All-both P Q ts p.1 q.1)

All-of : (P : Tag → Type 0) (f : (u : Tag) → P u) (ts : List Tag) → All P ts
All-of P f [] = tt
All-of P f (t ∷ ts) = (f t, All-of P f ts)

module _ {P : Type 0} where
  -- A key that is not found differs from every key of the table.
  not_found :
      (key : Text) (rows : List (Row P))
      → find_key key rows ≡ none
      → All (λ u. DifferentKey u.1 (some key)) (tags rows)
  unfolding find_key
  not_found key [] h = tt
  not_found key (row ∷ rows) h = elim (Bool-cases (has_key key row)) [
    | inl found ↦ absurd (some_ne_none row (rw found at h))
    | inr other ↦ (different row.idempotency_key other, not_found key rows (rw other at h))
  ]
    where
      some_ne_none : (r : Row P) → some r ≡ none → ⊥
      some_ne_none r e = cc

      different :
          (k : Option Text)
          → elim k [ none ↦ false | some j ↦ text_eq j key ] ≡ false
          → DifferentKey k (some key)
      different none e = tt
      different (some j) e = e

  insert_row-IsValid :
      (row : Row P) (t : Table P)
      → row.id ≡ t.next_id
      → All (λ u. DifferentKey u.1 row.idempotency_key) (tags t.rows)
      → IsValid t
      → IsValid (insert_row row t).0
  insert_row-IsValid row t e d v =
      let lower : All (λ u. u.0 < row.id) (tags t.rows) =
        All-map (λ u. u.0 < t.next_id) (λ u. u.0 < row.id) (λ u p. omega arith) (tags t.rows)
          v.below in
      record {
        distinct = rw map-append (
            IsDistinct-snoc (tags t.rows) (tag row) v.distinct (
              All-both (λ u. u.0 < row.id) (λ u. DifferentKey u.1 row.idempotency_key) (tags t.rows)
                lower d));
        below = rw map-append (
            All-snoc (λ u. u.0 < t.next_id + 1) (tags t.rows) (tag row)
              (All-map (λ u. u.0 < t.next_id) (λ u. u.0 < t.next_id + 1) (λ u p. omega arith)
                (tags t.rows) v.below)
              (omega arith));
      }

  -- An append keeps the table valid, also when another process has inserted the key after the
  -- query.
  pub append-IsValid :
      (clean : P → P) (event_type : Text) (payload : P) (key : Option Text) (now : ℕ)
      (seen t : Table P)
      → IsValid t
      → IsValid (append clean event_type payload key now seen t).0
  unfolding append new_row
  append-IsValid clean event_type payload key now seen t v = elim (Option-cases (clean_text key)) [
    | inl no_key ↦ rw no_key (
        insert_row-IsValid (new_row t.next_id event_type (clean payload) none now) t refl
          (All-of _ (λ u. different_none u.1) (tags t.rows)) v)
    | inr (k, cleaned) ↦ rw cleaned (elim (Option-cases (find_key k seen.rows)) [
      | inr (row, found) ↦ rw found v
      | inl fresh ↦ rw fresh (elim (Option-cases (find_key k t.rows)) [
        | inr (row, found) ↦ rw found v
        | inl unused ↦ rw unused (
            insert_row-IsValid (new_row t.next_id event_type (clean payload) (some k) now) t refl
              (not_found k t.rows unused) v)
      ])
    ])
  ]

  pub claim_next_batch-IsValid :
      (limit stale lease : ℕ) (owner : Option Text) (locked : ℕ → Bool) (now : ℕ) (t : Table P)
      → IsValid t
      → IsValid (claim_next_batch limit stale lease owner locked now t).0
  unfolding claim_next_batch
  claim_next_batch-IsValid limit stale lease owner locked now t v =
      same_tags-IsValid t (claim_next_batch limit stale lease owner locked now t).0 refl
        (claim_rows-tags _ _
          (λ row. mark_claimed-tag now (clean_text owner) (now + max 1 lease * second) row) limit
          t.rows)
        v
