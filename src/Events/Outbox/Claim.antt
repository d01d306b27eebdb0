-- ===== src/Events/Outbox/Claim.antt =====
-- Batches: their size, and two of them one after the other.
use nyzrating.Prelude.{
  ℕ, zero, suc, ◌+◌, ◌-◌, ◌*◌, ◌≤◌, ◌<◌, ◌≡◌, refl, inl, inr, Bool, true, false, not, ◌&&◌, ◌||◌,
  arith, List, [], ◌∷◌, All, All-map, length, count, min, max, ◌==◌, Bool-cases, Option,
}
use nyzrating.Prelude.Text.{Text}
use nyzrating.Events.Outbox.{
  Row, Table, WorkItem, claim_rows, claim_next_batch, mark_claimed, outbox_eligible, beat,
  clean_text, second, to_work_item, is_processing, is_waiting,
}
use nyzrating.Events.Outbox.Keys.{tag, tags, IsDistinct, IsValid, claim_rows-tags, mark_claimed-tag}

-- Is the row of this id among the claimed items?
abbrev pub holds : {P : Type 0} → ℕ → List (WorkItem P) → Bool
holds id [] = false
holds id (item ∷ items) = item.id == id || holds id items

module _ {P : Type 0} where
  length-claim_rows :
      (free : Row P → Bool) (mark : Row P → Row P) (limit : ℕ) (rows : List (Row P))
      → length (claim_rows free mark limit rows).1 ≡ min limit (count free rows)
  unfolding claim_rows
  length-claim_rows free mark zero rows = omega arith
  length-claim_rows free mark (suc limit) [] = omega arith
  length-claim_rows free mark (suc limit) (row ∷ rows) =
      ground (
        arith,
        length-claim_rows free mark limit rows,
        length-claim_rows free mark (suc limit) rows,
      )

  -- A claimed batch has as many events as the smaller of the limit and the number of rows that
  -- are eligible and not locked by another transaction.
  length-claim_next_batch :
      (limit stale lease : ℕ) (owner : Option Text) (locked : ℕ → Bool) (now : ℕ) (t : Table P)
      → length (claim_next_batch limit stale lease owner locked now t).1
        ≡ min limit (
            count
              (λ row. outbox_eligible now (now - max 1 stale * second) row && not (locked row.id))
              t.rows)
  unfolding claim_next_batch
  length-claim_next_batch limit stale lease owner locked now t = length-claim_rows _ _ limit t.rows

  items-above :
      (free : Row P → Bool) (mark : Row P → Row P) (limit low : ℕ) (rows : List (Row P))
      → All (λ u. low < u.0) (tags rows)
      → All (λ i. low < i.id) (claim_rows free mark limit rows).1
  unfolding claim_rows
  items-above free mark zero low rows h = tt
  items-above free mark (suc limit) low [] h = tt
  items-above free mark (suc limit) low (row ∷ rows) h = elim (Bool-cases (free row)) [
    | inl p ↦ rw p (h.0, items-above free mark limit low rows h.1)
    | inr p ↦ rw p (items-above free mark (suc limit) low rows h.1)
  ]

  not_held :
      (low id : ℕ) (items : List (WorkItem P))
      → id ≤ low
      → All (λ i. low < i.id) items
      → holds id items ≡ false
  not_held low id [] le h = refl
  not_held low id (item ∷ items) le h = ground (arith, not_held low id items le h.1)

  skip_row :
      (row : Row P) (items others : List (WorkItem P))
      → All (λ i. row.id < i.id) items
      → All (λ i. holds i.id others ≡ false) items
      → All (λ i. holds i.id (to_work_item row ∷ others) ≡ false) items
  unfolding to_work_item
  skip_row row [] others above h = tt
  skip_row row (item ∷ items) others above h =
      (ground (arith, above.0, h.0), skip_row row items others above.1 h.1)

  none_held : (items : List (WorkItem P)) → All (λ i. holds {P = P} i.id [] ≡ false) items
  none_held [] = tt
  none_held (item ∷ items) = (refl, none_held items)

  below_ids :
      (row : Row P) (rows : List (Row P))
      → IsDistinct (tags (row ∷ rows))
      → All (λ u. row.id < u.0) (tags rows)
  below_ids row rows d = All-map _ _ (λ u p. p.0) (tags rows) d.0

module _ {P : Type 0} (free free' : Row P → Bool) (mark mark' : Row P → Row P)
    (same : (row : Row P) → tag (mark row) ≡ tag row)
    (taken : (row : Row P) → free' (mark row) ≡ false) where
  disjoint :
      (n m : ℕ) (rows : List (Row P))
      → IsDistinct (tags rows)
      → All
          (λ i. holds i.id (claim_rows free mark n rows).1 ≡ false)
          (claim_rows free' mark' m (claim_rows free mark n rows).0).1
  unfolding claim_rows
  disjoint zero m rows d = none_held (claim_rows free' mark' m rows).1
  disjoint (suc n) zero rows d = tt
  disjoint (suc n) (suc m) [] d = tt
  disjoint (suc n) (suc m) (row ∷ rows) d = elim (Bool-cases (free row)) [
    | inl p ↦
        rw (p, taken row)
          (skip_row row _ _
            (items-above free' mark' (suc m) row.id (claim_rows free mark n rows).0
              (rw (claim_rows-tags free mark same n rows) (below_ids row rows d)))
            (disjoint n (suc m) rows d.1))
    | inr p ↦ rw p (elim (Bool-cases (free' row)) [
      | inl q ↦ rw q (
        not_held row.id row.id _ (omega arith)
            (items-above free mark (suc n) row.id rows (below_ids row rows d)),
        disjoint (suc n) m rows d.1,
      )
      | inr q ↦ rw q (disjoint (suc n) (suc m) rows d.1)
    ])
  ]

module _ {P : Type 0} where
  -- A claimed row cannot be claimed again before its lease ends or its lock is stale.
  held :
      (now now' stale lease : ℕ) (owner : Option Text) (locked : ℕ → Bool) (row : Row P)
      → now' ≤ now + max 1 lease * second
      → now' ≤ now + max 1 stale * second
      → (let marked = mark_claimed now (clean_text owner) (now + max 1 lease * second) row in
          outbox_eligible now' (now' - max 1 stale * second) marked && not (locked marked.id))
        ≡ false
  unfolding outbox_eligible mark_claimed is_waiting is_processing
  held now now' stale lease owner locked row p q = ground arith

  -- On a valid table, a batch that is claimed before the leases of an earlier batch end and
  -- before its locks count as stale shares no event with it.
  pub claim_next_batch-disjoint :
      (limit limit' stale stale' lease lease' now now' : ℕ) (owner owner' : Option Text)
      (locked locked' : ℕ → Bool) (t : Table P)
      → IsValid t
      → now' ≤ now + max 1 lease * second
      → now' ≤ now + max 1 stale' * second
      → let first = claim_next_batch limit stale lease owner locked now t in
        let later = claim_next_batch limit' stale' lease' owner' locked' now' first.0 in
        All (λ i. holds i.id first.1 ≡ false) later.1
  unfolding claim_next_batch
  claim_next_batch-disjoint limit limit' stale stale' lease lease' now now' owner owner' locked
        locked' t v p q =
      disjoint (λ row. outbox_eligible now (now - max 1 stale * second) row && not (locked row.id))
        (λ row. outbox_eligible now' (now' - max 1 stale' * second) row && not (locked' row.id))
        (mark_claimed now (clean_text owner) (now + max 1 lease * second))
        (mark_claimed now' (clean_text owner') (now' + max 1 lease' * second))
        (λ row. mark_claimed-tag now (clean_text owner) (now + max 1 lease * second) row)
        (λ row. held now now' stale' lease owner locked' row p q) limit limit' t.rows v.distinct

  -- A claimed event is eligible again once its claim is older than the limit for stale locks,
  -- whatever heartbeat its owner has sent.
  pub stale_lock_despite_heartbeat :
      (claimed_at beat_at now stale lease beat_lease : ℕ) (owner : Option Text) (row : Row P)
      → claimed_at + max 1 stale * second < now
      → outbox_eligible now (now - max 1 stale * second) (
          beat owner beat_lease beat_at
            (mark_claimed claimed_at (clean_text owner) (claimed_at + max 1 lease * second) row))
        ≡ true
  unfolding outbox_eligible mark_claimed beat
  stale_lock_despite_heartbeat claimed_at beat_at now stale lease beat_lease owner row h =
      ground arith
