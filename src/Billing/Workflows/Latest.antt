-- ===== src/Billing/Workflows/Latest.antt =====
-- What holds of every invoice holds of the ones that the queries choose.
use nyzrating.Prelude.{Bool, true, false, Option, none, some, List, [], ◌∷◌, All, if◌then◌else◌}
use nyzrating.Prelude.Text.{text_eq}
use nyzrating.Calendar.{datetime_lt}
use nyzrating.Billing.Store.Invoices.{Invoice, latest, newer}
use nyzrating.Billing.Workflows.Status.{payment_failed, when_failed, later_failed, open_failed}

module _ (P : Invoice → Type 0) where
  -- An invoice that is there has a property.
  abbrev pub Holds : Option Invoice → Type 0
  Holds none = Unit
  Holds (some i) = P i

  if-Holds : (b : Bool) (x y : Option Invoice) → Holds x → Holds y → Holds (if b then x else y)
  if-Holds true x y p q = p
  if-Holds false x y p q = q

  newer-Holds :
      (row : Invoice) (rest : Option Invoice) → P row → Holds rest → Holds (newer row rest)
  newer-Holds row none p q = p
  newer-Holds row (some other) p q =
      if-Holds (datetime_lt row.issued_at other.issued_at) (some other) (some row) q p

  pub latest-Holds :
      (test : Invoice → Bool) (rows : List Invoice) → All P rows → Holds (latest test rows)
  unfolding latest
  latest-Holds test [] h = tt
  latest-Holds test (row ∷ rows) h =
      let rest = latest-Holds test rows h.1 in
      if-Holds (test row) (newer row (latest test rows)) (latest test rows)
        (newer-Holds row (latest test rows) h.0 rest) rest

  failed-Holds : (o : Option Invoice) → Holds o → Holds (when_failed o)
  failed-Holds none h = h
  failed-Holds (some i) h = if-Holds (text_eq i.status payment_failed) (some i) none h tt

  pub later-Holds : (m f : Option Invoice) → Holds m → Holds f → Holds (later_failed m f)
  later-Holds none f p q = q
  later-Holds (some m) none p q = p
  later-Holds (some m) (some f) p q =
      if-Holds (datetime_lt m.issued_at f.issued_at) (some f) (some m) q p

  pub open_failed-Holds : (m f : Option Invoice) → Holds m → Holds f → Holds (open_failed m f)
  unfolding open_failed
  open_failed-Holds m f p q =
      later-Holds (when_failed m) (when_failed f) (failed-Holds m p) (failed-Holds f q)
