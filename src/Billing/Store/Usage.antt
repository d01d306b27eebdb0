-- ===== src/Billing/Store/Usage.antt =====
-- The counts of questions and of training in backend/apps/billing/repositories.py and models.py.
-- An increment is a natural number; the source raises a negative one to 0.
use nyzrating.Prelude.{ℕ, ◌+◌, ◌&&◌, Option, none, some, List, [], ◌∷◌, ◌==◌, if◌then◌else◌}
use nyzrating.Prelude.Text.{Text, text_eq}
use nyzrating.Calendar.{DateTime}

pub record QuestionUsage : Type 0 where
  pub tenant_id : ℕ
  pub user_id : ℕ
  pub period_key : Text
  pub question_count : ℕ
  pub last_question_at : DateTime

unfoldable pub upsert_question_usage :
    DateTime → ℕ → ℕ → Text → ℕ → List QuestionUsage → List QuestionUsage
upsert_question_usage wall tenant_id user_id period_key increment [] =
    record {
      tenant_id = tenant_id;
      user_id = user_id;
      period_key = period_key;
      question_count = increment;
      last_question_at = wall;
    }
    ∷ []
upsert_question_usage wall tenant_id user_id period_key increment (row ∷ rows) =
    if row.tenant_id == tenant_id && row.user_id == user_id && text_eq row.period_key period_key
    then record row { question_count = row.question_count + increment; last_question_at = wall }
      ∷ rows
    else row ∷ upsert_question_usage wall tenant_id user_id period_key increment rows

pub record TrainingUsage : Type 0 where
  pub tenant_id : ℕ
  pub period_key : Text
  pub trained_chars : ℕ
  pub storage_bytes : ℕ

unfoldable pub get_training_usage : ℕ → Text → List TrainingUsage → Option TrainingUsage
get_training_usage tenant_id period_key [] = none
get_training_usage tenant_id period_key (row ∷ rows) =
    if row.tenant_id == tenant_id && text_eq row.period_key period_key
    then some row
    else get_training_usage tenant_id period_key rows

unfoldable pub increment_training_usage : ℕ → Text → ℕ → ℕ → List TrainingUsage → List TrainingUsage
increment_training_usage tenant_id period_key trained_chars storage_bytes [] =
    record {
      tenant_id = tenant_id;
      period_key = period_key;
      trained_chars = trained_chars;
      storage_bytes = storage_bytes;
    }
    ∷ []
increment_training_usage tenant_id period_key trained_chars storage_bytes (row ∷ rows) =
    if row.tenant_id == tenant_id && text_eq row.period_key period_key
    then record row {
      trained_chars = row.trained_chars + trained_chars;
      storage_bytes = row.storage_bytes + storage_bytes;
    }
      ∷ rows
    else row ∷ increment_training_usage tenant_id period_key trained_chars storage_bytes rows
