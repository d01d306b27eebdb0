-- ===== src/Billing/Catalog/Rows.antt =====
-- backend/apps/billing/catalog.py: the rows that seed the catalog. One constant for each row.
use nyzrating.Prelude.{true, false, some, List, [], ◌∷◌}
use nyzrating.Prelude.Text.{Text, codes}
use nyzrating.Billing.Domain.{CatalogEntry, num, flag, str}

abbrev pub default_currency : Text
default_currency = codes "HUF"

abbrev plan_free : CatalogEntry
plan_free = record {
  entry_type = codes "plan";
  code = codes "free";
  name = codes "Teszt";
  currency = default_currency;
  price_cents = 0;
  included = (codes "questions_monthly", some 3) ∷ (codes "trial_days", some 7) ∷ [];
  metadata_json =
      (codes "description", str (codes "1 hétig érvényes tesztidőszak"))
      ∷ (codes "kind", str (codes "outbound_inquiries"))
      ∷ [];
  is_active = true;
}

abbrev pub plan_starter : CatalogEntry
plan_starter = record {
  entry_type = codes "plan";
  code = codes "starter";
  name = codes "Starter";
  currency = default_currency;
  price_cents = 890000;
  included = (codes "questions_monthly", some 40) ∷ (codes "trial_days", some 0) ∷ [];
  metadata_json =
      (codes "description", str (codes "Alap megkereséskeret"))
      ∷ (codes "kind", str (codes "outbound_inquiries"))
      ∷ [];
  is_active = true;
}

abbrev pub plan_pro : CatalogEntry
plan_pro = record {
  entry_type = codes "plan";
  code = codes "pro";
  name = codes "Pro";
  currency = default_currency;
  price_cents = 1890000;
  included = (codes "questions_monthly", some 150) ∷ (codes "trial_days", some 0) ∷ [];
  metadata_json =
      (codes "description", str (codes "Nagyobb megkereséskeret"))
      ∷ (codes "kind", str (codes "outbound_inquiries"))
      ∷ [];
  is_active = true;
}

abbrev plan_growth : CatalogEntry
plan_growth = record {
  entry_type = codes "plan";
  code = codes "growth";
  name = codes "Pro (legacy)";
  currency = default_currency;
  price_cents = 1890000;
  included = (codes "questions_monthly", some 150) ∷ (codes "trial_days", some 0) ∷ [];
  metadata_json =
      (codes "description", str (codes "Legacy alias – replaced by pro"))
      ∷ (codes "kind", str (codes "outbound_inquiries"))
      ∷ [];
  is_active = false;
}

abbrev plan_business : CatalogEntry
plan_business = record {
  entry_type = codes "plan";
  code = codes "business";
  name = codes "Giga";
  currency = default_currency;
  price_cents = 3490000;
  included = (codes "questions_monthly", some 400) ∷ (codes "trial_days", some 0) ∷ [];
  metadata_json =
      (codes "description", str (codes "Nagyforgalom esetén"))
      ∷ (codes "kind", str (codes "outbound_inquiries"))
      ∷ [];
  is_active = true;
}

abbrev addon_question_pack_50 : CatalogEntry
addon_question_pack_50 = record {
  entry_type = codes "addon";
  code = codes "question_pack_50";
  name = codes "50 extra SMS";
  currency = default_currency;
  price_cents = 590000;
  included = (codes "questions", some 50) ∷ [];
  metadata_json = (codes "carryover", flag true) ∷ (codes "kind", str (codes "questions")) ∷ [];
  is_active = true;
}

abbrev addon_question_pack_100 : CatalogEntry
addon_question_pack_100 = record {
  entry_type = codes "addon";
  code = codes "question_pack_100";
  name = codes "100 extra SMS (legacy)";
  currency = default_currency;
  price_cents = 800000;
  included = (codes "questions", some 100) ∷ [];
  metadata_json = (codes "carryover", flag true) ∷ (codes "kind", str (codes "questions")) ∷ [];
  is_active = false;
}

abbrev addon_question_pack_500 : CatalogEntry
addon_question_pack_500 = record {
  entry_type = codes "addon";
  code = codes "question_pack_500";
  name = codes "500 extra SMS (legacy)";
  currency = default_currency;
  price_cents = 500;
  included = (codes "questions", some 500) ∷ [];
  metadata_json = (codes "carryover", flag true) ∷ (codes "kind", str (codes "questions")) ∷ [];
  is_active = false;
}

abbrev addon_extra_kb : CatalogEntry
addon_extra_kb = record {
  entry_type = codes "addon";
  code = codes "extra_kb";
  name = codes "Extra tudástár / hó";
  currency = default_currency;
  price_cents = 500;
  included = (codes "knowledge_bases", some 1) ∷ [];
  metadata_json =
      (codes "recurring", flag true) ∷ (codes "kind", str (codes "knowledge_bases")) ∷ [];
  is_active = false;
}

abbrev addon_extra_storage_gb : CatalogEntry
addon_extra_storage_gb = record {
  entry_type = codes "addon";
  code = codes "extra_storage_gb";
  name = codes "Extra tárhely GB / hó";
  currency = default_currency;
  price_cents = 500;
  included = (codes "storage_gb", some 1) ∷ [];
  metadata_json = (codes "recurring", flag true) ∷ (codes "kind", str (codes "storage_gb")) ∷ [];
  is_active = false;
}

abbrev addon_training_initial_500k : CatalogEntry
addon_training_initial_500k = record {
  entry_type = codes "addon";
  code = codes "training_initial_500k";
  name = codes "Első betanítás";
  currency = default_currency;
  price_cents = 0;
  included = (codes "training_chars", some 0) ∷ [];
  metadata_json =
      (codes "recurring", flag false) ∷ (codes "kind", str (codes "training_chars")) ∷ [];
  is_active = false;
}

abbrev addon_training_extra_500k : CatalogEntry
addon_training_extra_500k = record {
  entry_type = codes "addon";
  code = codes "training_extra_500k";
  name = codes "További betanítás";
  currency = default_currency;
  price_cents = 0;
  included = (codes "training_chars", some 0) ∷ [];
  metadata_json =
      (codes "recurring", flag false) ∷ (codes "kind", str (codes "training_chars")) ∷ [];
  is_active = false;
}

abbrev discount_quarterly_7 : CatalogEntry
discount_quarterly_7 = record {
  entry_type = codes "discount";
  code = codes "quarterly_7";
  name = codes "Negyedéves kedvezmény";
  currency = default_currency;
  price_cents = 0;
  included = [];
  metadata_json =
      (codes "billing_period", str (codes "quarterly")) ∷ (codes "discount_percent", num 7) ∷ [];
  is_active = true;
}

abbrev discount_yearly_15 : CatalogEntry
discount_yearly_15 = record {
  entry_type = codes "discount";
  code = codes "yearly_15";
  name = codes "Éves kedvezmény";
  currency = default_currency;
  price_cents = 0;
  included = [];
  metadata_json =
      (codes "billing_period", str (codes "yearly")) ∷ (codes "discount_percent", num 15) ∷ [];
  is_active = true;
}

unfoldable pub default_catalog_rows : List CatalogEntry
default_catalog_rows =
    plan_free ∷ plan_starter ∷ plan_pro ∷ plan_growth ∷ plan_business ∷ addon_question_pack_50
    ∷ addon_question_pack_100 ∷ addon_question_pack_500 ∷ addon_extra_kb ∷ addon_extra_storage_gb
    ∷ addon_training_initial_500k ∷ addon_training_extra_500k ∷ discount_quarterly_7
    ∷ discount_yearly_15 ∷ []
