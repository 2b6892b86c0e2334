-- ===== src/Quarantine/Item.antt =====
-- The table app_quarantine_item (src/db/models/app_runtime.py), and the statements that
-- src/data_platform/api/routers/quarantine.py and src/data_platform/services/quarantine_retention.py
-- run on it. Identifiers are opaque and only compared, so they are numbers; instants are numbers too.
use sicurre.Prelude.{ℕ, Bool, true, false, not, Option, none, some, ◌&&◌, ◌==◌}
use sicurre.Prelude.Text.{Text, codes, same_name}

pub data Status : Type 0 where
  held releasing released deleted : Status

pub record QuarantineItem : Type 0 where
  pub id : ℕ
  pub workspace_id : ℕ
  pub domain : Text
  pub message_id : ℕ
  pub sender : Text
  pub subject : Text
  pub body_text : Text
  pub safety_verdict : Text
  pub composite_score : ℕ
  pub status : Status
  pub created_at : ℕ
  pub expires_at : ℕ
  pub raw_storage_uri : Option Text
  pub raw_content_hash : Option ℕ
  pub raw_size_bytes : Option ℕ
  pub last_delivery_error : Option Text
  pub delivery_message_id : Option Text
  pub delivered_at : Option ℕ

abbrev pub is_held : Status → Bool
is_held held = true
is_held _ = false

-- id = ? AND workspace_id = ?
abbrev pub keyed : ℕ → ℕ → QuarantineItem → Bool
keyed id workspace r = r.id == id && r.workspace_id == workspace

-- id = ? AND workspace_id = ? AND lower(domain) = lower(?)
abbrev pub owned : ℕ → ℕ → Text → QuarantineItem → Bool
owned id workspace domain r =
    r.id == id && (r.workspace_id == workspace && same_name r.domain domain)

-- The rows of other workspaces.
abbrev pub elsewhere : ℕ → QuarantineItem → Bool
elsewhere workspace r = not (r.workspace_id == workspace)

-- SET status = 'releasing', last_delivery_error = NULL
abbrev pub claim_row : QuarantineItem → QuarantineItem
claim_row r = record r { status = releasing; last_delivery_error = none }

-- SET status = 'held', last_delivery_error = ?
abbrev pub fail_row : Text → QuarantineItem → QuarantineItem
fail_row error r = record r { status = held; last_delivery_error = some error }

-- SET status = 'released', delivery_message_id = ?, delivered_at = ?, last_delivery_error = NULL
abbrev pub release_row : Text → ℕ → QuarantineItem → QuarantineItem
release_row message_id at r = record r {
  status = released;
  last_delivery_error = none;
  delivery_message_id = some message_id;
  delivered_at = some at;
}

-- SET raw_storage_uri = NULL
abbrev pub forget_row : QuarantineItem → QuarantineItem
forget_row r = record r { raw_storage_uri = none }

abbrev pub deleted_mark : Text
deleted_mark = codes "[deleted]"

-- SET status = 'deleted', sender = '[deleted]', ... last_delivery_error = NULL
abbrev pub scrub_row : QuarantineItem → QuarantineItem
scrub_row r = record r {
  sender = deleted_mark;
  subject = deleted_mark;
  body_text = codes "";
  status = deleted;
  raw_storage_uri = none;
  raw_content_hash = none;
  raw_size_bytes = none;
  last_delivery_error = none;
}
