-- ===== src/Quarantine/Race.antt =====
-- Concurrent requests on one held message: any number of releases, whose phases interleave at the
-- statements of src/data_platform/api/routers/quarantine.py, with deletions by the user and
-- purges. `row` is the row with the message's primary key.
pub mod Safety
use sicurre.Prelude.{ℕ, ◌+◌, ◌≡◌, Bool, true, false, Option, none, some}
use sicurre.Prelude.Text.{Text}
use mathlib.Core.Logic.{ite}
use native.Mathlib.Decide.{ℕ_discrete}
use sicurre.Database.{Db, AuthUser, Integration}
use sicurre.Quarantine.Release.{check_status, proceed}
use sicurre.Quarantine.Item.{
  QuarantineItem, is_held, claim_row, fail_row, release_row, forget_row, scrub_row,
}

-- Where a release request stands: before its checks, after checks that let it go on, between its
-- claim and the answer of Cloudflare, after a delivery with the stored object still there, done.
pub data Phase : Type 0 where
  waiting ready delivering delivered finished : Phase

-- `deliveries` counts the messages that Cloudflare accepted, `lost` those of them whose acceptance
-- the request did not learn: a timeout while the answer was read, or an answer that is not the one
-- expected.
pub record System : Type 0 where
  pub row : QuarantineItem
  pub phase : ℕ → Phase
  pub deliveries : ℕ
  pub lost : ℕ

abbrev pub set_phase : (ℕ → Phase) → ℕ → Phase → ℕ → Phase
set_phase f i p j = ite (ℕ_discrete i j) p (f j)

abbrev pub after_claim : Bool → Phase
after_claim true = delivering
after_claim false = finished

abbrev pub claimed_row : Bool → QuarantineItem → QuarantineItem
claimed_row true r = claim_row r
claimed_row false r = r

pub data Step (s : System) : System → Type 0 where
  -- The checks read the row and the tables as they are then.
  look :
      (i : ℕ) (db : Db) (user : AuthUser) (item : QuarantineItem) (r : Integration)
      → s.phase i ≡ waiting
      → check_status db user s.row s.row.status ≡ proceed item r
      → Step s (record s { phase = set_phase s.phase i ready })
  turn_away :
      (i : ℕ) → s.phase i ≡ waiting → Step s (record s { phase = set_phase s.phase i finished })
  -- UPDATE ... SET status = 'releasing' ... AND status = 'held' RETURNING id
  claim :
      (i : ℕ)
      → s.phase i ≡ ready
      → Step s (record s {
        row = claimed_row (is_held s.row.status) s.row;
        phase = set_phase s.phase i (after_claim (is_held s.row.status));
      })
  succeed :
      (i : ℕ) (message_id : Text) (now : ℕ)
      → s.phase i ≡ delivering
      → Step s (record s {
        row = release_row message_id now s.row;
        phase = set_phase s.phase i delivered;
        deliveries = s.deliveries + 1;
      })
  fail :
      (i : ℕ) (error : Text)
      → s.phase i ≡ delivering
      → Step s (record s { row = fail_row error s.row; phase = set_phase s.phase i finished })
  -- Cloudflare accepted the message, and the request ends in the same error path.
  lose :
      (i : ℕ) (error : Text)
      → s.phase i ≡ delivering
      → Step s (record s {
        row = fail_row error s.row;
        phase = set_phase s.phase i finished;
        deliveries = s.deliveries + 1;
        lost = s.lost + 1;
      })
  forget :
      (i : ℕ)
      → s.phase i ≡ delivered
      → Step s (record s { row = forget_row s.row; phase = set_phase s.phase i finished })
  -- The purge's UPDATE ... AND status = 'held'
  purge : is_held s.row.status ≡ true → Step s (record s { row = scrub_row s.row })
  -- The deletion's UPDATE, which does not look at the status
  remove : Step s (record s { row = scrub_row s.row })

pub data Reach (s : System) : System → Type 0 where
  here : Reach s s
  next : {t u : System} → Reach s t → Step t u → Reach s u

-- A held message, and requests that have not begun.
abbrev pub start : QuarantineItem → System
start item = record { row = item; phase = λ _. waiting; deliveries = 0; lost = 0 }
