-- ===== src/Quarantine/Race/Safety.antt =====
-- What holds in every reachable state of concurrent releases.
use sicurre.Prelude.{ℕ, ◌+◌, ◌≤◌, ◌≡◌, refl, true, false, none, arith}
use sicurre.Prelude.Text.{Text}
use native.Mathlib.Decide.{ℕ_discrete}
use sicurre.Database.{Db, AuthUser, Integration}
use sicurre.Quarantine.Release.{check_status, proceed}
use sicurre.Quarantine.Item.{
  held, QuarantineItem, is_held, claim_row, fail_row, scrub_row, deleted_mark,
}
use sicurre.Quarantine.Race.{
  waiting, ready, delivering, finished, System, set_phase, Step, look, turn_away, claim, succeed,
  fail, lose, forget, purge, remove, Reach, here, next, start,
}

pub record IsSafe (s : System) : Type 0 where
  pub alone : (i j : ℕ) → s.phase i ≡ delivering → s.phase j ≡ delivering → i ≡ j
  pub pending :
      (i : ℕ) → s.phase i ≡ delivering → (s.deliveries ≡ s.lost) × (is_held s.row.status ≡ false)
  pub untouched : is_held s.row.status ≡ true → s.deliveries ≡ s.lost
  pub once : s.deliveries ≤ s.lost + 1

-- A move to a phase other than delivering, with the row's status and the count as they were.
Step-IsSafe : {s t : System} → Step s t → IsSafe s → IsSafe t
Step-IsSafe {s} (look i db user x r p h) v = record {
  alone = λ a b x y. ground (arith, v.alone a b);
  pending = λ a x. ground (arith, v.pending a);
  untouched = v.untouched;
  once = v.once;
}
Step-IsSafe {s} (turn_away i p) v = record {
  alone = λ a b x y. ground (arith, v.alone a b);
  pending = λ a x. ground (arith, v.pending a);
  untouched = v.untouched;
  once = v.once;
}
Step-IsSafe {s} (claim i p) v = record {
  alone = λ a b x y. ground (arith, v.alone a b, v.pending a, v.pending b);
  pending = λ a x. ground (arith, v.pending a, v.untouched);
  untouched = λ h. ground (arith, v.untouched);
  once = v.once;
}
Step-IsSafe {s} (succeed i m now p) v = record {
  alone = λ a b x y. ground (arith, v.alone a b);
  pending = λ a x. ground (arith, v.alone a i);
  untouched = λ h. cc;
  once = ground (arith, v.pending i p);
}
Step-IsSafe {s} (fail i m p) v = record {
  alone = λ a b x y. ground (arith, v.alone a b);
  pending = λ a x. ground (arith, v.alone a i);
  untouched = λ h. (v.pending i p).0;
  once = v.once;
}
Step-IsSafe {s} (lose i m p) v = record {
  alone = λ a b x y. ground (arith, v.alone a b);
  pending = λ a x. ground (arith, v.alone a i);
  untouched = λ h. ground (arith, v.pending i p);
  once = ground (arith, v.pending i p);
}
Step-IsSafe {s} (forget i p) v = record {
  alone = λ a b x y. ground (arith, v.alone a b);
  pending = λ a x. ground (arith, v.pending a);
  untouched = v.untouched;
  once = v.once;
}
Step-IsSafe {s} (purge h) v = record {
  alone = v.alone;
  pending = λ a x. ground (arith, v.pending a x);
  untouched = λ h. cc;
  once = v.once;
}
Step-IsSafe {s} remove v = record {
  alone = v.alone;
  pending = λ a x. ground (arith, v.pending a x);
  untouched = λ h. cc;
  once = v.once;
}

start-IsSafe : (item : QuarantineItem) → IsSafe (start item)
start-IsSafe item = record {
  alone = λ i j p q. cc;
  pending = λ i p. cc;
  untouched = λ h. refl;
  once = omega arith;
}

Reach-IsSafe : {s t : System} → IsSafe s → Reach s t → IsSafe t
Reach-IsSafe h here = h
Reach-IsSafe h (next r st) = Step-IsSafe st (Reach-IsSafe h r)

-- However releases, deletions and purges of one message interleave, no two requests are ever between
-- their claim and its answer, and Cloudflare accepts the message at most once more than there are
-- acceptances whose answer was lost: at most once if none was.
pub at_most_one_delivery :
    (item : QuarantineItem) (s : System)
    → Reach (start item) s
    → (s.deliveries ≤ s.lost + 1)
      × ((i j : ℕ) → s.phase i ≡ delivering → s.phase j ≡ delivering → i ≡ j)
at_most_one_delivery item s r =
    let safe = Reach-IsSafe (start-IsSafe item) r in (safe.once, safe.alone)

abbrev resurrected : QuarantineItem → Text → System
resurrected item error = record {
  row = fail_row error (scrub_row (claim_row (record item { status = held })));
  phase = set_phase (set_phase (set_phase (λ _. waiting) 0 ready) 0 delivering) 0 finished;
  deliveries = 0;
  lost = 0;
}

-- Every held message that the checks of a release let through can be deleted by its owner while that
-- release is waiting for Cloudflare; if the delivery then fails, the deleted message is held again,
-- scrubbed and without its content.
pub deletion_undone_by_failed_release :
    (item : QuarantineItem) (error : Text) (db : Db) (user : AuthUser) (x : QuarantineItem)
    (r : Integration)
    → check_status db user (record item { status = held }) held ≡ proceed x r
    → (s : System) × Reach (start (record item { status = held })) s
      × (s.row.status ≡ held)
      × (s.row.sender ≡ deleted_mark)
      × (s.row.raw_storage_uri ≡ none)
      × (s.deliveries ≡ 0)
unfolding ℕ_discrete
deletion_undone_by_failed_release item error db user x r h = (
  resurrected item error,
  next (next (next (next here (look 0 db user x r refl h)) (claim 0 refl)) remove)
      (fail 0 error refl),
  refl,
  refl,
  refl,
  refl,
)
