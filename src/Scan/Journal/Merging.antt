-- ===== src/Scan/Journal/Merging.antt =====
-- What the journal's upsert keeps (src/data_platform/api/routers/email_scan.py).
use sicurre.Prelude.{
  ℕ, ◌≡◌, true, false, some, List, [], ◌∷◌, ◌++◌, arith, is_some, Bool-cases, inl, inr,
}
use sicurre.Prelude.Lists.{find, All}
use sicurre.Prelude.Table.{update}
use sicurre.Scan.Journal.{InferenceEvent, is_blocked, has_id, overwrite, upsert_event, masked}

-- The private parts of a message that was not blocked are masked.
abbrev pub IsMasked : InferenceEvent → Type 0
IsMasked e =
    is_blocked e.safety_verdict ≡ false
    → (e.subject ≡ masked) × (e.sender ≡ masked) × (e.snippet ≡ masked)

find-append_some :
    (id : ℕ) (e : InferenceEvent) (rows : List InferenceEvent) {r : InferenceEvent}
    → find (has_id id) rows ≡ some r
    → find (has_id id) (rows ++ (e ∷ [])) ≡ some r
find-append_some id e [] h = ground arith
find-append_some id e (x ∷ rows) {r} h = ground (arith, find-append_some id e rows {r = r})

overwrite-has_id : (id : ℕ) (e r : InferenceEvent) → has_id id (overwrite e r) ≡ has_id id r
overwrite-has_id id e r = ground arith

find-update-overwrite :
    (id : ℕ) (e : InferenceEvent) (rows : List InferenceEvent) {r : InferenceEvent}
    → find (has_id id) rows ≡ some r
    → is_blocked r.safety_verdict ≡ true
    → find (has_id id) (update (has_id e.id) (overwrite e) rows) ≡ some r
find-update-overwrite id e [] h b = ground arith
find-update-overwrite id e (x ∷ rows) {r} h b =
    ground (arith, find-update-overwrite id e rows {r = r}, overwrite-has_id id e x)

-- A blocked row stays as it is.
pub find-upsert_event :
    (id : ℕ) (e : InferenceEvent) (rows : List InferenceEvent) {r : InferenceEvent}
    → find (has_id id) rows ≡ some r
    → is_blocked r.safety_verdict ≡ true
    → find (has_id id) (upsert_event e rows) ≡ some r
unfolding upsert_event
find-upsert_event id e rows {r} h b = elim (Bool-cases (is_some (find (has_id e.id) rows))) [
  | inl t ↦ rw t (find-update-overwrite id e rows h b)
  | inr t ↦ rw t (find-append_some id e rows h)
]

All-append_one :
    (e : InferenceEvent) (rows : List InferenceEvent)
    → IsMasked e
    → All IsMasked rows
    → All IsMasked (rows ++ (e ∷ []))
All-append_one e [] m a = (m, tt)
All-append_one e (x ∷ rows) m (p, a) = (p, All-append_one e rows m a)

overwrite-IsMasked : (e r : InferenceEvent) → IsMasked e → IsMasked r → IsMasked (overwrite e r)
overwrite-IsMasked e r m n = elim (Bool-cases (is_blocked r.safety_verdict)) [
  | inl t ↦ rw t n
  | inr t ↦ rw t m
]

update-IsMasked :
    (id : ℕ) (e : InferenceEvent) (rows : List InferenceEvent)
    → IsMasked e
    → All IsMasked rows
    → All IsMasked (update (has_id id) (overwrite e) rows)
update-IsMasked id e [] m a = tt
update-IsMasked id e (x ∷ rows) m (p, a) = elim (Bool-cases (has_id id x)) [
  | inl t ↦ rw t (overwrite-IsMasked e x m p, update-IsMasked id e rows m a)
  | inr t ↦ rw t (p, update-IsMasked id e rows m a)
]

pub upsert_event-IsMasked :
    (e : InferenceEvent) (rows : List InferenceEvent)
    → IsMasked e
    → All IsMasked rows
    → All IsMasked (upsert_event e rows)
unfolding upsert_event
upsert_event-IsMasked e rows m a = elim (Bool-cases (is_some (find (has_id e.id) rows))) [
  | inl t ↦ rw t (update-IsMasked e.id e rows m a)
  | inr t ↦ rw t (All-append_one e rows m a)
]
