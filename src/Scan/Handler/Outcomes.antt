-- ===== src/Scan/Handler/Outcomes.antt =====
-- How a scan ends: the verdict, and what is in quarantine then
-- (src/data_platform/api/routers/email_scan.py).
use sicurre.Prelude.{
  ℕ, ◌≡◌, ◌≢◌, refl, ◌⊎◌, inl, inr, Bool, true, false, not, ◌&&◌, Option, none, some, List, [], ◌∷◌,
  ◌++◌, if_both, Bool-cases,
}
use sicurre.Database.{Db, Integration}
use sicurre.Quarantine.Item.{QuarantineItem}
use sicurre.Scan.Journal.{InferenceEvent, Verdict, quarantine, phishing, safe, is_blocked}
use sicurre.Scan.Decision.{EmailScanRequest, Decision}
use sicurre.Scan.Hold.{World, Run, Desk, held_item, send_if, notify, with_alert, hold_if, hold}
use sicurre.Scan.Handler.{Service, quarantined, persist, activated, awaits_mail}

abbrev pub held_of : World → List QuarantineItem
held_of w = w.db.quarantine

-- The item was stored, or the verdict is not quarantine; then nothing was, unless the alert failed.
abbrev pub Outcome : Run → QuarantineItem → World → Verdict × World → Type 0
Outcome run n w (verdict, v) =
    ((verdict ≡ quarantine) × (held_of v ≡ held_of w ++ (n ∷ [])))
    ⊎ ((verdict ≢ quarantine) × (run.alert_fails ≡ false → held_of v ≡ held_of w))

module _ (desk : Desk) (run : Run) (i : Integration) (p : EmailScanRequest) where
  send_if-held :
      (d : Decision) (a : Option Bool) (w : World)
      → held_of (send_if desk run i p d a w) ≡ held_of w
  unfolding send_if
  send_if-held d none w = refl
  send_if-held d (some true) w = if_both (λ v. held_of v ≡ held_of w) run.notice_fails refl refl
  send_if-held d (some false) w = refl

  notify-held : (d : Decision) (w : World) → held_of (notify desk run i p d w) ≡ held_of w
  unfolding notify
  notify-held d w = send_if-held d _ w

  hold_if-Outcome :
      (rejected : Bool) (fails : Bool) (d : Decision) (event_id : ℕ) (w : World)
      → run.alert_fails ≡ fails
      → Outcome run
          (held_item desk run i p d event_id)
          w
          (hold_if desk run i p rejected fails d event_id w)
  unfolding hold_if with_alert
  hold_if-Outcome true _ d event_id w e = inr (λ h. absurd cc, λ _. refl)
  hold_if-Outcome false true d event_id w e = inr (λ h. absurd cc, λ k. absurd cc)
  hold_if-Outcome false false d event_id w e = inl (refl, notify-held d _)

open-quarantine : (v : Verdict) → is_blocked v ≡ false → v ≢ quarantine
open-quarantine safe t h = absurd cc
open-quarantine phishing t h = absurd cc
open-quarantine quarantine t h = absurd cc

module _ (service : Service) (run : Run) (i : Integration) where
  pub quarantined-Outcome :
      (p : EmailScanRequest) (d : Decision) (event_id : ℕ) (w : World)
      → Outcome run
          (held_item service.desk run i p d event_id)
          w
          (quarantined service run i p d event_id w)
  unfolding quarantined hold
  quarantined-Outcome p d event_id w = elim (Bool-cases (is_blocked d.safety)) [
    | inl t ↦ rw t (hold_if-Outcome service.desk run i p _ _ d event_id w refl)
    | inr t ↦ rw t (inr (open-quarantine d.safety t, λ _. refl))
  ]

  activated-held : (db : Db) → (activated service run i db).quarantine ≡ db.quarantine
  unfolding activated
  activated-held db =
      if_both (λ (v : Db). v.quarantine ≡ db.quarantine)
        (awaits_mail i.status && not run.activation_fails) refl refl

  pub persist-held :
      (e : InferenceEvent) (w : World) → held_of (persist service run i e w) ≡ held_of w
  unfolding persist
  persist-held e w = if_both (λ v. held_of v ≡ held_of w) run.event_fails refl (activated-held _)
