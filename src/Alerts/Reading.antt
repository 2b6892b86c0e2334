-- ===== src/Alerts/Reading.antt =====
-- Marking a domain's alerts read: all of them, and for this member only.
use sicurre.Prelude.{
  ℕ, ◌≡◌, refl, ◌∙◌, Bool, true, false, ◌||◌, List, [], ◌∷◌, ◌++◌, arith, ◌==◌, ==_refl, if_cases,
  Bool-cases, inl, inr,
}
use sicurre.Prelude.Lists.{All, any, any-append}
use sicurre.Prelude.Table.{select}
use sicurre.Prelude.Text.{Text}
use sicurre.Prelude.Http.{Reply, ok, raised, proceed}
use sicurre.Database.{AuthUser, owned_domain}
use sicurre.Scan.Journal.{Alert}
use sicurre.Alerts.{AlertRead, Inbox, StatusResponse}
use sicurre.Alerts.History.{read_by, insert_read, read_all, shown_alert, mark_domain_alerts_read}

abbrev pub has_read : ℕ → ℕ → List AlertRead → Bool
has_read user alert = any (read_by user alert)

module _ (user : AuthUser) (domain : Text) (now : ℕ) where
  insert_read-has_read :
      (alert : ℕ) (rows : List AlertRead)
      → has_read user.id alert (insert_read user domain now alert rows) ≡ true
  unfolding insert_read
  insert_read-has_read alert rows =
      if_cases (λ (rs : List AlertRead). has_read user.id alert rs ≡ true)
        (any (read_by user.id alert) rows) (λ h. h)
        (λ _. any-append (read_by user.id alert) rows _ (rw (==_refl user.id, ==_refl alert) refl))

  any-append_one :
      (p : AlertRead → Bool) (rows : List AlertRead) (r : AlertRead)
      → any p (rows ++ (r ∷ [])) ≡ (any p rows || p r)
  any-append_one p [] r = ground arith
  any-append_one p (x ∷ rows) r = ground (arith, any-append_one p rows r)

  -- Another member's marks, and the marks of before, are kept.
  insert_read-kept :
      (alert other id : ℕ) (rows : List AlertRead)
      → has_read other id rows ≡ true
      → has_read other id (insert_read user domain now alert rows) ≡ true
  unfolding insert_read
  insert_read-kept alert other id rows h =
      if_cases (λ (rs : List AlertRead). has_read other id rs ≡ true)
        (any (read_by user.id alert) rows) (λ _. h)
        (λ _. any-append_one (read_by other id) rows _ ∙ rw h refl)

  insert_read-others :
      (alert other id : ℕ) (rows : List AlertRead)
      → (user.id == other) ≡ false
      → has_read other id (insert_read user domain now alert rows) ≡ has_read other id rows
  unfolding insert_read
  insert_read-others alert other id rows h =
      if_cases (λ (rs : List AlertRead). has_read other id rs ≡ has_read other id rows)
        (any (read_by user.id alert) rows) (λ _. refl)
        (λ _.
          any-append_one (read_by other id) rows _
          ∙ rw h (elim (Bool-cases (has_read other id rows)) [
            | inl e ↦ rw e refl
            | inr e ↦ rw e refl
          ]))

  read_all-kept :
      (alerts : List Alert) (other id : ℕ) (rows : List AlertRead)
      → has_read other id rows ≡ true
      → has_read other id (read_all user domain now alerts rows) ≡ true
  unfolding read_all
  read_all-kept [] other id rows h = h
  read_all-kept (a ∷ as_) other id rows h =
      read_all-kept as_ other id (insert_read user domain now a.id rows)
        (insert_read-kept a.id other id rows h)

  read_all-others :
      (alerts : List Alert) (other id : ℕ) (rows : List AlertRead)
      → (user.id == other) ≡ false
      → has_read other id (read_all user domain now alerts rows) ≡ has_read other id rows
  unfolding read_all
  read_all-others [] other id rows h = refl
  read_all-others (a ∷ as_) other id rows h =
      read_all-others as_ other id (insert_read user domain now a.id rows) h
      ∙ insert_read-others a.id other id rows h

  read_all-reads :
      (alerts : List Alert) (rows : List AlertRead)
      → All
          (λ (a : Alert). has_read user.id a.id (read_all user domain now alerts rows) ≡ true)
          alerts
  unfolding read_all
  read_all-reads [] rows = tt
  read_all-reads (a ∷ as_) rows = (
    read_all-kept as_ user.id a.id (insert_read user domain now a.id rows)
        (insert_read-has_read a.id rows),
    read_all-reads as_ (insert_read user domain now a.id rows),
  )

-- What the statement does when the domain is the caller's.
abbrev marking : ℕ → AuthUser → Reply Text → Inbox → Reply StatusResponse × Inbox
marking now user r w =
    proceed (r, w)
      (λ active v. (
        ok tt,
        record v {
          reads =
              read_all user active now (select (shown_alert user.workspace_id active) v.db.alerts)
                v.reads;
        },
      ))

-- The alerts that a reply's domain shows to this member.
abbrev pub alerts_shown : AuthUser → Reply Text → Inbox → List Alert
alerts_shown user (ok active) w = select (shown_alert user.workspace_id active) w.db.alerts
alerts_shown user (raised n d) w = []

marking-reads :
    (now : ℕ) (user : AuthUser) (r : Reply Text) (w : Inbox)
    → All
        (λ (a : Alert). has_read user.id a.id (marking now user r w).1.reads ≡ true)
        (alerts_shown user r (marking now user r w).1)
marking-reads now user (raised n d) w = tt
marking-reads now user (ok active) w =
    read_all-reads user active now (select (shown_alert user.workspace_id active) w.db.alerts)
      w.reads

marking-others :
    (now : ℕ) (user : AuthUser) (r : Reply Text) (w : Inbox) (other id : ℕ)
    → (user.id == other) ≡ false
    → has_read other id (marking now user r w).1.reads ≡ has_read other id w.reads
marking-others now user (raised n d) w other id h = refl
marking-others now user (ok active) w other id h =
    read_all-others user active now (select (shown_alert user.workspace_id active) w.db.alerts)
      other id w.reads h

-- After a member marks a domain's alerts read, every alert of the domain that is not dismissed is
-- read by this member, and for any other member each alert is read just as it was before.
pub mark_domain_alerts_read-reads :
    (now : ℕ) (domain : Text) (user : AuthUser) (w : Inbox)
    → let w' = (mark_domain_alerts_read now domain user w).1 in
      All
        (λ (a : Alert). has_read user.id a.id w'.reads ≡ true)
        (alerts_shown user (owned_domain w.db domain user) w')
      × ((other id : ℕ)
          → (user.id == other) ≡ false
          → has_read other id w'.reads ≡ has_read other id w.reads)
unfolding mark_domain_alerts_read
mark_domain_alerts_read-reads now domain user w = (
  marking-reads now user (owned_domain w.db domain user) w,
  marking-others now user (owned_domain w.db domain user) w,
)
