-- ===== src/Alerts/Preferences.antt =====
-- What a member sets is what a member reads back.
use mathlib.Core.Path.{subst, ap₂}
use sicurre.Prelude.{
  ℕ, ◌≡◌, refl, ap, sym, ◌∙◌, Bool, true, Option, some, List, [], ◌∷◌, ==_refl, if_both, if_cases,
  Bool-cases, inl, inr,
}
use sicurre.Prelude.Lists.{All, All-append, any, find, find-append, find_of_any, find-none}
use sicurre.Prelude.Table.{update, find-update_self}
use sicurre.Prelude.Text.{
  codes, or_else, Text, text_eq_refl, same_name, lower, lower_idem, strip, is_empty,
}
use sicurre.Prelude.Http.{Reply, ok, raised, proceed}
use sicurre.Database.{Db, AuthUser, owned_domain, require_workspace_domain, connects}
use sicurre.Notification.{AlertPreference}
use sicurre.Alerts.{
  StatusResponse, Inbox, set_preferences, preference_of, same_key, shown_preference,
  preference_or_default, get_alert_preferences, upsert_preference, stored_preference,
  update_alert_preferences,
}

-- The domains of the table are in lower case, as `owned_domain` gives them.
abbrev pub IsLowered : AlertPreference → Type 0
IsLowered r = lower r.domain ≡ r.domain

abbrev domain_or_empty : Reply Text → Text
domain_or_empty (ok t) = t
domain_or_empty (raised n d) = []

owned_domain-lower :
    (db : Db) (domain : Text) (user : AuthUser) (active : Text)
    → owned_domain db domain user ≡ ok active
    → lower active ≡ active
unfolding owned_domain require_workspace_domain
owned_domain-lower db domain user active =
    if_cases (λ (r : Reply Text). r ≡ ok active → lower active ≡ active)
      (is_empty (lower (strip domain))) (λ _ e. absurd cc)
      (λ _.
        if_cases (λ (r : Reply Text). r ≡ ok active → lower active ≡ active)
          (any (connects user.workspace_id (lower (strip domain))) db.integrations)
          (λ _ e.
            subst (λ (t : Text). lower t ≡ t) (ap domain_or_empty e) (lower_idem (strip domain)))
          (λ _ e. absurd cc))

update-IsLowered :
    (p : AlertPreference) (q : AlertPreference → Bool) (rows : List AlertPreference)
    → IsLowered p
    → All IsLowered rows
    → All IsLowered (update q (λ _. p) rows)
update-IsLowered p q [] h hs = tt
update-IsLowered p q (r ∷ rs) h (k, ks) =
    (if_both IsLowered (q r) h k, update-IsLowered p q rs h ks)

module _ (workspace : ℕ) (domain : Text) (lowered : lower domain ≡ domain) where
  -- On a lowered row the two comparisons agree.
  keys_agree :
      (r : AlertPreference)
      → IsLowered r
      → preference_of workspace domain r ≡ same_key workspace domain r
  unfolding same_name
  keys_agree r h = rw (h, lowered) refl

  find-keys :
      (rows : List AlertPreference)
      → All IsLowered rows
      → find (preference_of workspace domain) rows ≡ find (same_key workspace domain) rows
  find-keys [] hs = refl
  find-keys (r ∷ rs) (h, hs) = rw (keys_agree r h, find-keys rs hs) refl

  upsert_preference-IsLowered :
      (p : AlertPreference) (rows : List AlertPreference)
      → IsLowered p
      → All IsLowered rows
      → All IsLowered (upsert_preference p rows)
  unfolding upsert_preference
  upsert_preference-IsLowered p rows h hs =
      if_both (All IsLowered) (any (same_key p.workspace_id p.domain) rows)
        (update-IsLowered p (same_key p.workspace_id p.domain) rows h hs)
        (All-append IsLowered rows (p ∷ []) hs (h, tt))

  find-upsert_preference :
      (p : AlertPreference) (rows : List AlertPreference)
      → p.workspace_id ≡ workspace
      → p.domain ≡ domain
      → All IsLowered rows
      → find (preference_of workspace domain) (upsert_preference p rows) ≡ some p
  unfolding upsert_preference
  find-upsert_preference p rows e f hs =
      let q = same_key p.workspace_id p.domain in
      let own : q p ≡ true = rw (==_refl p.workspace_id, text_eq_refl p.domain) refl in
      let found : find q (upsert_preference p rows) ≡ some p = elim (Bool-cases (any q rows)) [
        | inl k ↦
            let (r, g) = find_of_any q rows k in
            rw k (find-update_self q (λ _. p) (λ _ _. own) rows {r = r} g)
        | inr k ↦ rw k (find-append q rows p (find-none q rows k) own)
      ] in
      find-keys (upsert_preference p rows)
        (upsert_preference-IsLowered p rows (ap lower f ∙ lowered ∙ sym f) hs)
      ∙ ap₂ (λ (k : ℕ) (d : Text). find (same_key k d) (upsert_preference p rows)) (sym e) (sym f)
      ∙ found

owned_domain_keeps :
    (w : Inbox) (f : List AlertPreference → List AlertPreference) (domain : Text) (user : AuthUser)
    → owned_domain (set_preferences f w).db domain user ≡ owned_domain w.db domain user
unfolding owned_domain require_workspace_domain
owned_domain_keeps w f domain user = refl

-- The preference that a payload asks for, on a workspace and a domain.
abbrev pub as_sent : AlertPreference → ℕ → Text → AlertPreference
as_sent payload workspace domain = record {
  workspace_id = workspace;
  domain = domain;
  email_enabled = payload.email_enabled;
  notify_phishing = payload.notify_phishing;
  notify_domain_shield = payload.notify_domain_shield;
  quiet_hours_enabled = payload.quiet_hours_enabled;
  quiet_hours_start = payload.quiet_hours_start;
  quiet_hours_end = payload.quiet_hours_end;
  timezone = or_else payload.timezone (codes "Europe/Paris");
}

module _ (payload : AlertPreference) (domain : Text) (user : AuthUser) where
  abbrev save : Reply Text → Inbox → Reply StatusResponse × Inbox
  save r w =
      proceed (r, w)
        (λ active v. (
          ok tt,
          set_preferences (upsert_preference (stored_preference payload user.workspace_id active))
              v,
        ))

  abbrev load : Reply Text → Inbox → Reply AlertPreference × Inbox
  load r w =
      proceed (r, w)
        (λ active v.
          preference_or_default user.workspace_id active
            (find (preference_of user.workspace_id active) v.db.preferences) v)

  saved_then_loaded :
      (w : Inbox) (r : Reply Text)
      → owned_domain w.db domain user ≡ r
      → All IsLowered w.db.preferences
      → (save r w).0 ≡ ok tt
      → (active : Text) × (r ≡ ok active)
        × (load (owned_domain (save r w).1.db domain user) (save r w).1 ≡ (
          ok (shown_preference active (stored_preference payload user.workspace_id active)),
          (save r w).1,
        ))
  unfolding preference_or_default
  saved_then_loaded w (raised n d) e hs h = absurd cc
  saved_then_loaded w (ok active) e hs h =
      let p = stored_preference payload user.workspace_id active in
      let w' = set_preferences (upsert_preference p) w in
      (
        active,
        refl,
        ap (λ (r : Reply Text). load r w')
              (owned_domain_keeps w (upsert_preference p) domain user ∙ e)
            ∙ ap
                (λ (o : Option AlertPreference).
                  preference_or_default user.workspace_id active o w')
                (find-upsert_preference user.workspace_id active
                  (owned_domain-lower w.db domain user active e) p w.db.preferences refl refl hs),
      )

  -- Where the domains of the table are in lower case, after an update of a domain's preferences that
  -- is accepted, reading them answers with the values that were sent, an empty time zone as
  -- Europe/Paris, and changes nothing.
  pub preferences_read_back :
      (w : Inbox)
      → All IsLowered w.db.preferences
      → (update_alert_preferences payload domain user w).0 ≡ ok tt
      → let w' = (update_alert_preferences payload domain user w).1 in
        (active : Text) × (owned_domain w.db domain user ≡ ok active)
        × (get_alert_preferences domain user w'
            ≡ (ok (as_sent payload user.workspace_id active), w'))
  unfolding update_alert_preferences get_alert_preferences shown_preference
  preferences_read_back w hs h = saved_then_loaded w (owned_domain w.db domain user) refl hs h
