-- ===== src/Alerts/Dispatched.antt =====
-- What `dispatch_alerts` of harness/alerts.py delivers, and when it raises.
use mathlib.Core.List.{append-nil, append_assoc}
use testharness.Prelude.{
  String, true, false, ◌≡◌, ◌⊎◌, refl, sym, ap, ◌∙◌, inl, inr, Bool, Option, some, List, [], ◌∷◌,
  ◌++◌, Bool-cases, select_where, select_where-append,
}
use testharness.Db.{Db}
use testharness.Dispatch.Ingest.{Alert}
use testharness.Config.{Value, Fields}
use testharness.Alerts.Payloads.{Send, teams, slack, discord, format_alert_message}
use testharness.Alerts.Channels.{
  Section, null_section, webhook_url, AlertsConfig, AppGroups, posted, emails, hook_sends,
  alert_steps, attempt, each_alert, dispatch_alerts,
}

module _ (str : Value → String) (render : String → Fields → Option String)
    (loads : String → Option Value) (dumps_indented : Fields → String)
    (dumps_sorted : Value → String) (lower : String → String) (hmac : String → String → String)
    (strip : String → String) (nocase : String → String → Bool) where
  attempt-select :
      (works : Send → Bool) (ss delivered : List Send)
      → attempt works ss delivered ≡ delivered ++ select_where works ss
  unfolding select_where
  attempt-select works [] delivered = sym (append-nil delivered)
  attempt-select works (s ∷ ss) delivered = elim (Bool-cases (works s)) [
    | inl e ↦ rw e (
        attempt-select works ss (delivered ++ s ∷ [])
        ∙ append_assoc delivered (s ∷ []) (select_where works ss))
    | inr e ↦ rw e (attempt-select works ss delivered)
  ]

  abbrev channel : (String → Send) → Section → List Send
  channel send null_section = []
  channel send (webhook_url url) = posted send url

  -- An alert on the channels before the email.
  abbrev pub to_teams_and_slack : AlertsConfig → Alert → List Send
  to_teams_and_slack cfg a =
      posted (λ u. teams u (format_alert_message a)) cfg.teams
      ++ channel (λ u. slack u (format_alert_message a)) cfg.slack

  -- An alert on every channel that is configured.
  abbrev pub to_all : AlertsConfig → Db → List AppGroups → Alert → List Send
  to_all cfg db apps a =
      to_teams_and_slack cfg a
      ++ (channel (λ u. discord u (format_alert_message a)) cfg.discord
          ++ (emails str render loads dumps_indented dumps_sorted lower hmac strip nocase cfg.email
                db apps a
              ++ hook_sends str render loads dumps_indented dumps_sorted lower hmac strip nocase a
                  cfg.webhooks))

  abbrev pub all_to_all : AlertsConfig → Db → List AppGroups → List Alert → List Send
  all_to_all cfg db apps [] = []
  all_to_all cfg db apps (a ∷ alerts) = to_all cfg db apps a ++ all_to_all cfg db apps alerts

  module _ (cfg : AlertsConfig) (db : Db) (apps : List AppGroups) where
    steps_whole :
        (u v : String) (a : Alert)
        → cfg.slack ≡ webhook_url u
        → cfg.discord ≡ webhook_url v
        → alert_steps str render loads dumps_indented dumps_sorted lower hmac strip nocase cfg db
            apps a
          ≡ (to_all cfg db apps a, false)
    unfolding alert_steps
    steps_whole u v a e f =
        simp (e, f)
          (ap (λ (l : List Send). (l, false))
            (sym (
              append_assoc (posted (λ w. teams w (format_alert_message a)) cfg.teams)
                (posted (λ w. slack w (format_alert_message a)) u)
                (posted (λ w. discord w (format_alert_message a)) v
                  ++ (emails str render loads dumps_indented dumps_sorted lower hmac strip nocase
                        cfg.email db apps a
                      ++ hook_sends str render loads dumps_indented dumps_sorted lower hmac strip
                          nocase a cfg.webhooks)))))

    steps_cut :
        (a : Alert)
        → (cfg.slack ≡ null_section) ⊎ (cfg.discord ≡ null_section)
        → alert_steps str render loads dumps_indented dumps_sorted lower hmac strip nocase cfg db
            apps a
          ≡ (to_teams_and_slack cfg a, true)
    unfolding alert_steps
    steps_cut a (inl e) = simp e
    steps_cut a (inr f) = by cfg.slack refl
      where
        by :
            (s : Section)
            → cfg.slack ≡ s
            → alert_steps str render loads dumps_indented dumps_sorted lower hmac strip nocase cfg
                db apps a
              ≡ (to_teams_and_slack cfg a, true)
        by null_section e = simp e
        by (webhook_url u) e = simp (e, f, append-nil)

    each_alert-whole :
        (works : Send → Bool) (u v : String) (alerts : List Alert) (delivered : List Send)
        → cfg.slack ≡ webhook_url u
        → cfg.discord ≡ webhook_url v
        → each_alert str render loads dumps_indented dumps_sorted lower hmac strip nocase works cfg
            db apps alerts delivered
          ≡ (delivered ++ select_where works (all_to_all cfg db apps alerts), false)
    unfolding select_where
    each_alert-whole works u v [] delivered e f =
        ap (λ (l : List Send). (l, false)) (sym (append-nil delivered))
    each_alert-whole works u v (a ∷ alerts) delivered e f =
        let mine = to_all cfg db apps a in
        let rest = all_to_all cfg db apps alerts in
        rw (steps_whole u v a e f) (
          each_alert-whole works u v alerts (attempt works mine delivered) e f
          ∙ ap (λ (l : List Send). (l, false))
              (ap (λ l. l ++ select_where works rest) (attempt-select works mine delivered)
                ∙ append_assoc delivered (select_where works mine) (select_where works rest)
                ∙ ap (λ l. delivered ++ l) (sym (select_where-append works mine rest))))

    each_alert-cut :
        (works : Send → Bool) (a : Alert) (alerts : List Alert)
        → (cfg.slack ≡ null_section) ⊎ (cfg.discord ≡ null_section)
        → each_alert str render loads dumps_indented dumps_sorted lower hmac strip nocase works cfg
            db apps
            (a ∷ alerts)
            []
          ≡ (select_where works (to_teams_and_slack cfg a), true)
    each_alert-cut works a alerts e =
        rw (steps_cut a e)
          (ap (λ (l : List Send). (l, true)) (attempt-select works (to_teams_and_slack cfg a) []))

    -- Either the sections `slack` and `discord` both have values: then the call raises nothing and delivers
    -- every sending of every alert, in order, but those that fail. Or one of them is null: then it raises at the
    -- first alert, of which it has delivered nothing but what Teams and, if its section is not null, Slack take.
    pub dispatch_alerts_lem :
        (works : Send → Bool) (a : Alert) (alerts : List Alert)
        → ((u : String) × (v : String) × (cfg.slack ≡ webhook_url u)
            × (cfg.discord ≡ webhook_url v)
            × (dispatch_alerts str render loads dumps_indented dumps_sorted lower hmac strip nocase
                  works
                  (a ∷ alerts)
                  (some cfg)
                  db
                  apps
                ≡ (select_where works (all_to_all cfg db apps (a ∷ alerts)), false)))
          ⊎ (((cfg.slack ≡ null_section) ⊎ (cfg.discord ≡ null_section))
              × (dispatch_alerts str render loads dumps_indented dumps_sorted lower hmac strip
                    nocase works
                    (a ∷ alerts)
                    (some cfg)
                    db
                    apps
                  ≡ (select_where works (to_teams_and_slack cfg a), true)))
    unfolding dispatch_alerts
    dispatch_alerts_lem works a alerts = by cfg.slack cfg.discord refl refl
      where
        by :
            (s d : Section)
            → cfg.slack ≡ s
            → cfg.discord ≡ d
            → ((u : String) × (v : String) × (cfg.slack ≡ webhook_url u)
                × (cfg.discord ≡ webhook_url v)
                × (each_alert str render loads dumps_indented dumps_sorted lower hmac strip nocase
                      works cfg db apps
                      (a ∷ alerts)
                      []
                    ≡ (select_where works (all_to_all cfg db apps (a ∷ alerts)), false)))
              ⊎ (((cfg.slack ≡ null_section) ⊎ (cfg.discord ≡ null_section))
                  × (each_alert str render loads dumps_indented dumps_sorted lower hmac strip nocase
                        works cfg db apps
                        (a ∷ alerts)
                        []
                      ≡ (select_where works (to_teams_and_slack cfg a), true)))
        by null_section d e f = inr (inl e, each_alert-cut works a alerts (inl e))
        by (webhook_url u) null_section e f = inr (inr f, each_alert-cut works a alerts (inr f))
        by (webhook_url u) (webhook_url v) e f =
            inl (u, v, e, f, each_alert-whole works u v (a ∷ alerts) [] e f)
