-- ===== src/Alerts/Channels.antt =====
-- To whom harness/alerts.py sends an alert, channel by channel, and where it raises instead. The outcome of each
-- sending is an argument.
use testharness.Prelude.{
  String, ◌=s=◌, Bool, true, false, Option, none, some, List, [], ◌∷◌, ◌++◌, if◌then◌else◌,
}
use testharness.Db.{Db}
use testharness.Db.NotificationGroups.{resolve_emails_for_groups}
use testharness.Dispatch.Ingest.{AlertType, Alert}
use testharness.Config.{Value, Fields}
use testharness.Alerts.Payloads.{
  concat, Send, teams, slack, discord, email, Webhook, hook_url, format_alert_message, alert_data,
  send_custom_webhook,
}

-- The email section; `to` is a list, also where it is one text.
pub record Smtp : Type 0 where
  pub to : List String

-- A section that `dispatch_alerts` reads with `.get` and without a test: a key without a value, which is
-- None, or the `webhook_url`; the empty text is a section, or a URL, that is not there.
pub data Section : Type 0 where
  null_section : Section
  webhook_url : String → Section

-- The section `alerts`. For `teams` the empty text is a channel that is not configured, also one without a value.
pub record AlertsConfig : Type 0 where
  pub teams : String
  pub slack : Section
  pub discord : Section
  pub email : Option Smtp
  pub webhooks : List Webhook

pub record AppGroups : Type 0 where
  pub app : String
  pub notification_groups : List String

-- The groups of the first app with the name.
abbrev pub groups_of : String → List AppGroups → List String
groups_of app [] = []
groups_of app (a ∷ apps) =
    let rest = groups_of app apps in if a.app =s= app then a.notification_groups else rest

abbrev pub posted : (String → Send) → String → List Send
posted send url = if url =s= "" then [] else send url ∷ []

abbrev is_nil : List String → Bool
is_nil [] = true
is_nil (s ∷ ss) = false

abbrev pub recipients : List String → Smtp → List String
recipients resolved smtp = if is_nil resolved then smtp.to else resolved

abbrev is_fail_alert : AlertType → Bool
is_fail_alert AlertType.fail = true
is_fail_alert _ = false

unfoldable pub subject : Alert → String
subject a = concat (
    "[Harness] "
    ∷ a.app
    ∷ " — "
    ∷ a.test_name
    ∷ " "
    ∷ (if is_fail_alert a.alert_type then "FAILED" else "RESOLVED")
    ∷ [])

-- _send_email: nothing is sent to nobody.
abbrev pub emailed : List String → String → String → List Send
emailed [] title body = []
emailed (r ∷ rs) title body = email (r ∷ rs) title body ∷ []

-- Every sending stands in a try of its own; `works` tells which ones do not raise.
abbrev pub attempt : (Send → Bool) → List Send → List Send → List Send
attempt works [] delivered = delivered
attempt works (s ∷ sends) delivered =
    if works s then attempt works sends (delivered ++ s ∷ []) else attempt works sends delivered

module _ (str : Value → String) (render : String → Fields → Option String)
    (loads : String → Option Value) (dumps_indented : Fields → String)
    (dumps_sorted : Value → String) (lower : String → String) (hmac : String → String → String)
    (strip : String → String) (nocase : String → String → Bool) where
  abbrev pub emails : Option Smtp → Db → List AppGroups → Alert → List Send
  emails none db apps a = []
  emails (some smtp) db apps a =
      emailed
        (recipients (resolve_emails_for_groups strip lower nocase db (groups_of a.app apps)) smtp)
        (subject a) (format_alert_message a)

  abbrev pub hook_sends : Alert → List Webhook → List Send
  hook_sends a [] = []
  hook_sends a (wh ∷ whs) =
      (if hook_url wh =s= ""
        then []
        else send_custom_webhook str render loads dumps_indented dumps_sorted lower hmac
            (hook_url wh) (alert_data a) wh)
      ++ hook_sends a whs

  -- The sendings from the section `discord` on, and whether an exception leaves the loop there.
  abbrev pub from_discord : Section → AlertsConfig → Db → List AppGroups → Alert → List Send × Bool
  from_discord null_section cfg db apps a = ([], true)
  from_discord (webhook_url url) cfg db apps a = (
    posted (λ u. discord u (format_alert_message a)) url
        ++ (emails cfg.email db apps a ++ hook_sends a cfg.webhooks),
    false,
  )

  abbrev pub from_slack : Section → AlertsConfig → Db → List AppGroups → Alert → List Send × Bool
  from_slack null_section cfg db apps a = ([], true)
  from_slack (webhook_url url) cfg db apps a =
      let (later, raises) = from_discord cfg.discord cfg db apps a in
      (posted (λ u. slack u (format_alert_message a)) url ++ later, raises)

  -- What one alert is sent as, channel by channel, and whether an exception stops the loop over the alerts.
  unfoldable pub alert_steps : AlertsConfig → Db → List AppGroups → Alert → List Send × Bool
  unfolding resolve_emails_for_groups subject send_custom_webhook alert_data format_alert_message
  alert_steps cfg db apps a =
      let (later, raises) = from_slack cfg.slack cfg db apps a in
      (posted (λ u. teams u (format_alert_message a)) cfg.teams ++ later, raises)

  abbrev pub sends_of : AlertsConfig → Db → List AppGroups → Alert → List Send
  sends_of cfg db apps a = (alert_steps cfg db apps a).0

  abbrev pub each_alert :
      (Send → Bool) → AlertsConfig → Db → List AppGroups → List Alert → List Send → List Send × Bool
  each_alert works cfg db apps [] delivered = (delivered, false)
  each_alert works cfg db apps (a ∷ alerts) delivered =
      let (sends, raises) = alert_steps cfg db apps a in
      let sent = attempt works sends delivered in
      let later = each_alert works cfg db apps alerts sent in if raises then (sent, true) else later

  -- The sendings that reach their channel, and whether the call ends with an exception; `none` is a
  -- configuration without alerts.
  unfoldable pub dispatch_alerts :
      (Send → Bool) → List Alert → Option AlertsConfig → Db → List AppGroups → List Send × Bool
  unfolding alert_steps
  dispatch_alerts works alerts none db apps = ([], false)
  dispatch_alerts works alerts (some cfg) db apps = each_alert works cfg db apps alerts []
