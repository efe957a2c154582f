-- ===== src/Tests/Groups.antt =====
-- Runs of the notification groups and of the alerts.
use testharness.Prelude.{
  String, ◌=s=◌, ◌≡◌, ◌⊎◌, refl, false, true, Bool, Option, none, some, List, [], ◌∷◌, In, inl, inr,
  select_one, select_where, sorted_set, text_set, order_by_name, insert_named, text_le,
}
use testharness.Db.{Db, empty, NotificationGroup}
use testharness.Db.NotificationGroups.{resolve_emails_for_groups, all_addresses}
use testharness.Db.NotificationGroups.Resolved.{IsListed}
use testharness.Dispatch.Ingest.{Alert, AlertType}
use testharness.Config.{Value, Fields}
use testharness.Alerts.Payloads.{Send, slack, format_alert_message}
use testharness.Alerts.Channels.{
  alert_steps, webhook_url, null_section, Smtp, AlertsConfig, AppGroups, subject, dispatch_alerts,
}
use testharness.Alerts.Delivered.{email_recipients}
use testharness.Alerts.Dispatched.{all_to_all, to_teams_and_slack, dispatch_alerts_lem}

abbrev same : String → String
same s = s

abbrev ops : NotificationGroup
ops = record {
  id = "g1";
  name = "ops";
  description = "";
  emails = some ("b@x" ∷ "a@x" ∷ "nobody" ∷ []);
  created_at = 0;
  updated_at = 0;
}

abbrev grouped : Db
grouped = record empty { notification_groups = ops ∷ [] }

abbrev plain : Value → String
plain v = ""

abbrev no_render : String → Fields → Option String
no_render template info = none

abbrev no_json : String → Option Value
no_json s = none

abbrev printed : Fields → String
printed fs = "{}"

abbrev mac : String → String → String
mac key body = "0"

abbrev channels : AlertsConfig
channels = record {
  teams = "";
  slack = webhook_url "https://slack";
  discord = webhook_url "";
  email = some (record { to = "root@x" ∷ [] });
  webhooks = [];
}

abbrev shops : List AppGroups
shops = record { app = "shop"; notification_groups = "ops" ∷ [] } ∷ []

abbrev failed : Alert
failed = record {
  alert_type = AlertType.fail;
  app = "shop";
  environment = "production";
  test_name = "login";
  error_msg = none;
}

-- Slack does not answer.
abbrev works : Send → Bool
works (slack url body) = false
works _ = true

-- The same with a section `discord` that has no value.
abbrev half : AlertsConfig
half = record channels { discord = null_section }

dispatch_alerts_example :
    ((u : String) × (v : String) × (half.slack ≡ webhook_url u)
      × (half.discord ≡ webhook_url v)
      × (dispatch_alerts plain no_render no_json printed plain same mac same ◌=s=◌ works
            (failed ∷ [])
            (some half)
            grouped
            shops
          ≡ (
            select_where works (
                all_to_all plain no_render no_json printed plain same mac same ◌=s=◌ half grouped
                  shops
                  (failed ∷ [])),
            false,
          )))
    ⊎ (((half.slack ≡ null_section) ⊎ (half.discord ≡ null_section))
        × (dispatch_alerts plain no_render no_json printed plain same mac same ◌=s=◌ works
              (failed ∷ [])
              (some half)
              grouped
              shops
            ≡ (
              select_where works (
                  to_teams_and_slack plain no_render no_json printed plain same mac same ◌=s=◌ half
                    failed),
              true,
            )))
dispatch_alerts_example =
    dispatch_alerts_lem plain no_render no_json printed plain same mac same ◌=s=◌ half grouped shops
      works failed []

email_recipients_example :
    ((smtp : Smtp) × (channels.email ≡ some smtp)
      × In "a@x" smtp.to
      × (resolve_emails_for_groups same same ◌=s=◌ grouped ("ops" ∷ []) ≡ []))
    ⊎ ((ident : String) × In ident ("ops" ∷ []) × IsListed same same ◌=s=◌ grouped ident "a@x")
email_recipients_example =
    email_recipients plain no_render no_json printed plain same mac same ◌=s=◌ channels grouped
      shops failed ("a@x" ∷ "b@x" ∷ []) "[Harness] shop — login FAILED"
      "[FAIL] shop (production) — login failed" "a@x"
      (unfold alert_steps subject format_alert_message resolve_emails_for_groups all_addresses
          sorted_set text_set order_by_name insert_named text_le select_one select_where in
        inr (inl refl))
      (inl refl)
