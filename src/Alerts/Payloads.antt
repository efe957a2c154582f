-- ===== src/Alerts/Payloads.antt =====
-- What harness/alerts.py sends: the message of an alert, and the payload and headers of a webhook.
use testharness.Prelude.{
  String, ◌=s=◌, Bool, false, ◌||◌, Option, none, some, List, [], ◌∷◌, kept_or, if◌then◌else◌,
}
use testharness.Dispatch.Ingest.{AlertType, Alert}
use testharness.Config.{
  Value, null, text, items, mapping, Items, Fields, no_fields, field, get_field,
}
use testharness.Config.Refs.{append}

abbrev pub concat : List String → String
concat [] = ""
concat (s ∷ ss) = append s (concat ss)

-- if error_msg: msg += ...
abbrev with_error : String → Option String → String
with_error heading none = ""
with_error heading (some error_msg) =
    if error_msg =s= "" then "" else concat ("\n\n" ∷ heading ∷ error_msg ∷ [])

unfoldable pub format_alert_message : Alert → String
format_alert_message a = by a.alert_type
  where
    by : AlertType → String
    by AlertType.fail = concat (
        "[FAIL] "
        ∷ a.app
        ∷ " ("
        ∷ a.environment
        ∷ ") — "
        ∷ a.test_name
        ∷ " failed"
        ∷ with_error "Error: " a.error_msg
        ∷ [])
    by AlertType.stale = concat (
        "[STALE] "
        ∷ a.app
        ∷ " ("
        ∷ a.environment
        ∷ ") — "
        ∷ a.test_name
        ∷ with_error "Details: " a.error_msg
        ∷ [])
    by AlertType.resolve = concat (
        "[RESOLVED] "
        ∷ a.app
        ∷ " ("
        ∷ a.environment
        ∷ ") — "
        ∷ a.test_name
        ∷ " is now passing"
        ∷ with_error "Details: " a.error_msg
        ∷ [])

abbrev alert_value : AlertType → String
alert_value AlertType.fail = "fail"
alert_value AlertType.resolve = "resolve"
alert_value AlertType.stale = "stale"

-- data.get(key) in the text of an f-string
module _ (str : Value → String) where
  abbrev shown_or : String → Option Value → String
  shown_or default none = default
  shown_or default (some v) = str v

  abbrev shown : String → Fields → String
  shown key info = shown_or "None" (get_field key info)

abbrev text_is : List String → Option Value → Bool
text_is [] v = false
text_is (s ∷ ss) (some (text t)) = t =s= s || text_is ss (some (text t))
text_is (s ∷ ss) _ = false

-- An incident is opened for a run that failed or a FAIL alert.
unfoldable pub is_incident : Fields → Bool
is_incident info =
    text_is ("fail" ∷ "error" ∷ []) (get_field "status" info)
    || text_is ("fail" ∷ "fail_alert" ∷ []) (get_field "alert_type" info)

pub record Webhook : Type 0 where
  pub url : String
  pub webhook_url : String
  pub format : String
  pub template : Option String
  pub routing_key : String
  pub integration_key : String
  pub headers : List (String × String)
  pub secret : String

abbrev or_else : String → String → String
or_else s t = if s =s= "" then t else s

abbrev pub hook_url : Webhook → String
hook_url wh = or_else wh.url wh.webhook_url

abbrev fields_of : List (String × Value) → Fields
fields_of [] = no_fields
fields_of ((k, v) ∷ rest) = field k v (fields_of rest)

abbrev text_or : String → Option Value → String
text_or default (some (text s)) = or_else s default
text_or default _ = default

-- setdefault of a header
abbrev has_header : String → List (String × String) → Bool
has_header name [] = false
has_header name ((k, v) ∷ rest) = k =s= name || has_header name rest

abbrev set_header : String → String → List (String × String) → List (String × String)
set_header name value [] = (name, value) ∷ []
set_header name value ((k, v) ∷ rest) =
    let others = set_header name value rest in
    if k =s= name then (k, value) ∷ rest else (k, v) ∷ others

-- What is handed to a channel.
pub data Send : Type 0 where
  teams : String → String → Send
  slack : String → String → Send
  discord : String → String → Send
  email : List String → String → String → Send
  webhook : String → Value → List (String × String) → Send

abbrev pub optional_text : Option String → Value
optional_text none = null
optional_text (some s) = text s

unfoldable pub alert_data : Alert → Fields
unfolding format_alert_message
alert_data a = fields_of (
    ("event", text "alert")
    ∷ ("alert_type", text (alert_value a.alert_type))
    ∷ ("app", text a.app)
    ∷ ("environment", text a.environment)
    ∷ ("test_name", text a.test_name)
    ∷ ("error_msg", optional_text a.error_msg)
    ∷ ("text", text (format_alert_message a))
    ∷ [])

-- `tests` are the entries made of the results.
pub record RunDone : Type 0 where
  pub run_id : String
  pub app : String
  pub environment : String
  pub status : String
  pub triggered_by : String
  pub finished_at : String
  pub tests : Items

unfoldable pub run_data : RunDone → Fields
run_data r = fields_of (
    ("event", text "run_complete")
    ∷ ("run_id", text r.run_id)
    ∷ ("app", text r.app)
    ∷ ("environment", text r.environment)
    ∷ ("status", text r.status)
    ∷ ("triggered_by", text r.triggered_by)
    ∷ ("finished_at", text r.finished_at)
    ∷ ("tests", items r.tests)
    ∷ [])

module _ (str : Value → String) (render : String → Fields → Option String)
    (loads : String → Option Value) (dumps_indented : Fields → String)
    (dumps_sorted : Value → String) (lower : String → String)
    (hmac : String → String → String) where
  abbrev pagerduty : Fields → Webhook → Value
  pagerduty info wh = mapping (
      fields_of (
        ("routing_key", text (or_else wh.routing_key wh.integration_key))
        ∷ ("event_action", text (if is_incident info then "trigger" else "resolve"))
        ∷ ("dedup_key", text (dedup info))
        ∷ (
          "payload",
          mapping (
              fields_of (
                ("summary", text (text_or (summary info) (get_field "text" info)))
                ∷ ("source", text "testharness")
                ∷ ("severity", text (if is_incident info then "critical" else "info"))
                ∷ ("custom_details", mapping info)
                ∷ [])),
        )
        ∷ []))
    where
      dedup : Fields → String
      dedup d = concat (
          shown str "app" d
          ∷ "-"
          ∷ shown str "environment" d
          ∷ "-"
          ∷ shown_or str "run" (get_field "test_name" d)
          ∷ [])

      summary : Fields → String
      summary d = concat (
          "["
          ∷ shown_or str "ALERT" (get_field "status" d)
          ∷ "] "
          ∷ shown str "app" d
          ∷ " ("
          ∷ shown str "environment" d
          ∷ ")"
          ∷ [])

  abbrev opsgenie : Fields → Value
  opsgenie info = mapping (
      fields_of (
        ("message", text (text_or (message info) (get_field "text" info)))
        ∷ (
          "alias",
          text (
              concat (
                shown str "app" info
                ∷ "-"
                ∷ shown str "environment" info
                ∷ "-"
                ∷ shown_or str "run" (get_field "test_name" info)
                ∷ [])),
        )
        ∷ ("description", text (dumps_indented info))
        ∷ ("priority", text (if is_incident info then "P2" else "P4"))
        ∷ (
          "details",
          mapping (
              fields_of (
                ("app", text (shown str "app" info))
                ∷ ("environment", text (shown str "environment" info))
                ∷ ("event", text (shown str "event" info))
                ∷ [])),
        )
        ∷ []))
    where
      message : Fields → String
      message d = concat (
          shown str "app" d ∷ " (" ∷ shown str "environment" d ∷ ") - " ∷ shown str "status" d ∷ [])

  -- json.loads(rendered), or the text where it is no JSON
  abbrev rendered : Option String → Option Value
  rendered none = none
  rendered (some shown_text) = some (kept_or (loads shown_text) (text shown_text))

  abbrev preset : Fields → Webhook → Value
  preset info wh =
      if lower wh.format =s= "pagerduty"
      then pagerduty info wh
      else if lower wh.format =s= "opsgenie"
      then opsgenie info
      else mapping info

  abbrev by_template : Option String → Fields → Webhook → Option Value
  by_template none info wh = some (preset info wh)
  by_template (some custom) info wh =
      if custom =s= "" then some (preset info wh) else rendered (render custom info)

  unfoldable pub render_webhook_payload : Fields → Webhook → Option Value
  unfolding is_incident
  render_webhook_payload info wh = by_template wh.template info wh

  abbrev body_of : Value → String
  body_of (mapping fs) = dumps_sorted (mapping fs)
  body_of (items vs) = dumps_sorted (items vs)
  body_of v = str v

  abbrev signed : Webhook → Value → List (String × String)
  signed wh payload =
      if wh.secret =s= ""
      then wh.headers
      else set_header "X-Harness-Signature" (append "sha256=" (hmac wh.secret (body_of payload)))
          wh.headers

  abbrev typed : Value → List (String × String) → List (String × String)
  typed (mapping fs) headers = headers
  typed (items vs) headers = headers
  typed v headers =
      if has_header "Content-Type" headers
      then headers
      else set_header "Content-Type" "application/json" headers

  abbrev pub sent : String → Webhook → Option Value → List Send
  sent url wh none = []
  sent url wh (some payload) = webhook url payload (typed payload (signed wh payload)) ∷ []

  -- A payload that cannot be rendered is not sent.
  unfoldable pub send_custom_webhook : String → Fields → Webhook → List Send
  unfolding render_webhook_payload
  send_custom_webhook url info wh = sent url wh (render_webhook_payload info wh)

  unfoldable pub dispatch_run_webhook : RunDone → Webhook → List Send
  unfolding run_data send_custom_webhook
  dispatch_run_webhook r wh =
      if hook_url wh =s= "" then [] else send_custom_webhook (hook_url wh) (run_data r) wh
