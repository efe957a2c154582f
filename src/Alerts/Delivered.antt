-- ===== src/Alerts/Delivered.antt =====
-- To whom `dispatch_alerts` of harness/alerts.py sends emails.
use testharness.Prelude.{
  String, ◌=s=◌, ◌≡◌, ◌⊎◌, refl, sym, subst, inl, inr, Bool, Option, none, some, List, [], ◌∷◌,
  ◌++◌, if◌then◌else◌, Bool-cases, In, In-append,
}
use testharness.Db.{Db}
use testharness.Db.NotificationGroups.{resolve_emails_for_groups}
use testharness.Db.NotificationGroups.Resolved.{IsListed, resolve_emails-IsListed}
use testharness.Dispatch.Ingest.{Alert}
use testharness.Config.{Value, Fields}
use testharness.Alerts.Payloads.{
  Webhook, hook_url, Send, teams, slack, discord, email, sent, render_webhook_payload,
  send_custom_webhook, alert_data, format_alert_message,
}
use testharness.Alerts.Channels.{
  Section, null_section, webhook_url, Smtp, AlertsConfig, AppGroups, groups_of, posted, recipients,
  emailed, emails, hook_sends, from_discord, from_slack, alert_steps, sends_of,
}

-- An email, with its recipients.
abbrev IsEmail : Send → Type 0
IsEmail (email to title body) = Unit
IsEmail _ = ⊥

module _ (str : Value → String) (render : String → Fields → Option String)
    (loads : String → Option Value) (dumps_indented : Fields → String)
    (dumps_sorted : Value → String) (lower : String → String) (hmac : String → String → String)
    (strip : String → String) (nocase : String → String → Bool) where
  no_email_posted :
      (f : String → Send) (url : String) (s : Send)
      → ((u : String) → IsEmail (f u) → ⊥)
      → IsEmail s
      → In s (posted f url)
      → ⊥
  no_email_posted f url s other is m = elim (Bool-cases (url =s= "")) [
    | inl e ↦ let bad : In s [] = rw e at m in bad
    | inr e ↦
        let one : In s (f url ∷ []) = rw e at m in
        elim one [ inl same ↦ other url (subst IsEmail same is) | inr bad ↦ bad ]
  ]

  no_email_sent :
      (url : String) (wh : Webhook) (payload : Option Value) (s : Send)
      → IsEmail s
      → In s (sent str render loads dumps_indented dumps_sorted lower hmac url wh payload)
      → ⊥
  no_email_sent url wh none s is m = m
  no_email_sent url wh (some v) s is (inl same) = subst IsEmail same is
  no_email_sent url wh (some v) s is (inr bad) = bad

  no_email_hooks :
      (a : Alert) (whs : List Webhook) (s : Send)
      → IsEmail s
      → In s (hook_sends str render loads dumps_indented dumps_sorted lower hmac strip nocase a whs)
      → ⊥
  no_email_hooks a [] s is m = m
  no_email_hooks a (wh ∷ whs) s is m =
      let info = alert_data a in
      let later =
        hook_sends str render loads dumps_indented dumps_sorted lower hmac strip nocase a whs in
      let mine =
        if hook_url wh =s= ""
        then []
        else send_custom_webhook str render loads dumps_indented dumps_sorted lower hmac
            (hook_url wh) info wh in
      elim (In-append s mine later m) [
        | inr n ↦ no_email_hooks a whs s is n
        | inl n ↦ elim (Bool-cases (hook_url wh =s= "")) [
          | inl e ↦ let bad : In s [] = rw e at n in bad
          | inr e ↦
              no_email_sent (hook_url wh) wh
                (render_webhook_payload str render loads dumps_indented dumps_sorted lower hmac info
                  wh)
                s is (unfold send_custom_webhook in rw e at n)
        ]
      ]

  emailed_to :
      (to rs : List String) (title body title' body' : String)
      → In (email to title body) (emailed rs title' body')
      → to ≡ rs
  emailed_to to [] title body title' body' m = absurd m
  emailed_to to (x ∷ xs) title body title' body' (inl same) = cc same
  emailed_to to (x ∷ xs) title body title' body' (inr bad) = absurd bad

  -- An email about an alert goes only to addresses of the groups that the app names, or, if these resolve
  -- to no address, to those of the configuration.
  pub email_recipients :
      (cfg : AlertsConfig) (db : Db) (apps : List AppGroups) (a : Alert) (to : List String)
      (title body r : String)
      → In (email to title body) (
          sends_of str render loads dumps_indented dumps_sorted lower hmac strip nocase cfg db apps
            a)
      → In r to
      → ((smtp : Smtp) × (cfg.email ≡ some smtp)
          × In r smtp.to
          × (resolve_emails_for_groups strip lower nocase db (groups_of a.app apps) ≡ []))
        ⊎ ((ident : String) × In ident (groups_of a.app apps)
            × IsListed strip lower nocase db ident r)
  unfolding alert_steps
  email_recipients cfg db apps a to title body r m n = elim (In-append mail _ _ m) [
    | inl c ↦ absurd (no_email_posted (λ url. teams url shown) cfg.teams mail (λ u is. is) tt c)
    | inr later ↦ from_slack_on cfg.slack later
  ]
    where
      mail : Send
      mail = email to title body

      shown : String
      shown = format_alert_message a

      resolved : List String
      resolved = resolve_emails_for_groups strip lower nocase db (groups_of a.app apps)

      chosen :
          (smtp : Smtp) (rs : List String)
          → cfg.email ≡ some smtp
          → resolved ≡ rs
          → In r (recipients rs smtp)
          → ((smtp : Smtp) × (cfg.email ≡ some smtp) × In r smtp.to × (resolved ≡ []))
            ⊎ ((ident : String) × In ident (groups_of a.app apps)
                × IsListed strip lower nocase db ident r)
      chosen smtp [] e q k = inl (smtp, e, k, q)
      chosen smtp (x ∷ xs) e q k = inr (
          (resolve_emails-IsListed strip lower nocase db (groups_of a.app apps) r).0
            (subst (In r) (sym q) k))

      by :
          (o : Option Smtp)
          → cfg.email ≡ o
          → In mail (
              emails str render loads dumps_indented dumps_sorted lower hmac strip nocase o db apps
                a)
          → ((smtp : Smtp) × (cfg.email ≡ some smtp) × In r smtp.to × (resolved ≡ []))
            ⊎ ((ident : String) × In ident (groups_of a.app apps)
                × IsListed strip lower nocase db ident r)
      by none e k = absurd k
      by (some smtp) e k =
          chosen smtp resolved e refl (subst (In r) (emailed_to to _ title body _ _ k) n)

      from_email_on :
          In mail (
            emails str render loads dumps_indented dumps_sorted lower hmac strip nocase cfg.email db
              apps a
            ++ hook_sends str render loads dumps_indented dumps_sorted lower hmac strip nocase a
                cfg.webhooks)
          → ((smtp : Smtp) × (cfg.email ≡ some smtp) × In r smtp.to × (resolved ≡ []))
            ⊎ ((ident : String) × In ident (groups_of a.app apps)
                × IsListed strip lower nocase db ident r)
      from_email_on k = elim (In-append mail _ _ k) [
        | inl mine ↦ by cfg.email refl mine
        | inr hooks ↦ absurd (no_email_hooks a cfg.webhooks mail tt hooks)
      ]

      from_discord_on :
          (s : Section)
          → In mail
              (from_discord str render loads dumps_indented dumps_sorted lower hmac strip nocase s
                cfg db apps a).0
          → ((smtp : Smtp) × (cfg.email ≡ some smtp) × In r smtp.to × (resolved ≡ []))
            ⊎ ((ident : String) × In ident (groups_of a.app apps)
                × IsListed strip lower nocase db ident r)
      from_discord_on null_section k = absurd k
      from_discord_on (webhook_url u) k = elim (In-append mail _ _ k) [
        | inl c ↦ absurd (no_email_posted (λ url. discord url shown) u mail (λ v is. is) tt c)
        | inr later ↦ from_email_on later
      ]

      from_slack_on :
          (s : Section)
          → In mail
              (from_slack str render loads dumps_indented dumps_sorted lower hmac strip nocase s cfg
                db apps a).0
          → ((smtp : Smtp) × (cfg.email ≡ some smtp) × In r smtp.to × (resolved ≡ []))
            ⊎ ((ident : String) × In ident (groups_of a.app apps)
                × IsListed strip lower nocase db ident r)
      from_slack_on null_section k = absurd k
      from_slack_on (webhook_url u) k = elim (In-append mail _ _ k) [
        | inl c ↦ absurd (no_email_posted (λ url. slack url shown) u mail (λ v is. is) tt c)
        | inr later ↦ from_discord_on cfg.discord later
      ]
