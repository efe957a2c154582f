-- ===== src/Schedule/Jobs.antt =====
-- Which jobs `build_scheduler` of harness/auto_scheduler.py adds.
use testharness.Prelude.{
  String, ◌=s=◌, eq_iff, ◌≡◌, ◌⊎◌, refl, sym, ap, subst, ◌∙◌, inl, inr, true, false, Option, some,
  List, [], ◌∷◌, Bool-cases, Option-cases, In,
}
use testharness.VersionSkew.{ℤ}
use testharness.Schedule.{
  AppSchedule, EnvSchedule, Job, run, defines, resolve_cron, job_id, cron_trigger, add_job,
  schedule_app, schedule_apps, schedule_envs, build_scheduler,
}

module _ {Trigger : Type 0} (strip : String → String) (split : String → List String)
    (int : String → Option ℤ) (str : ℤ → String) (from_crontab : String → Option Trigger) where
  -- The app defines the environment and has a schedule there that gives the trigger.
  abbrev pub IsReady : EnvSchedule → AppSchedule → Trigger → Type 0
  IsReady env app_def t =
      (defines app_def env.name ≡ true)
      × ((resolve_cron app_def env =s= "") ≡ false)
      × (cron_trigger strip split int str from_crontab (resolve_cron app_def env) ≡ some t)

  abbrev pub HasId : String → List (Job Trigger) → Type 0
  HasId k jobs = (j : Job Trigger) × In j jobs × (j.id ≡ k)

  abbrev pub the_job : EnvSchedule → AppSchedule → Trigger → Job Trigger
  the_job env app_def t = record {
    id = job_id app_def env;
    trigger = t;
    call = run app_def env.name;
  }

  abbrev adding : Job Trigger → List (Job Trigger) → List (Job Trigger)
  adding = add_job strip split int str from_crontab

  In-add_job :
      (j job : Job Trigger) (jobs : List (Job Trigger))
      → In j (adding job jobs)
      → (j ≡ job) ⊎ In j jobs
  In-add_job j job [] (inl e) = inl e
  In-add_job j job [] (inr bad) = absurd bad
  In-add_job j job (x ∷ jobs) m = elim (Bool-cases (x.id =s= job.id)) [
    | inl e ↦
        let n : In j (job ∷ jobs) = rw e at m in elim n [ inl h ↦ inl h | inr h ↦ inr (inr h) ]
    | inr e ↦
        let n : In j (x ∷ adding job jobs) = rw e at m in
        elim n [
          | inl h ↦ inr (inl h)
          | inr h ↦ elim (In-add_job j job jobs h) [ inl k ↦ inl k | inr k ↦ inr (inr k) ]
        ]
  ]

  add_job_self : (job : Job Trigger) (jobs : List (Job Trigger)) → In job (adding job jobs)
  add_job_self job [] = inl refl
  add_job_self job (x ∷ jobs) = elim (Bool-cases (x.id =s= job.id)) [
    | inl e ↦ rw e (inl refl)
    | inr e ↦ rw e (inr (add_job_self job jobs))
  ]

  add_job-HasId :
      (k : String) (job : Job Trigger) (jobs : List (Job Trigger))
      → HasId k jobs
      → HasId k (adding job jobs)
  add_job-HasId k job [] (j, m, same) = absurd m
  add_job-HasId k job (x ∷ jobs) (j, m, same) = elim (Bool-cases (x.id =s= job.id)) [
    | inl e ↦ elim m [
      | inl h ↦ rw e (
        job,
        inl refl,
        sym ((eq_iff x.id job.id).0 e) ∙ ap (λ (y : Job Trigger). y.id) (sym h) ∙ same,
      )
      | inr h ↦ rw e (j, inr h, same)
    ]
    | inr e ↦ elim m [
      | inl h ↦ rw e (j, inl h, same)
      | inr h ↦ let (i, n, s) = add_job-HasId k job jobs (j, h, same) in rw e (i, inr n, s)
    ]
  ]

  -- The three ways of one app: it is passed over, its schedule is invalid, or it gets its job.
  schedule_app-cases :
      (env : EnvSchedule) (app_def : AppSchedule) (jobs : List (Job Trigger))
      → (schedule_app strip split int str from_crontab env app_def jobs ≡ jobs)
        ⊎ ((t : Trigger) × IsReady env app_def t
            × (schedule_app strip split int str from_crontab env app_def jobs
                ≡ adding (the_job env app_def t) jobs))
  unfolding schedule_app
  schedule_app-cases env app_def jobs = elim (Bool-cases (defines app_def env.name)) [
    | inr d ↦ inl (rw d refl)
    | inl d ↦ elim (Bool-cases (resolve_cron app_def env =s= "")) [
      | inl c ↦ inl (rw (d, c) refl)
      | inr c ↦
          elim (Option-cases
            (cron_trigger strip split int str from_crontab (resolve_cron app_def env))) [
              | inl f ↦ inl (rw (d, c, f) refl)
              | inr (t, f) ↦ inr (t, (d, c, f), rw (d, c, f) refl)
            ]
    ]
  ]

  schedule_app-ready :
      (env : EnvSchedule) (app_def : AppSchedule) (t : Trigger) (jobs : List (Job Trigger))
      → IsReady env app_def t
      → HasId (job_id app_def env) (schedule_app strip split int str from_crontab env app_def jobs)
  unfolding schedule_app
  schedule_app-ready env app_def t jobs (d, c, f) =
      rw (d, c, f) (the_job env app_def t, add_job_self (the_job env app_def t) jobs, refl)

  schedule_app-HasId :
      (k : String) (env : EnvSchedule) (app_def : AppSchedule) (jobs : List (Job Trigger))
      → HasId k jobs
      → HasId k (schedule_app strip split int str from_crontab env app_def jobs)
  schedule_app-HasId k env app_def jobs h = elim (schedule_app-cases env app_def jobs) [
    | inl e ↦ subst (HasId k) (sym e) h
    | inr (t, _, e) ↦ subst (HasId k) (sym e) (add_job-HasId k (the_job env app_def t) jobs h)
  ]

  In-schedule_apps :
      (j : Job Trigger) (env : EnvSchedule) (apps : List AppSchedule) (jobs : List (Job Trigger))
      → In j (schedule_apps strip split int str from_crontab env apps jobs)
      → In j jobs
        ⊎ ((app_def : AppSchedule) × In app_def apps
            × ((t : Trigger) × IsReady env app_def t × (j ≡ the_job env app_def t)))
  In-schedule_apps j env [] jobs m = inl m
  In-schedule_apps j env (a ∷ apps) jobs m = elim (In-schedule_apps j env apps _ m) [
    | inr (b, n, s) ↦ inr (b, inr n, s)
    | inl n ↦ elim (schedule_app-cases env a jobs) [
      | inl e ↦ inl (subst (In j) e n)
      | inr (t, r, e) ↦ elim (In-add_job j (the_job env a t) jobs (subst (In j) e n)) [
        | inl same ↦ inr (a, inl refl, (t, r, same))
        | inr old ↦ inl old
      ]
    ]
  ]

  schedule_apps-HasId :
      (k : String) (env : EnvSchedule) (apps : List AppSchedule) (jobs : List (Job Trigger))
      → HasId k jobs
      → HasId k (schedule_apps strip split int str from_crontab env apps jobs)
  schedule_apps-HasId k env [] jobs h = h
  schedule_apps-HasId k env (a ∷ apps) jobs h =
      schedule_apps-HasId k env apps _ (schedule_app-HasId k env a jobs h)

  schedule_apps-ready :
      (env : EnvSchedule) (app_def : AppSchedule) (t : Trigger) (apps : List AppSchedule)
      (jobs : List (Job Trigger))
      → In app_def apps
      → IsReady env app_def t
      → HasId (job_id app_def env) (schedule_apps strip split int str from_crontab env apps jobs)
  schedule_apps-ready env app_def t [] jobs m r = absurd m
  schedule_apps-ready env app_def t (a ∷ apps) jobs (inl same) r =
      let all = schedule_apps strip split int str from_crontab env (a ∷ apps) jobs in
      subst (λ x. HasId (job_id x env) all) (sym same)
        (schedule_apps-HasId (job_id a env) env apps
          (schedule_app strip split int str from_crontab env a jobs)
          (schedule_app-ready env a t jobs (subst (λ x. IsReady env x t) same r)))
  schedule_apps-ready env app_def t (a ∷ apps) jobs (inr m) r =
      schedule_apps-ready env app_def t apps
        (schedule_app strip split int str from_crontab env a jobs) m r

  In-schedule_envs :
      (j : Job Trigger) (envs : List EnvSchedule) (apps : List AppSchedule)
      (jobs : List (Job Trigger))
      → In j (schedule_envs strip split int str from_crontab envs apps jobs)
      → In j jobs
        ⊎ ((env : EnvSchedule) × (app_def : AppSchedule) × In env envs
            × In app_def apps
            × ((t : Trigger) × IsReady env app_def t × (j ≡ the_job env app_def t)))
  In-schedule_envs j [] apps jobs m = inl m
  In-schedule_envs j (env ∷ envs) apps jobs m = elim (In-schedule_envs j envs apps _ m) [
    | inr (v, b, k, n, s) ↦ inr (v, b, inr k, n, s)
    | inl n ↦ elim (In-schedule_apps j env apps jobs n) [
      | inl old ↦ inl old
      | inr (b, k, s) ↦ inr (env, b, inl refl, k, s)
    ]
  ]

  schedule_envs-HasId :
      (k : String) (envs : List EnvSchedule) (apps : List AppSchedule) (jobs : List (Job Trigger))
      → HasId k jobs
      → HasId k (schedule_envs strip split int str from_crontab envs apps jobs)
  schedule_envs-HasId k [] apps jobs h = h
  schedule_envs-HasId k (env ∷ envs) apps jobs h =
      schedule_envs-HasId k envs apps _ (schedule_apps-HasId k env apps jobs h)

  schedule_envs-ready :
      (env : EnvSchedule) (app_def : AppSchedule) (t : Trigger) (envs : List EnvSchedule)
      (apps : List AppSchedule) (jobs : List (Job Trigger))
      → In env envs
      → In app_def apps
      → IsReady env app_def t
      → HasId (job_id app_def env) (schedule_envs strip split int str from_crontab envs apps jobs)
  schedule_envs-ready env app_def t [] apps jobs m n r = absurd m
  schedule_envs-ready env app_def t (v ∷ envs) apps jobs (inl same) n r =
      let all = schedule_envs strip split int str from_crontab (v ∷ envs) apps jobs in
      subst (λ x. HasId (job_id app_def x) all) (sym same)
        (schedule_envs-HasId (job_id app_def v) envs apps
          (schedule_apps strip split int str from_crontab v apps jobs)
          (schedule_apps-ready v app_def t apps jobs n (subst (λ x. IsReady x app_def t) same r)))
  schedule_envs-ready env app_def t (v ∷ envs) apps jobs (inr m) n r =
      schedule_envs-ready env app_def t envs apps _ m n r

  -- Every job of the scheduler runs an app in an environment of the configuration that it defines, by the
  -- trigger of its schedule there; and every app that defines such an environment and has a valid
  -- schedule there has a job of its id.
  pub build_scheduler_lem :
      (envs : List EnvSchedule) (apps : List AppSchedule)
      → ((j : Job Trigger)
          → In j (build_scheduler strip split int str from_crontab envs apps)
          → (env : EnvSchedule) × (app_def : AppSchedule) × In env envs
            × In app_def apps
            × ((t : Trigger) × IsReady env app_def t × (j ≡ the_job env app_def t)))
        × ((env : EnvSchedule) (app_def : AppSchedule) (t : Trigger)
            → In env envs
            → In app_def apps
            → IsReady env app_def t
            → HasId
                (job_id app_def env)
                (build_scheduler strip split int str from_crontab envs apps))
  unfolding build_scheduler
  build_scheduler_lem envs apps = (
    (λ j m. elim (In-schedule_envs j envs apps [] m) [ inl bad ↦ absurd bad | inr found ↦ found ]),
    (λ env app_def t m n r. schedule_envs-ready env app_def t envs apps [] m n r),
  )
