-- ===== src/Db/AppStates/Upserts.antt =====
-- Reading back what the statements of harness/db/_app_state.py write.
use testharness.Prelude.{
  String, ◌=s=◌, eq_iff, ◌≡◌, refl, ap, ◌∙◌, inl, inr, Bool, true, false, Option, none, some, List,
  [], ◌∷◌, ◌++◌, arith, ◌==◌, if◌then◌else◌, Bool-cases, map_option, select_one, update_where,
  count_where, and-true_left, and-true_right,
}
use testharness.Db.{Db, TestState, AppState}
use testharness.Db.AppStates.{is_state_of, get_app_state, upsert_app_state}
use text.Mathlib.TextPositions.{eq_refl}

module _ {A : Type 0} (p : A → Bool) (f : A → A) where
  pub select_one-updated :
      (rows : List A)
      → ((r : A) → p (f r) ≡ p r)
      → select_one p (update_where p f rows) ≡ map_option f (select_one p rows)
  unfolding select_one update_where
  select_one-updated [] same = refl
  select_one-updated (r ∷ rows) same = elim (Bool-cases (p r)) [
    | inl e ↦ rw (e, same r ∙ e)
    | inr e ↦ rw (e, e) (select_one-updated rows same)
  ]

  pub select_one-others :
      (q : A → Bool) (rows : List A)
      → ((r : A) → p r ≡ true → q r ≡ false)
      → ((r : A) → q (f r) ≡ q r)
      → select_one q (update_where p f rows) ≡ select_one q rows
  unfolding select_one update_where
  select_one-others q [] apart same = refl
  select_one-others q (r ∷ rows) apart same = elim (Bool-cases (p r)) [
    | inl e ↦ rw (e, same r, apart r e) (select_one-others q rows apart same)
    | inr e ↦ rw e (ap (λ x. if q r then some r else x) (select_one-others q rows apart same))
  ]

module _ {A : Type 0} (p : A → Bool) where
  pub select_one-absent :
      (rows : List A) → (count_where p rows == 0) ≡ true → select_one p rows ≡ none
  unfolding select_one count_where
  select_one-absent [] h = refl
  select_one-absent (r ∷ rows) h = ground (arith, h, select_one-absent rows)

  pub select_one-present :
      (rows : List A) → (count_where p rows == 0) ≡ false → (r : A) × (select_one p rows ≡ some r)
  unfolding select_one count_where
  select_one-present [] h = cc h
  select_one-present (r ∷ rows) h = elim (Bool-cases (p r)) [
    | inl e ↦ (r, rw e)
    | inr e ↦ rw e (select_one-present rows (ground (arith, e, h)))
  ]

  abbrev pub or_else : Option A → A → Option A
  or_else none a = if p a then some a else none
  or_else (some r) a = some r

  pub select_one-at_end :
      (rows : List A) (a : A) → select_one p (rows ++ a ∷ []) ≡ or_else (select_one p rows) a
  unfolding select_one
  select_one-at_end [] a = refl
  select_one-at_end (r ∷ rows) a = elim (Bool-cases (p r)) [
    | inl e ↦ rw e
    | inr e ↦ rw e (select_one-at_end rows a)
  ]

-- prev["state"] if prev else "unknown"
abbrev pub state_of : Option AppState → TestState
state_of none = TestState.unknown
state_of (some s) = s.state

unfoldable pub state_at : Db → String → String → String → TestState
unfolding get_app_state
state_at db app environment test_name = state_of (get_app_state db app environment test_name)

itself : (s : AppState) → is_state_of s.app s.environment s.test_name s ≡ true
itself s = rw (eq_refl s.app, eq_refl s.environment, eq_refl s.test_name)

-- A written state is read back.
pub state_at-upsert :
    (db : Db) (s : AppState)
    → state_at (upsert_app_state db s) s.app s.environment s.test_name ≡ s.state
unfolding state_at upsert_app_state get_app_state
state_at-upsert db s = elim (Bool-cases (count_where same db.app_state == 0)) [
  | inl e ↦
      let found : select_one same (db.app_state ++ s ∷ []) ≡ some s =
        select_one-at_end same db.app_state s
        ∙ rw (select_one-absent same db.app_state e) (rw (itself s)) in
      rw e (ap state_of found)
  | inr e ↦
      let (r, g) = select_one-present same db.app_state e in
      let found : select_one same
            (update_where same (λ x. record x { state = s.state; since = s.since }) db.app_state)
          ≡ some (record r { state = s.state; since = s.since }) =
        select_one-updated same _ db.app_state (λ x. refl) ∙ rw g in
      rw e (ap state_of found)
]
  where
    same : AppState → Bool
    same = is_state_of s.app s.environment s.test_name

-- Writing the state of one test leaves that of every other test.
pub state_at-upsert_ne :
    (db : Db) (s : AppState) (app environment test_name : String)
    → is_state_of app environment test_name s ≡ false
    → state_at (upsert_app_state db s) app environment test_name
      ≡ state_at db app environment test_name
unfolding state_at upsert_app_state get_app_state
state_at-upsert_ne db s app environment test_name h =
    elim (Bool-cases (count_where same db.app_state == 0)) [
      | inl e ↦ rw e (
          ap state_of
            (select_one-at_end other db.app_state s ∙ unmoved (select_one other db.app_state)))
      | inr e ↦ rw e (ap state_of (select_one-others same _ other db.app_state apart (λ x. refl)))
    ]
  where
    same : AppState → Bool
    same = is_state_of s.app s.environment s.test_name

    other : AppState → Bool
    other = is_state_of app environment test_name

    unmoved : (o : Option AppState) → or_else other o s ≡ o
    unmoved none = rw h
    unmoved (some r) = refl

    apart : (r : AppState) → same r ≡ true → other r ≡ false
    apart r e =
        let a = (eq_iff r.app s.app).0 (and-true_left _ _ e) in
        let rest = and-true_right (r.app =s= s.app) _ e in
        let b = (eq_iff r.environment s.environment).0 (and-true_left _ _ rest) in
        let c =
          (eq_iff r.test_name s.test_name).0
            (and-true_right (r.environment =s= s.environment) _ rest) in
        rw (a, b, c) h
