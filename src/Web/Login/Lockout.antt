-- ===== src/Web/Login/Lockout.antt =====
-- Accounts that failed sign-ins lock, in web/routes/auth.py and harness/auth_manager.py.
use text.Mathlib.TextPositions.{eq_refl}
use testharness.Prelude.{
  ℕ, ◌+◌, ◌≤◌, ◌<◌, String, ◌≡◌, ◌≢◌, refl, sym, ap, ◌∙◌, inl, inr, Bool, true, none, some, List,
  [], ◌∷◌, arith, leb, Bool-cases, Option-cases, select_one, update_where,
}
use testharness.Db.{Db, User}
use testharness.Db.Accounts.{user_has_id}
use testharness.Db.Users.{get_user_by_username, has_username, increment_failed_login}
use testharness.RateLimit.{Limiter, is_limited, hit}
use testharness.Web.Login.{
  is_local, eligible, is_locked, verify_row, verify_local_password, lock_until, track, SignIn,
  signed_in, refused, raised, Attempt, identify, finish, login_post,
}

-- An update that keeps what a query looks at: the row that it finds is updated, if it is one of those.
select_one-kept :
    (p q : User → Bool) (f : User → User) (rows : List User) (u : User)
    → ((r : User) → p (f r) ≡ p r)
    → select_one p rows ≡ some u
    → q u ≡ true
    → select_one p (update_where q f rows) ≡ some (f u)
unfolding select_one update_where
select_one-kept p q f [] u same h t = cc h
select_one-kept p q f (r ∷ rows) u same h t = elim (Bool-cases (p r)) [
  | inl e ↦
      let here : r ≡ u = cc (rw e at h) in
      let hit_row : q r ≡ true = ap q here ∙ t in
      rw (hit_row, same r, e) (ap (λ x. some (f x)) here)
  | inr e ↦
      let rest = select_one-kept p q f rows u same (rw e at h) t in
      elim (Bool-cases (q r)) [ inl g ↦ rw (g, same r, e) rest | inr g ↦ rw (g, e) rest ]
]

abbrev failed : ℕ → User → User
failed now u = record u {
  failed_login_count = u.failed_login_count + 1;
  locked_until = some (now + 900);
}

-- No session.
abbrev pub IsRefused : SignIn → Type 0
IsRefused (signed_in user db limiter) = ⊥
IsRefused (refused status db limiter) = Unit
IsRefused raised = Unit

-- The row of a local account after its tenth failure.
track-locked :
    (username : String) (now : ℕ) (db : Db) (u : User)
    → get_user_by_username db username ≡ some u
    → is_local u ≡ true
    → 9 ≤ u.failed_login_count
    → get_user_by_username (track none username now db) username ≡ some (failed now u)
unfolding track
track-locked username now db u found local many =
    let full : leb 10 (u.failed_login_count + 1) ≡ true = ground (arith, many) in
    let locks : lock_until u now ≡ some (now + 900) = unfold lock_until in rw full in
    rw (found, local, locks)
      (unfold get_user_by_username increment_failed_login in
        select_one-kept (has_username username) (user_has_id u.id) (failed now) db.users u
          (λ r. refl) (unfold get_user_by_username in found) (eq_refl u.id))

locked-refuses :
    (checkpw : String → String → Bool) (password : String) (later until : ℕ) (u : User)
    → u.locked_until ≡ some until
    → later < until
    → verify_row checkpw password later (some u) ≡ none
locked-refuses checkpw password later until u locked early =
    let still : is_locked later u.locked_until ≡ true = rw locked (ground (arith, early)) in
    elim (Bool-cases (eligible u)) [ inl e ↦ rw (e, still) | inr e ↦ rw e ]

abbrev status_of : SignIn → ℕ
status_of (refused status db limiter) = status
status_of other = 0

refused-apart : (db db' : Db) (l l' : Limiter) → refused 429 db l ≢ refused 401 db' l'
refused-apart db db' l l' h = omega (arith, ap status_of h)

module _ (checkpw : String → String → Bool) (nocase : String → String → Bool)
    (lower : String → String) where
  -- Without a local password and without a directory there is no session.
  finish-IsRefused :
      (a : Attempt) (db : Db) (limiter : Limiter)
      → a.ldap ≡ none
      → IsRefused (finish checkpw nocase lower a limiter (identify checkpw nocase lower a none db))
  unfolding identify
  finish-IsRefused a db limiter h =
      rw h
        (elim (Option-cases (hit a.ip a.tick limiter)) [ inl e ↦ rw e tt | inr (l, e) ↦ rw e tt ])

  login-IsRefused :
      (a : Attempt) (db : Db) (limiter : Limiter)
      → a.ldap ≡ none
      → verify_local_password checkpw a.username a.password db a.now ≡ none
      → IsRefused (login_post checkpw nocase lower a db limiter)
  unfolding login_post
  login-IsRefused a db limiter no_ldap wrong =
      elim (Bool-cases (is_limited a.ip a.tick limiter).0) [
        | inl e ↦ rw e tt
        | inr e ↦ rw (e, wrong) (finish-IsRefused a _ (is_limited a.ip a.tick limiter).1 no_ldap)
      ]

  -- A refusal with 401 was tracked as a failure.
  login-tracked :
      (a : Attempt) (db db' : Db) (limiter limiter' : Limiter)
      → a.ldap ≡ none
      → login_post checkpw nocase lower a db limiter ≡ refused 401 db' limiter'
      → track none a.username a.now db ≡ db'
  unfolding login_post identify
  login-tracked a db db' limiter limiter' no_ldap h =
      elim (Bool-cases (is_limited a.ip a.tick limiter).0) [
        | inl e ↦
            absurd (refused-apart db db' (is_limited a.ip a.tick limiter).1 limiter' (rw e at h))
        | inr e ↦
            elim (Option-cases (verify_local_password checkpw a.username a.password db a.now)) [
              | inr (u, f) ↦ cc (rw (e, f) at h)
              | inl f ↦ elim (Option-cases (hit a.ip a.tick (is_limited a.ip a.tick limiter).1)) [
                | inl g ↦ cc (rw (e, f, no_ldap, g) at h)
                | inr (l, g) ↦ cc (rw (e, f, no_ldap, g) at h)
              ]
            ]
      ]

  -- When a sign-in of a local account fails that failed nine times before, then no sign-in of this account that
  -- comes in the next 15 minutes gives a session, whatever the password and whoever asks. (The directory
  -- confirms neither.)
  pub lockout :
      (a b : Attempt) (db db' : Db) (limiter limiter' later : Limiter) (u : User)
      → get_user_by_username db a.username ≡ some u
      → is_local u ≡ true
      → 9 ≤ u.failed_login_count
      → a.ldap ≡ none
      → login_post checkpw nocase lower a db limiter ≡ refused 401 db' limiter'
      → b.ldap ≡ none
      → b.username ≡ a.username
      → b.now < a.now + 900
      → IsRefused (login_post checkpw nocase lower b db' later)
  unfolding verify_local_password
  lockout a b db db' limiter limiter' later u found local many no_ldap h no_ldap' same soon =
      let row : get_user_by_username db' b.username ≡ some (failed a.now u) =
        rw (sym (login-tracked a db db' limiter limiter' no_ldap h), same)
          (track-locked a.username a.now db u found local many) in
      login-IsRefused b db' later no_ldap' (
        ap (verify_row checkpw b.password b.now) row
        ∙ locked-refuses checkpw b.password b.now (a.now + 900) (failed a.now u) refl soon)
