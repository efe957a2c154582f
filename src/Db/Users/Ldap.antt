-- ===== src/Db/Users/Ldap.antt =====
-- What a sign-in through the directory may change in harness/db/_users.py.
use testharness.Prelude.{
  ℕ, String, ◌=s=◌, eq_iff, ◌||◌, ◌≡◌, refl, sym, ap, subst, ◌∙◌, inl, inr, ◌⊎◌, Bool, true, false,
  Option, none, some, List, [], ◌∷◌, ◌++◌, ◌==◌, arith, Bool-cases, In, Distinct, In-select_one,
  In-select_where, In-order_by, update_where, count_where, select_one,
}
use testharness.Db.{Db, User}
use testharness.Db.Accounts.{user_has_id}
use testharness.Db.Users.{
  has_username, insert_user, get_users_by_username_ci, update_user, LdapInfo, is_foreign, preferred,
  ldap_changes, inserted, upsert_matching, upsert_ldap_user, new_ldap_user, with_changes,
}

abbrev user_id_of : User → String
user_id_of u = u.id

-- No two rows have one id.
abbrev pub HasDistinctUsers : Db → Type 0
HasDistinctUsers db = Distinct user_id_of db.users

preferred-In :
    (username : String) (oldest x : User) (rows : List User)
    → preferred username oldest rows ≡ x
    → (x ≡ oldest) ⊎ In x rows
unfolding preferred
preferred-In username oldest x [] h = inl (sym h)
preferred-In username oldest x (u ∷ rows) h = elim (Bool-cases (has_username username u)) [
  | inl e ↦ let here : u ≡ x = rw e at h in inr (inl (sym here))
  | inr e ↦ elim (preferred-In username oldest x rows (rw e at h)) [
    | inl f ↦ inl f
    | inr m ↦ inr (inr m)
  ]
]

-- Where a count is 0, no member passes.
none_counted :
    (p : User → Bool) (u : User) (rows : List User)
    → (count_where p rows == 0) ≡ true
    → In u rows
    → p u ≡ false
unfolding count_where
none_counted p u [] h m = absurd m
none_counted p u (r ∷ rows) h m = elim (Bool-cases (p r)) [
  | inl e ↦ ground (arith, e, h)
  | inr e ↦ elim m [ inl f ↦ ap p f ∙ e | inr n ↦ none_counted p u rows (rw e at h) n ]
]

update_where-In :
    (p : User → Bool) (f : User → User) (u : User) (rows : List User)
    → p u ≡ false
    → In u rows
    → In u (update_where p f rows)
unfolding update_where
update_where-In p f u [] h m = absurd m
update_where-In p f u (r ∷ rows) h (inl e) = rw (sym (ap p e) ∙ h) (inl e)
update_where-In p f u (r ∷ rows) h (inr m) = inr (update_where-In p f u rows h m)

In-before : (u : User) (xs ys : List User) → In u xs → In u (xs ++ ys)
In-before u [] ys m = absurd m
In-before u (x ∷ xs) ys (inl e) = inl e
In-before u (x ∷ xs) ys (inr m) = inr (In-before u xs ys m)

module _ (nocase : String → String → Bool) (lower : String → String) (user_id : String) (now : ℕ)
    (info : LdapInfo) (db : Db) where
  -- The row that is updated is one of the table, of a directory account.
  matching-In : (m : User) → In m (get_users_by_username_ci nocase db info.username) → In m db.users
  unfolding get_users_by_username_ci
  matching-In m i =
      (In-select_where m (λ u. nocase u.username info.username) db.users
        (In-order_by (λ (u : User). u.created_at) m _ i)).0

  abbrev Keeps : User → Option (Option User × Db) → Type 0
  Keeps u none = Unit
  Keeps u (some (found, after)) = In u after.users

  inserted-Keeps :
      (u : User)
      → In u db.users
      → Keeps u (inserted user_id (insert_user db (new_ldap_user lower user_id now info)))
  unfolding insert_user
  inserted-Keeps u m =
      let new = new_ldap_user lower user_id now info in
      elim (Bool-cases
        (count_where (λ r. user_has_id new.id r || has_username new.username r) db.users == 0)) [
          | inl e ↦ rw e (In-before u db.users (new ∷ []) m)
          | inr e ↦ rw e tt
        ]

  updated-Keeps :
      (u existing : User)
      → HasDistinctUsers db
      → In u db.users
      → In existing db.users
      → is_foreign u ≡ true
      → is_foreign existing ≡ false
      → In u (update_user existing.id (ldap_changes info existing) db).users
  unfolding update_user
  updated-Keeps u existing d m e foreign own = elim (Bool-cases (user_has_id existing.id u)) [
    | inr apart ↦
        update_where-In (user_has_id existing.id) (with_changes (ldap_changes info existing)) u
          db.users apart m
    | inl same ↦
        let ids : u.id ≡ existing.id = (eq_iff u.id existing.id).0 same in
        let one : some u ≡ some existing =
          sym (In-select_one user_id_of u db.users d m)
          ∙ ap (λ k. select_one (λ r. user_id_of r =s= k) db.users) ids
          ∙ In-select_one user_id_of existing db.users d e in
        let row : u ≡ existing = cc one in
        let both : true ≡ false = sym foreign ∙ ap is_foreign row ∙ own in cc both
  ]

  matched-Keeps :
      (u : User) (matches : List User)
      → HasDistinctUsers db
      → In u db.users
      → is_foreign u ≡ true
      → get_users_by_username_ci nocase db info.username ≡ matches
      → (count_where is_foreign matches == 0) ≡ true
      → Keeps u (upsert_matching lower user_id now info db matches)
  matched-Keeps u [] d m foreign e own = inserted-Keeps u m
  matched-Keeps u (x ∷ rows) d m foreign e own =
      let existing = preferred info.username x (x ∷ rows) in
      let found : In existing (x ∷ rows) =
        elim (preferred-In info.username x existing (x ∷ rows) refl) [
          | inl f ↦ inl f
          | inr i ↦ i
        ] in
      updated-Keeps u existing d m (matching-In existing (rw e found)) foreign
        (none_counted is_foreign existing (x ∷ rows) own found)

-- A sign-in through the directory leaves every account of another provider as it was: its row is in the table
-- afterwards, unchanged.
pub upsert_ldap_user-keeps :
    (nocase : String → String → Bool) (lower : String → String) (user_id : String) (now : ℕ)
    (info : LdapInfo) (db after : Db) (found : Option User) (u : User)
    → HasDistinctUsers db
    → In u db.users
    → is_foreign u ≡ true
    → upsert_ldap_user nocase lower user_id now info db ≡ some (found, after)
    → In u after.users
unfolding upsert_ldap_user
upsert_ldap_user-keeps nocase lower user_id now info db after found u d m foreign h =
    let matches = get_users_by_username_ci nocase db info.username in
    elim (Bool-cases (count_where is_foreign matches == 0)) [
      | inl own ↦
          let q : upsert_matching lower user_id now info db matches ≡ some (found, after) =
            rw own at h in
          subst (Keeps nocase lower user_id now info db u) q
            (matched-Keeps nocase lower user_id now info db u matches d m foreign refl own)
      | inr other ↦
          let q : some (none, db) ≡ some (found, after) = rw other at h in
          subst (Keeps nocase lower user_id now info db u) q m
    ]
