-- ===== src/Db/NotificationGroups/Resolved.antt =====
-- Which addresses `resolve_emails_for_groups` gives.
use testharness.Prelude.{
  String, ◌=s=◌, ◌≡◌, refl, subst, inl, inr, Bool, true, false, Option, none, some, List, [], ◌∷◌,
  ◌++◌, Bool-cases, In, In-append, In-map, map-In, select_one, select_where, In-select_where,
  select_where-In, In-sorted_set, sorted_set-In,
}
use testharness.Db.{Db, NotificationGroup}
use testharness.Db.NotificationGroups.{
  is_address, emails_of, clean, named, addresses_of, addresses, all_addresses,
  resolve_emails_for_groups,
}

module _ (strip : String → String) (lower : String → String) (nocase : String → String → Bool) where
  -- An address of the first group that has an identifier as its id or name, as it is written there.
  abbrev pub IsListed : Db → String → String → Type 0
  IsListed db ident e =
      ((ident =s= "") ≡ false)
      × ((g : NotificationGroup) × (select_one (named strip lower nocase ident)
              db.notification_groups
            ≡ some g)
          × ((a : String) × In a (emails_of g)
              × (is_address a ≡ true)
              × (e ≡ clean strip lower nocase a)))

  In-append_left : (e : String) (xs ys : List String) → In e xs → In e (xs ++ ys)
  In-append_left e [] ys m = absurd m
  In-append_left e (x ∷ xs) ys (inl h) = inl h
  In-append_left e (x ∷ xs) ys (inr m) = inr (In-append_left e xs ys m)

  In-append_right : (e : String) (xs ys : List String) → In e ys → In e (xs ++ ys)
  In-append_right e [] ys m = m
  In-append_right e (x ∷ xs) ys m = inr (In-append_right e xs ys m)

  addresses-IsListed :
      (db : Db) (ident e : String)
      → In e (addresses strip lower nocase db ident)
      → IsListed db ident e
  addresses-IsListed db ident e m = elim (Bool-cases (ident =s= "")) [
    | inl f ↦ let bad : In e [] = rw f at m in absurd bad
    | inr f ↦ (
      f,
      by (select_one (named strip lower nocase ident) db.notification_groups) refl (rw f at m),
    )
  ]
    where
      by :
          (o : Option NotificationGroup)
          → select_one (named strip lower nocase ident) db.notification_groups ≡ o
          → In e (addresses_of strip lower nocase o)
          → (g : NotificationGroup) × (o ≡ some g)
            × ((a : String) × In a (emails_of g)
                × (is_address a ≡ true)
                × (e ≡ clean strip lower nocase a))
      by none q n = absurd n
      by (some g) q n =
          let (a, k, same) =
            In-map (clean strip lower nocase) e (select_where is_address (emails_of g)) n in
          let (there, good) = In-select_where a is_address (emails_of g) k in
          (g, refl, (a, there, good, same))

  IsListed-addresses :
      (db : Db) (ident e : String)
      → IsListed db ident e
      → In e (addresses strip lower nocase db ident)
  IsListed-addresses db ident e (f, (g, q, (a, there, good, same))) =
      rw (f, q, same)
        (map-In (clean strip lower nocase) a (select_where is_address (emails_of g))
          (select_where-In a is_address (emails_of g) there good))

  -- The addresses that a list of names or ids resolves to are exactly those of the groups that these
  -- name, without blanks around and in lower case; an empty or unknown name adds none.
  pub resolve_emails-IsListed :
      (db : Db) (idents : List String) (e : String)
      → (In e (resolve_emails_for_groups strip lower nocase db idents)
          → (ident : String) × In ident idents × IsListed db ident e)
        × ((ident : String)
            → In ident idents
            → IsListed db ident e
            → In e (resolve_emails_for_groups strip lower nocase db idents))
  unfolding resolve_emails_for_groups
  resolve_emails-IsListed db idents e = (
    (λ m. from idents (In-sorted_set e (all_addresses strip lower nocase db idents) m)),
    (λ i n l. sorted_set-In e (all_addresses strip lower nocase db idents) (into idents i n l)),
  )
    where
      from :
          (is : List String)
          → In e (all_addresses strip lower nocase db is)
          → (ident : String) × In ident is × IsListed db ident e
      from [] m = absurd m
      from (i ∷ is) m =
          elim (In-append e (addresses strip lower nocase db i)
            (all_addresses strip lower nocase db is) m) [
              | inl k ↦ (i, inl refl, addresses-IsListed db i e k)
              | inr k ↦ let (j, n, l) = from is k in (j, inr n, l)
            ]

      into :
          (is : List String) (i : String)
          → In i is
          → IsListed db i e
          → In e (all_addresses strip lower nocase db is)
      into [] i n l = absurd n
      into (j ∷ is) i (inl same) l =
          In-append_left e (addresses strip lower nocase db j) _
            (IsListed-addresses db j e (subst (λ x. IsListed db x e) same l))
      into (j ∷ is) i (inr n) l =
          In-append_right e (addresses strip lower nocase db j) _ (into is i n l)
