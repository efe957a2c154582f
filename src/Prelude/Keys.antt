-- ===== src/Prelude/Keys.antt =====
-- Tables whose rows have distinct keys (PRIMARY KEY, UNIQUE).
use Prim.Native.Nat.{ℕ, zero, suc}
use Prim.Native.String.{String}
use mathlib.Core.Path.{◌≡◌, refl}
use mathlib.Core.Logic.{inl, inr}
use mathlib.Core.List.{List, [], ◌∷◌, ◌++◌}
use mathlib.Core.Bool.{Bool, true, false, ◌&&◌}
use mathlib.Core.Option.{none, some}
use native.Mathlib.Omega.{arith}
use text.Mathlib.Text.{◌==◌}
use text.Mathlib.TextEquality.{eq_iff}
use text.Mathlib.TextPositions.{eq_refl}
use testharness.Prelude.Tests.{if◌then◌else◌, leb, Bool-cases, map_option}
use testharness.Prelude.Lists.{All, take, All-append, All-take}
use testharness.Prelude.Members.{In, All-at, All-of}
use testharness.Prelude.Rows.{
  select_where, select_one, update_where, count_where, delete_where, insert_by, order_by,
}
use testharness.Prelude.RowLaws.{
  In-select_where, In-insert_by, In-order_by, All-update_where, All-delete_where,
}

pub eq-false_comm : (s t : String) → (s == t) ≡ false → (t == s) ≡ false
eq-false_comm s t h = ground (arith, eq_iff s t, eq_iff t s)

pub eq_symm : (s t : String) → (s == t) ≡ (t == s)
eq_symm s t = ground (arith, eq_iff s t, eq_iff t s)

module _ {A : Type 0} (key : A → String) where
  -- No row has the key.
  abbrev pub Fresh : String → List A → Type 0
  Fresh k rows = All (λ r. (key r == k) ≡ false) rows

  -- No two rows share a key.
  abbrev pub Distinct : List A → Type 0
  Distinct [] = Unit
  Distinct (r ∷ rows) = Fresh (key r) rows × Distinct rows

  pub select_one-Fresh :
      (k : String) (rows : List A) → Fresh k rows → select_one (λ r. key r == k) rows ≡ none
  unfolding select_one
  select_one-Fresh k [] h = refl
  select_one-Fresh k (r ∷ rows) h = ground (arith, select_one-Fresh k rows)

  -- A row that is found by its key is in the table, and has the key.
  pub select_one-In :
      (k : String) (a : A) (rows : List A)
      → select_one (λ r. key r == k) rows ≡ some a
      → In a rows × ((key a == k) ≡ true)
  unfolding select_one
  select_one-In k a [] h = cc
  select_one-In k a (r ∷ rows) h = ground (arith, select_one-In k a rows)

  pub select_one-none :
      (k : String) (rows : List A) → select_one (λ r. key r == k) rows ≡ none → Fresh k rows
  unfolding select_one
  select_one-none k [] h = tt
  select_one-none k (r ∷ rows) h = ground (arith, select_one-none k rows)

  -- With distinct keys every row is the one that its key finds.
  pub In-select_one :
      (a : A) (rows : List A)
      → Distinct rows
      → In a rows
      → select_one (λ r. key r == key a) rows ≡ some a
  unfolding select_one
  In-select_one a [] d m = absurd m
  In-select_one a (r ∷ rows) d (inl e) = ground (arith, eq_refl (key a), eq_iff (key r) (key a))
  In-select_one a (r ∷ rows) d (inr m) =
      let apart =
        eq-false_comm (key a) (key r) (All-at (λ s. (key s == key r) ≡ false) a rows d.0 m) in
      rw apart (In-select_one a rows d.1 m)

  pub Fresh-update_where :
      (k : String) (p : A → Bool) (f : A → A) (rows : List A)
      → ((r : A) → key (f r) ≡ key r)
      → Fresh k rows
      → Fresh k (update_where p f rows)
  Fresh-update_where k p f rows same =
      All-update_where (λ r. (key r == k) ≡ false) p f rows (λ r _ h. rw (same r) h)

  pub Distinct-update_where :
      (p : A → Bool) (f : A → A) (rows : List A)
      → ((r : A) → key (f r) ≡ key r)
      → Distinct rows
      → Distinct (update_where p f rows)
  unfolding update_where
  Distinct-update_where p f [] same d = tt
  Distinct-update_where p f (r ∷ rows) same d = elim (Bool-cases (p r)) [
    | inl e ↦ rw e (
      rw (same r) (Fresh-update_where (key r) p f rows same d.0),
      Distinct-update_where p f rows same d.1,
    )
    | inr e ↦
        rw e (Fresh-update_where (key r) p f rows same d.0, Distinct-update_where p f rows same d.1)
  ]

  pub Distinct-delete_where :
      (p : A → Bool) (rows : List A) → Distinct rows → Distinct (delete_where p rows)
  unfolding delete_where
  Distinct-delete_where p [] d = tt
  Distinct-delete_where p (r ∷ rows) d = elim (Bool-cases (p r)) [
    | inl e ↦ rw e (Distinct-delete_where p rows d.1)
    | inr e ↦ rw e (All-delete_where _ p rows d.0, Distinct-delete_where p rows d.1)
  ]

  pub Distinct-append :
      (a : A) (rows : List A) → Fresh (key a) rows → Distinct rows → Distinct (rows ++ a ∷ [])
  Distinct-append a [] h d = (tt, tt)
  Distinct-append a (r ∷ rows) h d = (
    All-append (λ s. (key s == key r) ≡ false) rows (a ∷ []) d.0
        (eq-false_comm (key r) (key a) h.0, tt),
    Distinct-append a rows h.1 d.1,
  )

  pub Distinct-select_where :
      (p : A → Bool) (rows : List A) → Distinct rows → Distinct (select_where p rows)
  unfolding select_where
  Distinct-select_where p [] d = tt
  Distinct-select_where p (r ∷ rows) d = elim (Bool-cases (p r)) [
    | inl e ↦ rw e (
      All-of _ (select_where p rows)
          (λ a m. All-at (λ s. (key s == key r) ≡ false) a rows d.0 (In-select_where a p rows m).0),
      Distinct-select_where p rows d.1,
    )
    | inr e ↦ rw e (Distinct-select_where p rows d.1)
  ]

  pub Distinct-take : (n : ℕ) (rows : List A) → Distinct rows → Distinct (take n rows)
  Distinct-take zero rows d = tt
  Distinct-take (suc n) [] d = tt
  Distinct-take (suc n) (r ∷ rows) d = (All-take _ n rows d.0, Distinct-take n rows d.1)

  Distinct-insert_by :
      (by : A → ℕ) (b : A) (rows : List A)
      → Fresh (key b) rows
      → Distinct rows
      → Distinct (insert_by by b rows)
  unfolding insert_by
  Distinct-insert_by by b [] h d = (tt, tt)
  Distinct-insert_by by b (r ∷ rows) h d = elim (Bool-cases (leb (by b) (by r))) [
    | inl e ↦ rw e (h, d)
    | inr e ↦ rw e (
      All-of _ (insert_by by b rows) (λ a m. apart a (In-insert_by by a b rows m)),
      Distinct-insert_by by b rows h.1 d.1,
    )
  ]
    where
      apart : (a : A) → In a (b ∷ rows) → (key a == key r) ≡ false
      apart a (inl q) = rw q (eq-false_comm (key r) (key b) h.0)
      apart a (inr q) = All-at (λ s. (key s == key r) ≡ false) a rows d.0 q

  pub Distinct-order_by : (by : A → ℕ) (rows : List A) → Distinct rows → Distinct (order_by by rows)
  unfolding order_by
  Distinct-order_by by [] d = tt
  Distinct-order_by by (r ∷ rows) d =
      Distinct-insert_by by r (order_by by rows)
        (All-of _ (order_by by rows)
          (λ a m. All-at (λ s. (key s == key r) ≡ false) a rows d.0 (In-order_by by a rows m)))
        (Distinct-order_by by rows d.1)

  -- How an UPDATE of the row with one key shows at another, and at the same.
  pub select_one-update_where :
      (k j : String) (q : A → Bool) (f : A → A) (rows : List A)
      → ((r : A) → key (f r) ≡ key r)
      → (k == j) ≡ false
      → select_one (λ r. key r == j) (update_where (λ r. (key r == k) && q r) f rows)
        ≡ select_one (λ r. key r == j) rows
  unfolding select_one update_where
  select_one-update_where k j q f [] same h = refl
  select_one-update_where k j q f (r ∷ rows) same h = ground (
    arith,
    same r,
    eq_iff (key r) k,
    eq_iff (key r) j,
    eq_iff k j,
    select_one-update_where k j q f rows same h,
  )

  pub select_one-update_where_self :
      (k : String) (q : A → Bool) (f : A → A) (rows : List A) (a : A)
      → ((r : A) → key (f r) ≡ key r)
      → select_one (λ r. key r == k) rows ≡ some a
      → select_one (λ r. key r == k) (update_where (λ r. (key r == k) && q r) f rows)
        ≡ some (if q a then f a else a)
  unfolding select_one update_where
  select_one-update_where_self k q f [] a same h = cc
  select_one-update_where_self k q f (r ∷ rows) a same h =
      ground (arith, same r, select_one-update_where_self k q f rows a same)

  pub count_where-Fresh :
      (k : String) (q : A → Bool) (rows : List A)
      → Fresh k rows
      → count_where (λ r. (key r == k) && q r) rows ≡ 0
  unfolding count_where
  count_where-Fresh k q [] h = refl
  count_where-Fresh k q (r ∷ rows) h = ground (arith, count_where-Fresh k q rows)

  -- With distinct keys an UPDATE by key changes one row at most.
  pub count_where-one :
      (k : String) (q : A → Bool) (rows : List A) (a : A)
      → Distinct rows
      → select_one (λ r. key r == k) rows ≡ some a
      → count_where (λ r. (key r == k) && q r) rows ≡ (if q a then 1 else 0)
  unfolding count_where select_one
  count_where-one k q [] a d h = cc
  count_where-one k q (r ∷ rows) a d h = elim (Bool-cases (key r == k)) [
    | inl e ↦
        let none_left : count_where (λ s. (key s == k) && q s) rows ≡ 0 =
          count_where-Fresh k q rows (rw ((eq_iff (key r) k).0 e) at d.0) in
        ground (arith, none_left)
    | inr e ↦ ground (arith, count_where-one k q rows a d.1)
  ]

  -- An UPDATE by key alone, at that key and at another.
  pub select_one-update_key :
      (k : String) (f : A → A) (rows : List A)
      → ((r : A) → key (f r) ≡ key r)
      → select_one (λ r. key r == k) (update_where (λ r. key r == k) f rows)
        ≡ map_option f (select_one (λ r. key r == k) rows)
  unfolding select_one update_where
  select_one-update_key k f [] same = refl
  select_one-update_key k f (r ∷ rows) same =
      ground (arith, same r, select_one-update_key k f rows same)

  pub select_one-update_key_ne :
      (k j : String) (f : A → A) (rows : List A)
      → ((r : A) → key (f r) ≡ key r)
      → (k == j) ≡ false
      → select_one (λ r. key r == j) (update_where (λ r. key r == k) f rows)
        ≡ select_one (λ r. key r == j) rows
  unfolding select_one update_where
  select_one-update_key_ne k j f [] same h = refl
  select_one-update_key_ne k j f (r ∷ rows) same h = ground (
    arith,
    same r,
    eq_iff (key r) k,
    eq_iff (key r) j,
    eq_iff k j,
    select_one-update_key_ne k j f rows same h,
  )
