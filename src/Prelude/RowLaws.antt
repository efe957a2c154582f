-- ===== src/Prelude/RowLaws.antt =====
-- What the statements of Rows.antt keep and select.
use Prim.Native.Nat.{ℕ, zero, suc, ◌+◌, ◌≤◌}
use mathlib.Core.Path.{◌≡◌, refl, ap}
use mathlib.Core.Logic.{inl, inr}
use mathlib.Core.List.{List, [], ◌∷◌, ◌++◌, map}
use mathlib.Core.Bool.{Bool, true, false, not, ◌&&◌}
use native.Mathlib.Nat.{le_trans}
use native.Mathlib.Omega.{arith}
use testharness.Prelude.Tests.{if◌then◌else◌, leb, leb→le, Bool-cases}
use testharness.Prelude.Lists.{length, All, take, drop, All-map}
use testharness.Prelude.Members.{In, In-drop, All-at, All-of}
use testharness.Prelude.Rows.{
  select_where, update_where, count_where, delete_where, insert_by, order_by, insert_desc,
  order_desc,
}

module _ {ℓ} {A : Type ℓ} where
  pub All-update_where {κ} :
      (P : A → Type κ) (p : A → Bool) (f : A → A) (rows : List A)
      → ((r : A) → p r ≡ true → P r → P (f r))
      → All P rows
      → All P (update_where p f rows)
  unfolding update_where
  All-update_where P p f [] keep h = tt
  All-update_where P p f (r ∷ rows) keep h = elim (Bool-cases (p r)) [
    | inl e ↦ rw e (keep r e h.0, All-update_where P p f rows keep h.1)
    | inr e ↦ rw e (h.0, All-update_where P p f rows keep h.1)
  ]

  pub All-delete_where {κ} :
      (P : A → Type κ) (p : A → Bool) (rows : List A) → All P rows → All P (delete_where p rows)
  unfolding delete_where
  All-delete_where P p [] h = tt
  All-delete_where P p (r ∷ rows) h = elim (Bool-cases (p r)) [
    | inl e ↦ rw e (All-delete_where P p rows h.1)
    | inr e ↦ rw e (h.0, All-delete_where P p rows h.1)
  ]

module _ {A : Type 0} where
  -- A row is selected exactly if it is in the table and passes the test.
  pub In-select_where :
      (a : A) (p : A → Bool) (rows : List A) → In a (select_where p rows) → In a rows × (p a ≡ true)
  unfolding select_where
  In-select_where a p [] m = absurd m
  In-select_where a p (r ∷ rows) m = ground (arith, In-select_where a p rows)

  pub select_where-In :
      (a : A) (p : A → Bool) (rows : List A) → In a rows → p a ≡ true → In a (select_where p rows)
  unfolding select_where
  select_where-In a p [] m h = m
  select_where-In a p (r ∷ rows) m h = ground (arith, select_where-In a p rows)

  -- A row of the table after an UPDATE is an old row that the test passed over, or a new one.
  pub In-update_where :
      (a : A) (p : A → Bool) (f : A → A) (rows : List A)
      → In a (update_where p f rows)
      → (b : A) × In b rows × (a ≡ (if p b then f b else b))
  unfolding update_where
  In-update_where a p f [] m = absurd m
  In-update_where a p f (r ∷ rows) (inl e) = (r, inl refl, e)
  In-update_where a p f (r ∷ rows) (inr m) =
      let (b, n, e) = In-update_where a p f rows m in (b, inr n, e)

  pub In-delete_where :
      (a : A) (p : A → Bool) (rows : List A)
      → In a (delete_where p rows)
      → (p a ≡ false) × In a rows
  unfolding delete_where
  In-delete_where a p [] m = absurd m
  In-delete_where a p (r ∷ rows) m = ground (arith, In-delete_where a p rows)

module _ {A : Type 0} (key : A → ℕ) where
  pub In-insert_by : (a b : A) (rows : List A) → In a (insert_by key b rows) → In a (b ∷ rows)
  unfolding insert_by
  In-insert_by a b [] m = m
  In-insert_by a b (r ∷ rows) m = ground (arith, In-insert_by a b rows)

  pub insert_by-In : (a b : A) (rows : List A) → In a (b ∷ rows) → In a (insert_by key b rows)
  unfolding insert_by
  insert_by-In a b [] m = m
  insert_by-In a b (r ∷ rows) m = ground (arith, insert_by-In a b rows)

  -- Sorting keeps the rows.
  pub In-order_by : (a : A) (rows : List A) → In a (order_by key rows) → In a rows
  unfolding order_by
  In-order_by a [] m = m
  In-order_by a (r ∷ rows) m =
      ground (arith, In-insert_by a r (order_by key rows) m, In-order_by a rows)

  pub order_by-In : (a : A) (rows : List A) → In a rows → In a (order_by key rows)
  unfolding order_by
  order_by-In a [] m = m
  order_by-In a (r ∷ rows) (inl e) = insert_by-In a r (order_by key rows) (inl e)
  order_by-In a (r ∷ rows) (inr m) =
      insert_by-In a r (order_by key rows) (inr (order_by-In a rows m))

  pub insert_desc-In : (a b : A) (rows : List A) → In a (b ∷ rows) → In a (insert_desc key b rows)
  unfolding insert_desc
  insert_desc-In a b [] m = m
  insert_desc-In a b (r ∷ rows) m = ground (arith, insert_desc-In a b rows)

  pub order_desc-In : (a : A) (rows : List A) → In a rows → In a (order_desc key rows)
  unfolding order_desc
  order_desc-In a [] m = m
  order_desc-In a (r ∷ rows) (inl e) = insert_desc-In a r (order_desc key rows) (inl e)
  order_desc-In a (r ∷ rows) (inr m) =
      insert_desc-In a r (order_desc key rows) (inr (order_desc-In a rows m))

  -- Each row's key is at most those of the rows behind it.
  abbrev pub IsOrdered : List A → Type 0
  IsOrdered [] = Unit
  IsOrdered (r ∷ rows) = All (λ s. key r ≤ key s) rows × IsOrdered rows

  insert_by-IsOrdered : (b : A) (rows : List A) → IsOrdered rows → IsOrdered (insert_by key b rows)
  unfolding insert_by
  insert_by-IsOrdered b [] h = (tt, tt)
  insert_by-IsOrdered b (r ∷ rows) h = elim (Bool-cases (leb (key b) (key r))) [
    | inl e ↦
        let below : key b ≤ key r = leb→le _ _ e in
        rw e ((below, All-map (λ s q. le_trans below q) rows h.0), h)
    | inr e ↦ rw e (
      All-of _ (insert_by key b rows) (λ a m. above a (ground arith) (In-insert_by a b rows m)),
      insert_by-IsOrdered b rows h.1,
    )
  ]
    where
      above : (a : A) → key r ≤ key b → In a (b ∷ rows) → key r ≤ key a
      above a le (inl q) = rw q le
      above a le (inr q) = All-at (λ s. key r ≤ key s) a rows h.0 q

  pub order_by-IsOrdered : (rows : List A) → IsOrdered (order_by key rows)
  unfolding order_by
  order_by-IsOrdered [] = tt
  order_by-IsOrdered (r ∷ rows) =
      insert_by-IsOrdered r (order_by key rows) (order_by-IsOrdered rows)

  -- In an ordered list, what is taken comes before what is dropped.
  pub take-le-drop :
      (n : ℕ) (rows : List A)
      → IsOrdered rows
      → All (λ r. All (λ s. key r ≤ key s) (drop n rows)) (take n rows)
  take-le-drop zero rows h = tt
  take-le-drop (suc n) [] h = tt
  take-le-drop (suc n) (r ∷ rows) h = (
    All-of _ (drop n rows) (λ a m. All-at (λ s. key r ≤ key s) a rows h.0 (In-drop a n rows m)),
    take-le-drop n rows h.1,
  )

-- An UPDATE maps the table's rows.
pub update_where-map {ℓ} :
    {A : Type ℓ} (p : A → Bool) (f : A → A) (rows : List A)
    → update_where p f rows ≡ map (λ r. if p r then f r else r) rows
unfolding update_where
update_where-map p f [] = refl
update_where-map p f (r ∷ rows) =
    ap (λ rest. (if p r then f r else r) ∷ rest) (update_where-map p f rows)

pub map-map {ℓ κ μ} :
    {A : Type ℓ} {B : Type κ} {C : Type μ} (g : B → C) (f : A → B) (xs : List A)
    → map g (map f xs) ≡ map (λ a. g (f a)) xs
map-map g f [] = refl
map-map g f (x ∷ xs) = ap (λ rest. g (f x) ∷ rest) (map-map g f xs)

pub map_id {ℓ} : {A : Type ℓ} (xs : List A) → map (λ a. a) xs ≡ xs
map_id [] = refl
map_id (x ∷ xs) = ap (λ rest. x ∷ rest) (map_id xs)

module _ {A : Type 0} (p : A → Bool) where
  count_where-insert_by :
      (key : A → ℕ) (a : A) (rows : List A)
      → count_where p (insert_by key a rows) ≡ count_where p (a ∷ rows)
  unfolding count_where insert_by
  count_where-insert_by key a [] = refl
  count_where-insert_by key a (r ∷ rows) = ground (arith, count_where-insert_by key a rows)

  pub count_where-order_by :
      (key : A → ℕ) (rows : List A) → count_where p (order_by key rows) ≡ count_where p rows
  unfolding count_where order_by
  count_where-order_by key [] = refl
  count_where-order_by key (r ∷ rows) =
      ground (arith, count_where-insert_by key r (order_by key rows), count_where-order_by key rows)

  pub count_where-select_where :
      (q : A → Bool) (rows : List A)
      → count_where p (select_where q rows) ≡ count_where (λ r. q r && p r) rows
  unfolding count_where select_where
  count_where-select_where q [] = refl
  count_where-select_where q (r ∷ rows) = ground (arith, count_where-select_where q rows)

  pub count_where-split :
      (rows : List A) → count_where p rows + count_where (λ r. not (p r)) rows ≡ length rows
  unfolding count_where
  count_where-split [] = refl
  count_where-split (r ∷ rows) = ground (arith, count_where-split rows)

  pub select_where-append :
      (xs ys : List A) → select_where p (xs ++ ys) ≡ select_where p xs ++ select_where p ys
  unfolding select_where
  select_where-append [] ys = refl
  select_where-append (x ∷ xs) ys = ground (arith, select_where-append xs ys)

  -- A test that no row passes selects nothing.
  pub select_where-none : (rows : List A) → All (λ r. p r ≡ false) rows → select_where p rows ≡ []
  unfolding select_where
  select_where-none [] h = refl
  select_where-none (r ∷ rows) h = ground (arith, select_where-none rows)
