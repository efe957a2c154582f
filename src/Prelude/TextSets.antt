-- ===== src/Prelude/TextSets.antt =====
-- Lists that are sorted by a text, and sets of texts, have the members of the list they are made from.
use Prim.Native.String.{String}
use mathlib.Core.Path.{◌≡◌, sym, subst}
use mathlib.Core.Logic.{inl, inr}
use mathlib.Core.Bool.{true}
use mathlib.Core.List.{List, [], ◌∷◌}
use native.Mathlib.Omega.{arith}
use text.Mathlib.Text.{◌==◌ as ◌=s=◌}
use text.Mathlib.TextEquality.{eq_iff}
use testharness.Prelude.Tests.{Bool-cases}
use testharness.Prelude.Members.{In}
use testharness.Prelude.Texts.{insert_named, order_by_name, in_texts, text_set, sorted_set}

pub in_texts-In : (s : String) (ts : List String) → in_texts s ts ≡ true → In s ts
in_texts-In s [] h = cc h
in_texts-In s (t ∷ ts) h = elim (Bool-cases (s =s= t)) [
  | inl e ↦ inl ((eq_iff s t).0 e)
  | inr e ↦ inr (in_texts-In s ts (ground (arith, h, e)))
]

pub In-in_texts : (s : String) (ts : List String) → In s ts → in_texts s ts ≡ true
In-in_texts s [] m = absurd m
In-in_texts s (t ∷ ts) (inl e) = rw ((eq_iff s t).1 e)
In-in_texts s (t ∷ ts) (inr m) = ground (arith, In-in_texts s ts m)

pub In-text_set : (s : String) (ts : List String) → In s (text_set ts) → In s ts
unfolding text_set
In-text_set s [] m = absurd m
In-text_set s (t ∷ ts) m = ground (arith, In-text_set s ts)

pub text_set-In : (s : String) (ts : List String) → In s ts → In s (text_set ts)
unfolding text_set
text_set-In s [] m = absurd m
text_set-In s (t ∷ ts) (inl e) = elim (Bool-cases (in_texts t (text_set ts))) [
  | inl f ↦ rw f (subst (λ x. In x (text_set ts)) (sym e) (in_texts-In t (text_set ts) f))
  | inr f ↦ rw f (inl e)
]
text_set-In s (t ∷ ts) (inr m) = ground (arith, text_set-In s ts m)

module _ {A : Type 0} (name : A → String) where
  In-insert_named : (a b : A) (rows : List A) → In a (insert_named name b rows) → In a (b ∷ rows)
  unfolding insert_named
  In-insert_named a b [] m = m
  In-insert_named a b (r ∷ rows) m = ground (arith, In-insert_named a b rows)

  insert_named-In : (a b : A) (rows : List A) → In a (b ∷ rows) → In a (insert_named name b rows)
  unfolding insert_named
  insert_named-In a b [] m = m
  insert_named-In a b (r ∷ rows) m = ground (arith, insert_named-In a b rows)

  pub In-order_by_name : (a : A) (rows : List A) → In a (order_by_name name rows) → In a rows
  unfolding order_by_name
  In-order_by_name a [] m = m
  In-order_by_name a (r ∷ rows) m = elim (In-insert_named a r (order_by_name name rows) m) [
    | inl h ↦ inl h
    | inr h ↦ inr (In-order_by_name a rows h)
  ]

  pub order_by_name-In : (a : A) (rows : List A) → In a rows → In a (order_by_name name rows)
  unfolding order_by_name
  order_by_name-In a [] m = m
  order_by_name-In a (r ∷ rows) (inl h) = insert_named-In a r (order_by_name name rows) (inl h)
  order_by_name-In a (r ∷ rows) (inr h) =
      insert_named-In a r (order_by_name name rows) (inr (order_by_name-In a rows h))

pub In-sorted_set : (s : String) (ts : List String) → In s (sorted_set ts) → In s ts
unfolding sorted_set
In-sorted_set s ts m = In-text_set s ts (In-order_by_name (λ t. t) s (text_set ts) m)

pub sorted_set-In : (s : String) (ts : List String) → In s ts → In s (sorted_set ts)
unfolding sorted_set
sorted_set-In s ts m = order_by_name-In (λ t. t) s (text_set ts) (text_set-In s ts m)
