-- ===== src/Prelude/Texts.antt =====
-- Texts as the numbers of their characters.
use Prim.Native.Nat.{ℕ}
use Prim.Native.Char.{code}
use Prim.Native.String.{String}
use mathlib.Core.Bool.{Bool, true, false}
use mathlib.Core.List.{List, [], ◌∷◌}
use text.Mathlib.Text.{◌==◌ as ◌=s=◌}
use testharness.Prelude.Tests.{ltb, ◌==◌, if◌then◌else◌}

abbrev pub codes : String → List ℕ
codes String.[] = []
codes (String.◌∷◌ c s) = code c ∷ codes s

abbrev prefixed : List ℕ → List ℕ → Bool
prefixed [] s = true
prefixed (c ∷ p) [] = false
prefixed (c ∷ p) (d ∷ s) = let rest = prefixed p s in if c == d then rest else false

-- s.startswith(prefix)
unfoldable pub starts_with : String → String → Bool
starts_with s prefix = prefixed (codes prefix) (codes s)

abbrev pub has_code : ℕ → List ℕ → Bool
has_code c [] = false
has_code c (d ∷ s) = let rest = has_code c s in if d == c then true else rest

abbrev codes_le : List ℕ → List ℕ → Bool
codes_le [] t = true
codes_le (c ∷ s) [] = false
codes_le (c ∷ s) (d ∷ t) =
    let rest = codes_le s t in if c == d then rest else if ltb c d then true else false

-- s <= t of two texts
unfoldable pub text_le : String → String → Bool
text_le s t = codes_le (codes s) (codes t)

module _ {A : Type 0} (name : A → String) where
  unfoldable pub insert_named : A → List A → List A
  unfolding text_le
  insert_named a [] = a ∷ []
  insert_named a (r ∷ rows) =
      let rest = insert_named a rows in if text_le (name a) (name r) then a ∷ r ∷ rows else r ∷ rest

  -- ORDER BY name, of texts
  unfoldable pub order_by_name : List A → List A
  unfolding insert_named
  order_by_name [] = []
  order_by_name (r ∷ rows) = insert_named r (order_by_name rows)

abbrev pub in_texts : String → List String → Bool
in_texts s [] = false
in_texts s (t ∷ ts) = let rest = in_texts s ts in if s =s= t then true else rest

-- set(texts)
unfoldable pub text_set : List String → List String
text_set [] = []
text_set (t ∷ ts) = let rest = text_set ts in if in_texts t rest then rest else t ∷ rest

-- sorted(set(texts))
unfoldable pub sorted_set : List String → List String
unfolding text_set order_by_name
sorted_set texts = order_by_name (λ t. t) (text_set texts)

-- The first character of a text, put before another one.
abbrev pub led_by : String → String → String
led_by String.[] s = s
led_by (String.◌∷◌ c _) s = String.◌∷◌ c s
