-- ===== src/Config/Unknown.antt =====
-- What `resolve_env_vars` of harness/config.py leaves as it is, where unknown variables are let pass.
use Prim.Native.Char.{code}
use testharness.Prelude.{
  ℕ, zero, suc, String, ◌=s=◌, ◌≡◌, refl, sym, ap, ap₂, ◌∙◌, inl, inr, Bool, false, not, ◌&&◌, none,
  some, List, Bool-cases, Option-cases, has_code, codes, ◌==◌, is_none,
}
use testharness.Config.{
  Value, null, bool, int, float, text, items, mapping, Items, no_items, item, Fields, no_fields,
  field, ok,
}
use testharness.Config.Refs.{
  append, text_length, is_ident, is_env, is_first, span, suffix, name_at, is_env_ref, base_name,
  look_up, resolve_var, inline_sub, resolve_text, as_text, as_items, as_mapping, an_item, a_field,
  resolve_env_vars, resolve_items, resolve_fields, tail,
}
use testharness.Web.Auth.{drop_text}

append_assoc : (a b c : String) → append (append a b) c ≡ append a (append b c)
append_assoc String.[] b c = refl
append_assoc (String.◌∷◌ x a) b c = ap (String.◌∷◌ x) (append_assoc a b c)

drop-append : (a b : String) → drop_text (text_length a) (append a b) ≡ b
drop-append String.[] b = refl
drop-append (String.◌∷◌ x a) b = drop-append a b

span-append : (p : ℕ → Bool) (s : String) → append (span p s).0 (span p s).1 ≡ s
unfolding span
span-append p String.[] = refl
span-append p (String.◌∷◌ c s) = elim (Bool-cases (p (code c))) [
  | inl e ↦ rw e (ap (String.◌∷◌ c) (span-append p s))
  | inr e ↦ rw e refl
]

suffix-append : (s : String) → append (suffix s).0 (suffix s).1 ≡ s
unfolding suffix
suffix-append String.[] = refl
suffix-append (String.◌∷◌ c s) =
    elim (Bool-cases (code c == b'#' && not ((span is_env s).0 =s= ""))) [
      | inl e ↦ rw e (ap (String.◌∷◌ c) (span-append is_env s))
      | inr e ↦ rw e refl
    ]

-- A name and what follows it make up the text.
name_at-append : (s name rest : String) → name_at s ≡ some (name, rest) → append name rest ≡ s
unfolding name_at
name_at-append String.[] name rest h = cc h
name_at-append (String.◌∷◌ c s) name rest h = elim (Bool-cases (is_first (code c))) [
  | inr e ↦ let bad : none ≡ some (name, rest) = sym (rw e refl) ∙ h in cc bad
  | inl e ↦
      let front = (span is_ident s).0 in
      let back = (span is_ident s).1 in
      let found : some (String.◌∷◌ c (append front (suffix back).0), (suffix back).1)
          ≡ some (name, rest) =
        sym (rw e refl) ∙ h in
      let same_name : String.◌∷◌ c (append front (suffix back).0) ≡ name = cc found in
      let same_rest : (suffix back).1 ≡ rest = cc found in
      sym (ap₂ append same_name same_rest)
      ∙ ap (String.◌∷◌ c) (
          append_assoc front (suffix back).0 (suffix back).1
          ∙ ap (append front) (suffix-append back)
          ∙ span-append is_ident s)
]

module _ (extra : List (String × String)) (environ : List (String × String))
    (unknown : (name : String) → look_up false extra environ name ≡ none) where
  resolve_var-unknown : (name : String) → resolve_var false extra environ name ≡ ok none
  unfolding resolve_var
  resolve_var-unknown name =
      elim (Bool-cases (has_code b'#' (codes name) && is_none (look_up false extra environ name))) [
        | inl e ↦ rw (e, unknown (base_name name)) refl
        | inr e ↦ rw (e, unknown name) refl
      ]

  inline_sub-unknown :
      (n : ℕ) (s : String) → inline_sub false extra environ n s ≡ ok (drop_text n s)
  unfolding inline_sub
  inline_sub-unknown zero String.[] = refl
  inline_sub-unknown (suc n) String.[] = refl
  inline_sub-unknown (suc n) (String.◌∷◌ c s) = inline_sub-unknown n s
  inline_sub-unknown zero (String.◌∷◌ c s) = elim (Bool-cases (code c == b'$')) [
    | inr e ↦ rw (e, inline_sub-unknown 0 s) refl
    | inl e ↦ elim (Option-cases (name_at s)) [
      | inl f ↦ rw (e, f, inline_sub-unknown 0 s) refl
      | inr ((name, rest), f) ↦
          rw (e, f, resolve_var-unknown name, inline_sub-unknown (text_length name) s)
            (ap (λ t. ok (String.◌∷◌ c t))
              (ap (λ x. append name (drop_text (text_length name) x))
                  (sym (name_at-append s name rest f))
                ∙ ap (append name) (drop-append name rest)
                ∙ name_at-append s name rest f))
    ]
  ]

  resolve_text-unknown : (s : String) → resolve_text false extra environ s ≡ ok s
  unfolding resolve_text
  resolve_text-unknown s = elim (Bool-cases (not (has_code b'$' (codes s)))) [
    | inl e ↦ rw e refl
    | inr e ↦ elim (Bool-cases (is_env_ref s)) [
      | inl f ↦ rw (e, f, resolve_var-unknown (tail false extra environ s)) refl
      | inr f ↦ rw (e, f) (inline_sub-unknown 0 s)
    ]
  ]

  mutual
    unfolding resolve_env_vars

    value_kept : (v : Value) → resolve_env_vars false extra environ v ≡ ok v
    value_kept null = refl
    value_kept (bool b) = refl
    value_kept (int n) = refl
    value_kept (float is_zero shown) = refl
    value_kept (text s) = ap (as_text false extra environ) (resolve_text-unknown s)
    value_kept (items vs) = ap (as_items false extra environ) (items_kept vs)
    value_kept (mapping fs) = ap (as_mapping false extra environ) (fields_kept fs)

    items_kept : (vs : Items) → resolve_items false extra environ vs ≡ ok vs
    items_kept no_items = refl
    items_kept (item v vs) = ap₂ (an_item false extra environ) (value_kept v) (items_kept vs)

    fields_kept : (fs : Fields) → resolve_fields false extra environ fs ≡ ok fs
    fields_kept no_fields = refl
    fields_kept (field k v fs) = ap₂ (a_field false extra environ k) (value_kept v) (fields_kept fs)

  -- If no name has a value among the secrets or in the environment, an app definition is left as it is.
  pub resolve_env_vars-unknown : (v : Value) → resolve_env_vars false extra environ v ≡ ok v
  resolve_env_vars-unknown v = value_kept v
