-- ===== src/Apps/Files/Kept.antt =====
-- What the operations on app files of harness/app_manager.py keep.
use testharness.Prelude.{
  ℕ, String, ◌=s=◌, eq_iff, ◌≡◌, ◌⊎◌, refl, sym, ap, subst, if◌then◌else◌, ◌∙◌, inl, inr, Bool,
  true, false, not, ◌||◌, Option, none, some, List, [], ◌∷◌, Bool-cases, Option-cases, is_none,
}
use testharness.Config.{Value, null, bool, int, float, text, items, mapping, Fields, get_field}
use testharness.Apps.Urls.{validate_app_urls}
use testharness.Apps.Files.{
  Files, Managed, done, refused, raised, put, remove, slugify_app_name, archived_as, archive_app,
  restored_as, restore_app, write_at, named_write, write_app,
}

-- A file of the slug with the content is there, among the apps or archived.
abbrev pub Holds : Files → String → String → Type 0
Holds fs k content = (fs.active k ≡ some content) ⊎ (fs.archived k ≡ some content)

put-remove :
    (slug content : String) (files : String → Option String) (k : String)
    → files slug ≡ some content
    → put slug content (remove slug files) k ≡ files k
put-remove slug content files k h = elim (Bool-cases (slug =s= k)) [
  | inl e ↦ rw e (sym h ∙ ap files ((eq_iff slug k).0 e))
  | inr e ↦ rw e refl
]

remove-put :
    (slug content : String) (files : String → Option String) (k : String)
    → files slug ≡ none
    → remove slug (put slug content files) k ≡ files k
remove-put slug content files k h = elim (Bool-cases (slug =s= k)) [
  | inl e ↦ rw e (sym h ∙ ap files ((eq_iff slug k).0 e))
  | inr e ↦ rw e refl
]

-- A move of the content of a slug from some files to others, where it was free, keeps every content.
moved :
    (slug content : String) (from to : String → Option String) (k c : String)
    → from slug ≡ some content
    → to slug ≡ none
    → (from k ≡ some c) ⊎ (to k ≡ some c)
    → (remove slug from k ≡ some c) ⊎ (put slug content to k ≡ some c)
moved slug content from to k c f t h = elim (Bool-cases (slug =s= k)) [
  | inr e ↦ rw e h
  | inl e ↦
      let same = (eq_iff slug k).0 e in
      elim h [
        | inl g ↦ rw e (inr (sym f ∙ ap from same ∙ g))
        | inr g ↦ let bad : none ≡ some c = sym t ∙ ap to same ∙ g in cc bad
      ]
]

or-true : (b : Bool) → (b || true) ≡ true
or-true true = refl
or-true false = refl

swapped : {A B : Type 0} → A ⊎ B → B ⊎ A
swapped (inl a) = inr a
swapped (inr b) = inl b

module _ (is_space : ℕ → Bool) (strip : String → String) (lower : String → String) where
  archive_app-done :
      (app_name : String) (fs fs' : Files)
      → archive_app is_space strip lower app_name fs ≡ done fs'
      → (content : String) × (fs.active (slugify_app_name is_space strip lower app_name)
          ≡ some content)
        × (fs.archived (slugify_app_name is_space strip lower app_name) ≡ none)
        × (record {
          active = remove (slugify_app_name is_space strip lower app_name) fs.active;
          archived = put (slugify_app_name is_space strip lower app_name) content fs.archived;
        }
            ≡ fs')
  unfolding archive_app
  archive_app-done app_name fs fs' h = elim (Bool-cases (slug =s= "")) [
    | inl e ↦ let bad : refused ≡ done fs' = sym (rw e refl) ∙ h in cc bad
    | inr e ↦ by (fs.active slug) (fs.archived slug) refl refl (sym (rw e refl) ∙ h)
  ]
    where
      slug : String
      slug = slugify_app_name is_space strip lower app_name

      by :
          (a b : Option String)
          → fs.active slug ≡ a
          → fs.archived slug ≡ b
          → archived_as is_space strip lower slug a b fs ≡ done fs'
          → (content : String) × (fs.active slug ≡ some content)
            × (fs.archived slug ≡ none)
            × (record { active = remove slug fs.active; archived = put slug content fs.archived }
                ≡ fs')
      by none b f g q = cc q
      by (some content) (some other) f g q = cc q
      by (some content) none f g q = (content, f, g, cc q)

  restore_app-done :
      (app_name : String) (fs fs' : Files)
      → restore_app is_space strip lower app_name fs ≡ done fs'
      → (content : String) × (fs.archived (slugify_app_name is_space strip lower app_name)
          ≡ some content)
        × (fs.active (slugify_app_name is_space strip lower app_name) ≡ none)
        × (record {
          active = put (slugify_app_name is_space strip lower app_name) content fs.active;
          archived = remove (slugify_app_name is_space strip lower app_name) fs.archived;
        }
            ≡ fs')
  unfolding restore_app
  restore_app-done app_name fs fs' h = by (fs.archived slug) (fs.active slug) refl refl h
    where
      slug : String
      slug = slugify_app_name is_space strip lower app_name

      by :
          (a b : Option String)
          → fs.archived slug ≡ a
          → fs.active slug ≡ b
          → restored_as is_space strip lower slug a b fs ≡ done fs'
          → (content : String) × (fs.archived slug ≡ some content)
            × (fs.active slug ≡ none)
            × (record { active = put slug content fs.active; archived = remove slug fs.archived }
                ≡ fs')
      by none b f g q = cc q
      by (some content) (some other) f g q = cc q
      by (some content) none f g q = (content, f, g, cc q)

  -- An app that has been archived can be restored, which gives the files there were before.
  pub restore-archive :
      (app_name : String) (fs fs' : Files)
      → archive_app is_space strip lower app_name fs ≡ done fs'
      → (fs'' : Files) × (restore_app is_space strip lower app_name fs' ≡ done fs'')
        × ((k : String) → (fs''.active k ≡ fs.active k) × (fs''.archived k ≡ fs.archived k))
  unfolding restore_app
  restore-archive app_name fs fs' h =
      let slug = slugify_app_name is_space strip lower app_name in
      let (content, there, free, same) = archive_app-done app_name fs fs' h in
      (
        record {
          active = put slug content (remove slug fs.active);
          archived = remove slug (put slug content fs.archived);
        },
        ap (restore_app is_space strip lower app_name) (sym same)
            ∙ rw ((eq_iff slug slug).1 refl) refl,
        (λ k. (
          put-remove slug content fs.active k there,
          remove-put slug content fs.archived k free,
        )),
      )

  module _ (urlsplit : String → Option (String × String)) (dump : Fields → String) where
    pub data Op : Type 0 where
      write : Fields → Op
      archive : String → Op
      restore : String → Op

    abbrev apply : Op → Files → Managed
    apply (write app_def) fs = write_app is_space strip lower urlsplit dump app_def fs
    apply (archive app_name) fs = archive_app is_space strip lower app_name fs
    apply (restore app_name) fs = restore_app is_space strip lower app_name fs

    -- An operation that is refused leaves the files as they are.
    abbrev files_after : Files → Managed → Files
    files_after fs (done fs') = fs'
    files_after fs refused = fs
    files_after fs raised = fs

    abbrev pub run : List Op → Files → Files
    run [] fs = fs
    run (op ∷ ops) fs = run ops (files_after fs (apply op fs))

    write_at-Holds :
        (slug : String) (app_def : Fields) (fs fs' : Files) (k c : String)
        → write_at is_space strip lower urlsplit dump slug app_def fs ≡ done fs'
        → Holds fs k c
        → Holds fs' k c
    write_at-Holds slug app_def fs fs' k c h m =
        elim (Bool-cases (slug =s= "" || not (is_none (fs.active slug)))) [
          | inl e ↦ let bad : refused ≡ done fs' = sym (rw e refl) ∙ h in cc bad
          | inr e ↦
              let same : done (record fs { active = put slug (dump app_def) fs.active })
                  ≡ done fs' =
                sym (rw e refl) ∙ h in
              let files : record fs { active = put slug (dump app_def) fs.active } ≡ fs' =
                cc same in
              let free : fs.active slug ≡ none = elim (Option-cases (fs.active slug)) [
                | inl f ↦ f
                | inr (a, f) ↦
                    let bad : true ≡ false = sym (rw f (or-true (slug =s= ""))) ∙ e in cc bad
              ] in
              subst (λ x. Holds x k c) files
                (elim m [
                  | inr g ↦ inr g
                  | inl g ↦ elim (Bool-cases (slug =s= k)) [
                    | inr f ↦ rw f (inl g)
                    | inl f ↦
                        let bad : none ≡ some c =
                          sym free ∙ ap fs.active ((eq_iff slug k).0 f) ∙ g in
                        cc bad
                  ]
                ])
        ]

    unnamed_write :
        (app_def : Fields) (fs' : Files)
        → (if validate_app_urls urlsplit lower strip true (mapping app_def)
            then raised
            else refused)
          ≡ done fs'
        → ⊥
    unnamed_write app_def fs' h =
        elim (Bool-cases (validate_app_urls urlsplit lower strip true (mapping app_def))) [
          | inl e ↦ let bad : raised ≡ done fs' = sym (rw e refl) ∙ h in cc bad
          | inr e ↦ let bad : refused ≡ done fs' = sym (rw e refl) ∙ h in cc bad
        ]

    op-Holds :
        (op : Op) (fs fs' : Files) (k c : String)
        → apply op fs ≡ done fs'
        → Holds fs k c
        → Holds fs' k c
    unfolding write_app
    op-Holds (write app_def) fs fs' k c h m = named (get_field "app" app_def) h
      where
        named :
            (o : Option Value)
            → named_write is_space strip lower urlsplit dump app_def fs o ≡ done fs'
            → Holds fs' k c
        named none q = cc q
        named (some (text name)) q =
            elim (Bool-cases (validate_app_urls urlsplit lower strip true (mapping app_def))) [
              | inr e ↦ let bad : refused ≡ done fs' = sym (rw e refl) ∙ q in cc bad
              | inl e ↦
                  write_at-Holds (slugify_app_name is_space strip lower name) app_def fs fs' k c
                    (sym (rw e refl) ∙ q) m
            ]
        named (some null) q = absurd (unnamed_write app_def fs' q)
        named (some (bool b)) q = absurd (unnamed_write app_def fs' q)
        named (some (int n)) q = absurd (unnamed_write app_def fs' q)
        named (some (float is_zero shown)) q = absurd (unnamed_write app_def fs' q)
        named (some (items vs)) q = absurd (unnamed_write app_def fs' q)
        named (some (mapping gs)) q = absurd (unnamed_write app_def fs' q)
    op-Holds (archive app_name) fs fs' k c h m =
        let (content, there, free, same) = archive_app-done app_name fs fs' h in
        let slug = slugify_app_name is_space strip lower app_name in
        subst (λ x. Holds x k c) same (moved slug content fs.active fs.archived k c there free m)
    op-Holds (restore app_name) fs fs' k c h m =
        let (content, there, free, same) = restore_app-done app_name fs fs' h in
        let slug = slugify_app_name is_space strip lower app_name in
        subst (λ x. Holds x k c) same
          (swapped (moved slug content fs.archived fs.active k c there free (swapped m)))

    -- No sequence of creations, archivings and restorings loses the content of a file.
    pub run-Holds :
        (ops : List Op) (fs : Files) (k c : String) → Holds fs k c → Holds (run ops fs) k c
    run-Holds [] fs k c m = m
    run-Holds (op ∷ ops) fs k c m =
        run-Holds ops (files_after fs (apply op fs)) k c (kept (apply op fs) refl)
      where
        kept : (r : Managed) → apply op fs ≡ r → Holds (files_after fs r) k c
        kept (done fs') e = op-Holds op fs fs' k c e m
        kept refused e = m
        kept raised e = m
