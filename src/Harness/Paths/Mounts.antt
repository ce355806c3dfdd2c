-- ===== src/Harness/Paths/Mounts.antt =====
-- Where mountSkills of internal/harness/skills.go puts its files.
use jadeenvoy.Action.{written}
use jadeenvoy.Prelude.{
  String, ◌≡◌, refl, Bool, true, false, List, [], ◌∷◌, arith, str_eq, ◌==◌, Bool-cases, inl, inr,
  suc, zero, ℕ, ◌<>◌, ◌||◌, some, All, Option, All-append, Option-cases, not, byte_count,
}
use Prim.Native.Char.{code}
use Prim.Native.String.{[], ◌∷◌}
use text.Mathlib.TextLemmas.{nil-append, cons-append, append_assoc}
use mathlib.Core.Path.{ap, ◌∙◌}
use Prim.Native.Nat.{ℕ, zero, suc}
use jadeenvoy.Harness.Paths.{
  split_slash, is_plain, safe_relative_path, sanitize_name, sanitize_bytes, skill_dir, underscores,
  put_first, SkillFile, SkillRef, SkillRow, Writes, mount_files, mount_skills, mount_refs,
}
use jadeenvoy.Harness.Paths.Inside.{split-other, walk, descend, safe_path_descends}

abbrev has_slash : String → Bool
has_slash [] = false
has_slash (c ∷ s) = code c == 47 || has_slash s

-- A name without a slash, put before a path, is its first part.
split_first :
    (s p : String) → has_slash s ≡ false → split_slash (s <> ("/" <> p)) ≡ s ∷ split_slash p
split_first [] p h = unfold split_slash in rw (nil-append, cons-append, nil-append) refl
split_first (c ∷ s) p h = rw cons-append (
    split-other c (s <> ("/" <> p)) (ground arith)
    ∙ ap (put_first c) (split_first s p (ground arith)))

underscores-slash : (n : ℕ) (s : String) → has_slash s ≡ false → has_slash (underscores n s) ≡ false
underscores-slash zero s h = h
underscores-slash (suc n) s h = underscores-slash n s h

sanitize_bytes-slash : (s : String) → has_slash (sanitize_bytes s) ≡ false
unfolding sanitize_bytes
sanitize_bytes-slash [] = refl
sanitize_bytes-slash (c ∷ s) = ground (
  arith,
  sanitize_bytes-slash s,
  underscores-slash (byte_count (code c)) (sanitize_bytes s) (sanitize_bytes-slash s),
)

sanitize_name-slash : (s : String) → has_slash (sanitize_name s) ≡ false
unfolding sanitize_name
sanitize_name-slash s = elim (Bool-cases (str_eq (sanitize_bytes s) "")) [
  | inl empty ↦ rw empty refl
  | inr full ↦ rw full (sanitize_bytes-slash s)
]

-- The directory of a skill, innermost name first.
abbrev pub skill_home : String → List String
skill_home name = sanitize_name name ∷ ".skills" ∷ "user" ∷ "home" ∷ []

nest :
    (a b c d e f g h x : String)
    → (a <> (b <> (c <> (d <> (e <> (f <> (g <> h))))))) <> x
      ≡ a <> (b <> (c <> (d <> (e <> (f <> (g <> (h <> x)))))))
nest a b c d e f g h x = simp append_assoc

split-home :
    (x : String)
    → split_slash ("/home/user/.skills/" <> x) ≡ "" ∷ "home" ∷ "user" ∷ ".skills" ∷ split_slash x
split-home x =
    ap split_slash (nest "" "/" "home" "/" "user" "/" ".skills" "/" x)
    ∙ split_first "" ("home" <> ("/" <> ("user" <> ("/" <> (".skills" <> ("/" <> x)))))) refl
    ∙ ap (λ l. "" ∷ l)
        (split_first "home" ("user" <> ("/" <> (".skills" <> ("/" <> x)))) refl
          ∙ ap (λ l. "home" ∷ l)
              (split_first "user" (".skills" <> ("/" <> x)) refl
                ∙ ap (λ l. "user" ∷ l) (split_first ".skills" x refl)))

-- The parts of a skill's file.
split-skill_dir :
    (name file : String)
    → split_slash (skill_dir name <> file)
      ≡ "" ∷ "home" ∷ "user" ∷ ".skills" ∷ sanitize_name name ∷ split_slash file
unfolding skill_dir
split-skill_dir name file =
    ap split_slash (
      append_assoc "/home/user/.skills/" (sanitize_name name <> "/") file
      ∙ ap (λ s. "/home/user/.skills/" <> s) (append_assoc (sanitize_name name) "/" file))
    ∙ split-home (sanitize_name name <> ("/" <> file))
    ∙ ap (λ l. "" ∷ "home" ∷ "user" ∷ ".skills" ∷ l)
        (split_first (sanitize_name name) file (sanitize_name-slash name))

-- A file of a skill whose name is not "." nor ".." once sanitized: the path leads to the directory
-- of the skill and then one level down for each name of the file.
skill_file_below :
    (name file : String)
    → is_plain (sanitize_name name) ≡ true
    → safe_relative_path file ≡ true
    → walk [] (split_slash (skill_dir name <> file)) ≡ descend (skill_home name) (split_slash file)
skill_file_below name file plain safe =
    rw (split-skill_dir name file) (ground (arith, safe_path_descends (skill_home name) file safe))

-- A path that leads below the directory of a skill of this name, whatever the file system's
-- starting point, one level for each name of an accepted relative path.
pub record InSkills (path : String) : Type 0 where
  pub name : String
  pub file : String
  pub safe : safe_relative_path file ≡ true
  pub below : walk [] (split_slash path) ≡ descend (skill_home name) (split_slash file)

module _ (get_skill : String → Option SkillRow) (refused : String → Bool)
    (plain : (id : String) (s : SkillRow)
      → get_skill id ≡ some s
      → is_plain (sanitize_name s.name) ≡ true) where
  mount_files-InSkills :
      (name : String) (fs : List SkillFile) (done : Writes)
      → is_plain (sanitize_name name) ≡ true
      → All (λ w. InSkills w.0) done
      → All (λ w. InSkills w.0) (mount_files get_skill refused (skill_dir name) fs done).1
  unfolding mount_files
  mount_files-InSkills name [] done p a = a
  mount_files-InSkills name (f ∷ fs) done p a = elim (Bool-cases (safe_relative_path f.path)) [
    | inr unsafe ↦ rw unsafe a
    | inl safe ↦ elim (Bool-cases (refused (skill_dir name <> f.path))) [
      | inl fails ↦ rw (safe, fails) a
      | inr writes ↦
          rw (safe, writes)
            (mount_files-InSkills name fs _ p (
              All-append _ done _ a (
                record {
                  name = name;
                  file = f.path;
                  safe = safe;
                  below = skill_file_below name f.path p safe;
                },
                tt,
              )))
    ]
  ]

  mount_refs-InSkills :
      (refs : List SkillRef) (parts : List String) (done : Writes)
      → All (λ w. InSkills w.0) done
      → All (λ w. InSkills w.0) (mount_refs get_skill refused refs parts done).1
  unfolding mount_refs
  mount_refs-InSkills [] parts done a = a
  mount_refs-InSkills (ref ∷ refs) parts done a =
      elim (Bool-cases (not (str_eq ref.type "custom") || str_eq ref.skill_id "")) [
        | inl skips ↦ rw skips (mount_refs-InSkills refs parts done a)
        | inr custom ↦ elim (Option-cases (get_skill ref.skill_id)) [
          | inl missing ↦ rw (custom, missing) a
          | inr (skill, found) ↦
              let (e, written) =
                mount_files get_skill refused (skill_dir skill.name) skill.files done in
              let a' : All (λ w. InSkills w.0) written =
                mount_files-InSkills skill.name skill.files done (plain ref.skill_id skill found)
                  a in
              rw (custom, found)
                (elim (Option-cases e) [
                  | inl fine ↦ rw fine (mount_refs-InSkills refs _ written a')
                  | inr (x, failed) ↦ rw failed a'
                ])
        ]
      ]

  -- Whatever the skills, the references and the failing writes, and also when mountSkills ends with
  -- an error: each file that it writes lies below the directory of a skill, if no skill's name is
  -- "." or ".." once sanitized.
  pub mount_skills-InSkills :
      (refs : List SkillRef) → All (λ w. InSkills w.0) (mount_skills get_skill refused refs).1
  unfolding mount_skills
  mount_skills-InSkills refs = mount_refs-InSkills refs [] [] tt
