-- ===== src/Tests/Skills.antt =====
-- The files of skills at concrete inputs.

use jadeenvoy.Prelude.{
  String, ◌≡◌, refl, true, false, List, [], ◌∷◌, arith, str_eq, if◌then◌else◌, Option, some, none,
  All, Bool-cases, inl, inr, ◌<>◌, subst,
}
use jadeenvoy.Harness.Paths.{
  SkillRow, SkillRef, mount_skills, mount_files, skill_dir, sanitize_name, sanitize_bytes,
  safe_relative_path, split_slash, replace_backslashes, is_plain, unsafe_path, mount_refs,
}
use jadeenvoy.Harness.Paths.Inside.{walk}
use jadeenvoy.Harness.Paths.Mounts.{InSkills, mount_skills-InSkills}

abbrev notes : SkillRow
notes = record {
  name = "my notes";
  files =
      record { path = "a/b.md"; content = "first" }
      ∷ record { path = "../c.md"; content = "second" }
      ∷ [];
  skill_md = "Read a/b.md.";
}

abbrev skill_table : String → Option SkillRow
skill_table id = if str_eq id "skill_1" then some notes else none

abbrev refs : List SkillRef
refs = record { type = "custom"; skill_id = "skill_1" } ∷ []

-- The second file's path is refused, the first one is written.
one_file :
    mount_skills skill_table (λ p. false) refs
    ≡ ((some (unsafe_path "../c.md"), ""), ("/home/user/.skills/my_notes/a/b.md", "first") ∷ [])
unfolding mount_skills mount_refs mount_files skill_dir sanitize_name sanitize_bytes
    safe_relative_path split_slash replace_backslashes
one_file = refl

notes-plain : is_plain (sanitize_name notes.name) ≡ true
unfolding sanitize_name sanitize_bytes
notes-plain = refl

abbrev name_of : Option SkillRow → String
name_of none = ""
name_of (some s) = s.name

table-plain :
    (id : String) (s : SkillRow) → skill_table id ≡ some s → is_plain (sanitize_name s.name) ≡ true
table-plain id s h = elim (Bool-cases (str_eq id "skill_1")) [
  | inl same ↦ subst (λ o. is_plain (sanitize_name (name_of o)) ≡ true) (rw same at h) notes-plain
  | inr differs ↦ ground arith
]

mount_skills-InSkills_example :
    All (λ w. InSkills w.0) (mount_skills skill_table (λ p. false) refs).1
mount_skills-InSkills_example = mount_skills-InSkills skill_table (λ p. false) table-plain refs

-- A skill called ".." keeps its name, and its files land beside the directory of the skills.
dots_kept : walk [] (split_slash (skill_dir ".." <> "a.md")) ≡ "a.md" ∷ "user" ∷ "home" ∷ []
unfolding skill_dir sanitize_name sanitize_bytes split_slash
dots_kept = refl

-- Two backslashes separate names, one does not.
one_backslash : safe_relative_path "a\\..\\b" ≡ true
unfolding safe_relative_path split_slash replace_backslashes
one_backslash = refl

two_backslashes : safe_relative_path "a\\\\..\\\\b" ≡ false
unfolding safe_relative_path split_slash replace_backslashes
two_backslashes = refl
