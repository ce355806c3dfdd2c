-- ===== src/Harness/Paths.antt =====
-- internal/harness/skills.go and internal/harness/resources.go: the names of the files that a
-- session's skills and memory stores put into its sandbox.
use jadeenvoy.Action.{written}
use jadeenvoy.Prelude.{
  ℕ, zero, suc, String, ◌≡◌, refl, Bool, true, false, List, [], ◌∷◌, arith, str_eq, if◌then◌else◌,
  ◌&&◌, ◌||◌, not, leb, ltb, ◌==◌, suc, Option, none, some, ◌++◌, ◌<>◌, byte_count,
}
use Prim.Native.Char.{Char, code}
use Prim.Native.String.{[], ◌∷◌}
pub mod Inside
pub mod Mounts

abbrev is_name_char : ℕ → Bool
is_name_char n =
    (leb 97 n && leb n 122)
    || (leb 65 n && leb n 90)
    || (leb 48 n && leb n 57)
    || n == 45
    || n == 95
    || n == 46

abbrev pub underscores : ℕ → String → String
underscores zero s = s
underscores (suc n) s = "_" ∷ underscores n s

-- The loop of sanitizeName, which writes an underscore for each byte.
unfoldable pub sanitize_bytes : String → String
sanitize_bytes [] = []
sanitize_bytes (c ∷ s) =
    let rest = sanitize_bytes s in
    if is_name_char (code c) then c ∷ rest else underscores (byte_count (code c)) rest

unfoldable pub sanitize_name : String → String
unfolding sanitize_bytes
sanitize_name s = let out = sanitize_bytes s in if str_eq out "" then "store" else out

abbrev pub put_first : Char → List String → List String
put_first c [] = (c ∷ []) ∷ []
put_first c (s ∷ ss) = (c ∷ s) ∷ ss

-- strings.Split at "/"
unfoldable pub split_slash : String → List String
split_slash [] = [] ∷ []
split_slash (c ∷ s) =
    let rest = split_slash s in if code c == 47 then [] ∷ rest else put_first c rest

-- strings.ReplaceAll of two backslashes by "/"
unfoldable pub replace_backslashes : String → String
replace_backslashes [] = []
replace_backslashes (c ∷ []) = c ∷ []
replace_backslashes (c ∷ d ∷ s) =
    let after = replace_backslashes s in
    let rest = replace_backslashes (d ∷ s) in
    if code c == 92 && code d == 92 then "/" ∷ after else c ∷ rest

abbrev pub is_plain : String → Bool
is_plain s = not (str_eq s "" || str_eq s "." || str_eq s "..")

abbrev pub all_plain : List String → Bool
all_plain [] = true
all_plain (s ∷ ss) = is_plain s && all_plain ss

abbrev starts_with_slash : String → Bool
starts_with_slash [] = false
starts_with_slash (c ∷ s) = code c == 47

abbrev starts_with_backslashes : String → Bool
starts_with_backslashes [] = false
starts_with_backslashes (c ∷ []) = false
starts_with_backslashes (c ∷ d ∷ s) = code c == 92 && code d == 92

unfoldable pub safe_relative_path : String → Bool
safe_relative_path p =
    if str_eq p "" || starts_with_slash p || starts_with_backslashes p
    then false
    else all_plain (split_slash (replace_backslashes p))

unfoldable pub skill_dir : String → String
skill_dir name = "/home/user/.skills/" <> (sanitize_name name <> "/")

pub record SkillFile : Type 0 where
  pub path : String
  pub content : String

-- What the mounting reads of a skill, its files decoded.
pub record SkillRow : Type 0 where
  pub name : String
  pub files : List SkillFile
  pub skill_md : String

pub record SkillRef : Type 0 where
  pub type : String
  pub skill_id : String

pub data MountError : Type 0 where
  no_skill unsafe_path write_failed : String → MountError

-- The writes to the sandbox that succeeded, a path and its content each, in their order.
abbrev pub Writes : Type 0
Writes = List (String × String)

abbrev pub prompt_part : SkillRow → List String
prompt_part skill =
    if str_eq skill.skill_md ""
    then []
    else ("\n\n[Skill: " <> (skill.name <> ("]\n" <> skill.skill_md))) ∷ []

-- strings.Join with a line break
abbrev join : List String → String
join [] = ""
join (s ∷ ss) = let rest = join ss in elim ss [ [] ↦ s | t ∷ ts ↦ s <> ("\n" <> rest) ]

-- The table of skills, and the paths that the sandbox fails to write.
module _ (get_skill : String → Option SkillRow) (refused : String → Bool) where
  -- The inner loop: the first error ends it, and the files written so far stay.
  unfoldable pub mount_files : String → List SkillFile → Writes → Option MountError × Writes
  mount_files dir [] done = (none, done)
  mount_files dir (f ∷ fs) done =
      let rest = mount_files dir fs (done ++ (dir <> f.path, f.content) ∷ []) in
      if not (safe_relative_path f.path)
      then (some (unsafe_path f.path), done)
      else if refused (dir <> f.path)
      then (some (write_failed f.path), done)
      else rest

  -- The outer loop: the parts of the system prompt, or the first error.
  unfoldable pub mount_refs :
      List SkillRef → List String → Writes → (Option MountError × List String) × Writes
  mount_refs [] parts done = ((none, parts), done)
  mount_refs (ref ∷ refs) parts done =
      let skip = mount_refs refs parts done in
      if not (str_eq ref.type "custom") || str_eq ref.skill_id ""
      then skip
      else elim (get_skill ref.skill_id) [
        | none ↦ ((some (no_skill ref.skill_id), []), done)
        | some skill ↦
            let (e, written) = mount_files (skill_dir skill.name) skill.files done in
            let rest = mount_refs refs (parts ++ prompt_part skill) written in
            elim e [ some x ↦ ((some x, []), written) | none ↦ rest ]
      ]

  -- mountSkills, on the references that the agent's snapshot lists: none leaves the prompt empty.
  unfoldable pub mount_skills : List SkillRef → (Option MountError × String) × Writes
  mount_skills refs =
      let ((e, parts), written) = mount_refs refs [] [] in ((e, join parts), written)
