-- ===== src/Memory/Mount.antt =====
-- The mounting of a memory store into the sandbox: the last part of internal/memory/service.go.
use jadeenvoy.Prelude.{
  ℕ, String, List, [], ◌∷◌, ◌++◌, Option, none, some, str_eq, if◌then◌else◌, strip_prefix, decimal,
  ◌<>◌, ◌==◌,
}
use Prim.Native.Char.{Char, code}
use Prim.Native.String.{[], ◌∷◌}
use jadeenvoy.Errors.{Result, ok, err, message, wrap}
use jadeenvoy.Action.{Outside, State}
use jadeenvoy.Memory.Rows.{MemoryRow, MemoryDb}
use jadeenvoy.Memory.Table.{list_memories}
use jadeenvoy.Harness.Paths.{split_slash}
use jadeenvoy.Harness.Paths.Inside.{walk}

pub record MountSpec : Type 0 where
  pub store_id : String
  pub store_name : String
  pub mount_path : String
  pub access : String
  pub instructions : String

-- strings.ReplaceAll of a quote by `'\''`
unfoldable pub escape_quotes : String → String
escape_quotes [] = []
escape_quotes (c ∷ s) =
    let rest = escape_quotes s in
    if code c == 39 then "'" <> ("\\" <> ("'" <> ("'" <> rest))) else c ∷ rest

unfoldable pub shell_quote : String → String
shell_quote s = "'" <> (escape_quotes s <> "'")

abbrev put_char : Char → Option String → Option String
put_char c none = none
put_char c (some s) = some (c ∷ s)

-- The text before the last slash.
unfoldable pub before_last_slash : String → Option String
before_last_slash [] = none
before_last_slash (c ∷ s) =
    let rest = before_last_slash s in
    elim rest [ some t ↦ some (c ∷ t) | none ↦ if code c == 47 then some [] else none ]

unfoldable pub parent_dir : String → String
parent_dir p = elim (before_last_slash p) [ none ↦ "." | some t ↦ if str_eq t "" then "." else t ]

-- The text of a directory, innermost name first.
abbrev pub dir_text : List String → String
dir_text [] = ""
dir_text (n ∷ ns) = dir_text ns <> ("/" <> n)

-- filepath.Join where the first element is absolute.
unfoldable pub join_path : String → String → String
join_path dir rel = elim (walk [] (split_slash (dir <> ("/" <> rel)))) [
  | [] ↦ "/"
  | n ∷ ns ↦ dir_text (n ∷ ns)
]

abbrev pub trim_slash : String → String
trim_slash p = elim (strip_prefix "/" p) [ none ↦ p | some s ↦ s ]

-- base64Encode is base64.StdEncoding on the bytes of the text; Exec runs `bash -c` with a script and
-- gives the exit code and what the script wrote to stderr.
module _ (base64_encode : String → String) (exec_script : String → Result (ℕ × String)) where
  unfoldable pub write_file_script : String → String → String
  write_file_script path content =
      "mkdir -p "
      <> (shell_quote (parent_dir path)
          <> (" && echo "
              <> (shell_quote (base64_encode content) <> (" | base64 -d > " <> shell_quote path))))

  -- The loop over the memories; `run` holds the scripts that were run.
  unfoldable pub mount_each :
      MountSpec → List MemoryRow → List String → Result (Unit {0}) × List String
  mount_each spec [] run = (ok tt, run)
  mount_each spec (m ∷ ms) run =
      let full = join_path spec.mount_path (trim_slash m.path) in
      let script = write_file_script full m.content in
      let rest = mount_each spec ms (run ++ script ∷ []) in
      elim (exec_script script) [
        | err e ↦ (err (wrap ("write " <> (full <> ": ")) e), run ++ script ∷ [])
        | ok (code, stderr) ↦ if code == 0 then rest else (
          err (message ("write " <> (full <> (": exit " <> (decimal code <> (", " <> stderr)))))),
          run ++ script ∷ [],
        )
      ]

  unfoldable pub mount_to_sandbox :
      Outside
      → (String → String)
      → MountSpec
      → State MemoryDb
      → (Result (Unit {0}) × List String) × State MemoryDb
  mount_to_sandbox env sha256_hex spec w =
      let (r, w') = list_memories env sha256_hex spec.store_id "" 1000 w in
      elim r [ err e ↦ ((err e, []), w') | ok ms ↦ (mount_each spec ms [], w') ]

abbrev hint_line : MountSpec → String
hint_line sp =
    "- **" <> (sp.store_name <> ("** at `" <> (sp.mount_path <> ("` (" <> (sp.access <> ")\n")))))

abbrev hint_lines : List MountSpec → String
hint_lines [] = ""
hint_lines (sp ∷ sps) =
    let rest = hint_lines sps in
    hint_line sp
    <> (if str_eq sp.instructions "" then rest else ("  " <> (sp.instructions <> ("\n" <> rest))))

unfoldable pub system_prompt_hint : List MountSpec → String
system_prompt_hint [] = ""
system_prompt_hint (sp ∷ sps) =
    "\n\n# Available Memory Stores\nThe following memory stores are mounted as directories in your sandbox. Use file tools (read/write/edit) to interact with them.\n\n"
    <> hint_lines (sp ∷ sps)
