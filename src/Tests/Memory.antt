-- ===== src/Tests/Memory.antt =====
-- The memory stores at concrete inputs.
use jadeenvoy.Harness.Paths.{split_slash}
use jadeenvoy.Memory.Bounds.{IsBounded}
use jadeenvoy.Memory.Like.{like, some_end}
use jadeenvoy.Memory.Limits.{
  MemoryRequest, ask_create_store, ask_upsert, handle_all, handle_all-IsBounded,
}
use jadeenvoy.Memory.Mount.{
  escape_quotes, join_path, parent_dir, shell_quote, trim_slash, write_file_script,
}
use jadeenvoy.Memory.Quote.{write_file_script-words}
use jadeenvoy.Memory.Shell.{bare, in_quotes, shell_words}
use jadeenvoy.Memory.Faithful.{perform_each-Recorded}
use jadeenvoy.Memory.Table.{
  upsert_memory, get_memory, create_memory, create_memory_store, get_memory_store,
  insert_memory_version, new_memory, new_store, new_version, overwrite,
}
use jadeenvoy.Prelude.{
  String, ◌≡◌, refl, true, false, List, [], ◌∷◌, Option, some, ◌<>◌, decimal, ◌==◌, ◌+◌,
  strip_prefix,
}
use jadeenvoy.Errors.{ok}
use jadeenvoy.Action.{Outside, State, exec, query, each}
use jadeenvoy.Action.When.{When}
use jadeenvoy.Memory.Rows.{MemoryDb, MemoryRow, MemoryVersionRow, CreateMemoryInput}
use jadeenvoy.Memory.Statements.{insert_store, insert_memory, insert_version_row, update_memory_row}
use jadeenvoy.Memory.Calls.{
  MemoryCall, store_create, memory_upsert, perform_memory, perform_memories,
  perform_memories-IsSound,
}
use jadeenvoy.Memory.Sound.{IsSound}
use jadeenvoy.Memory.History.{Recorded}

abbrev outside : Outside
outside = record { new_id = λ p n. p <> decimal n; now_ms = λ n. 1000 + n; db_fault = λ n. false }

-- The tenth call of the database fails: the version of the second upsert.
abbrev tenth_fails : Outside
tenth_fails = record outside { db_fault = λ n. n == 9 }

abbrev hash : String → String
hash s = "sha:" <> s

abbrev no_rows_yet : State MemoryDb
no_rows_yet = record { db = record { stores = []; memories = []; versions = [] }; tick = 0 }

abbrev note : String → CreateMemoryInput
note text = record { memory_store_id = "mst0"; tenant_id = ""; path = "/a.md"; content = text }

abbrev memory_calls : List MemoryCall
memory_calls =
    store_create (record { tenant_id = ""; name = "notes"; description = "" })
    ∷ memory_upsert (note "one")
    ∷ memory_upsert (note "two")
    ∷ []

no_rows-IsSound : IsSound hash no_rows_yet.db
no_rows-IsSound = record { apart = tt; digested = tt; housed = tt }

no_rows-Recorded : Recorded no_rows_yet.db
no_rows-Recorded = record { at = λ id. tt }

perform_memories-IsSound_example :
    IsSound hash (perform_memories outside hash memory_calls no_rows_yet).db
perform_memories-IsSound_example =
    perform_memories-IsSound outside hash memory_calls no_rows_yet no_rows-IsSound

perform_each-Recorded_example :
    When (each (perform_memory outside hash) memory_calls no_rows_yet) (λ us w. Recorded w.db)
perform_each-Recorded_example =
    perform_each-Recorded outside hash memory_calls no_rows_yet (refl, (refl, (refl, tt)))
      no_rows-Recorded

abbrev contents : List MemoryRow → List String
contents [] = []
contents (m ∷ ms) = m.content ∷ contents ms

abbrev told : List MemoryVersionRow → List (Option String)
told [] = []
told (v ∷ vs) = v.content ∷ told vs

-- One memory with its two versions.
two_versions :
    let w = perform_memories outside hash memory_calls no_rows_yet in
    (contents w.db.memories ≡ "two" ∷ []) × (told w.db.versions ≡ some "one" ∷ some "two" ∷ [])
unfolding perform_memories perform_memory create_memory_store new_store get_memory_store
    upsert_memory create_memory new_memory overwrite insert_memory_version new_version get_memory
    exec query insert_store insert_memory insert_version_row update_memory_row decimal
two_versions = (refl, refl)

-- The content is overwritten, and the history still ends with the old one.
version_lost :
    let w = perform_memories tenth_fails hash memory_calls no_rows_yet in
    (contents w.db.memories ≡ "two" ∷ []) × (told w.db.versions ≡ some "one" ∷ [])
unfolding perform_memories perform_memory create_memory_store new_store get_memory_store
    upsert_memory create_memory new_memory overwrite insert_memory_version new_version get_memory
    exec query insert_store insert_memory insert_version_row update_memory_row decimal
version_lost = (refl, refl)

abbrev requests : List MemoryRequest
requests =
    ask_create_store "" "notes" ""
    ∷ ask_upsert "" "mst0" (record { path = "/a.md"; content = "one" })
    ∷ ask_upsert "" "mst0" (record { path = "a.md"; content = "two" })
    ∷ []

handle_all-IsBounded_example : IsBounded (handle_all outside hash requests no_rows_yet).db
handle_all-IsBounded_example = handle_all-IsBounded outside hash requests no_rows_yet tt

write_file_script-words_example :
    shell_words (write_file_script hash (λ s. ok (0, "")) "/mnt/it's; rm" "x")
    ≡ some (
        bare "mkdir"
        ∷ bare "-p"
        ∷ in_quotes (parent_dir "/mnt/it's; rm")
        ∷ bare "&&"
        ∷ bare "echo"
        ∷ in_quotes "sha:x"
        ∷ bare "|"
        ∷ bare "base64"
        ∷ bare "-d"
        ∷ bare ">"
        ∷ in_quotes "/mnt/it's; rm"
        ∷ [])
write_file_script-words_example = write_file_script-words hash (λ s. ok (0, "")) "/mnt/it's; rm" "x"

quoted_text : shell_quote "it's" ≡ "'it'\\''s'"
unfolding shell_quote escape_quotes
quoted_text = refl

abbrev a_row : MemoryRow
a_row = record {
  id = "mem0";
  memory_store_id = "mst0";
  tenant_id = "";
  path = "/A.md";
  content = "";
  content_sha256 = "";
  content_size = 0;
  created_at = 0;
  updated_at = 0;
}

-- The prefix /A selects /a.md as well, and /_ selects every path.
like_tests : (like "/A%" "/a.md" ≡ true) × (like "/_%" "/b.md" ≡ true)
unfolding like some_end
like_tests = (refl, refl)

-- A path with ".." leads out of the directory of its store.
path_escapes : join_path "/mnt/memory/notes/" (trim_slash "/../../../etc/x") ≡ "/etc/x"
unfolding join_path split_slash strip_prefix
path_escapes = refl
