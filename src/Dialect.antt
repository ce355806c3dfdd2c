-- ===== src/Dialect.antt =====
-- internal/store/dialect.go: what the two databases are given for a query.
pub mod Pieces
pub mod Bind
use jadeenvoy.Prelude.{
  ℕ, ◌+◌, String, Bool, true, false, not, ◌&&◌, List, [], ◌∷◌, if◌then◌else◌, ◌<>◌, ◌==◌, decimal,
  str_eq,
}
use Prim.Native.Char.{Char, code}
use Prim.Native.String.{[], ◌∷◌}
use jadeenvoy.Errors.{Result, ok, err, message}

pub data Dialect : Type 0 where
  sqlite postgres : Dialect

unfoldable pub dialect_for_driver : String → Result Dialect
dialect_for_driver driver =
    if str_eq driver "sqlite"
    then ok sqlite
    else if str_eq driver "postgres"
    then ok postgres
    else err (message ("unsupported store driver " <> driver))

-- strings.ReplaceAll of a quote by two
unfoldable pub double_quotes : String → String
double_quotes [] = []
double_quotes (c ∷ s) =
    let rest = double_quotes s in if code c == 39 then c ∷ c ∷ rest else c ∷ rest

unfoldable pub sql_string_literal : String → String
sql_string_literal value = "'" ∷ (double_quotes value <> "'")

-- strings.Join
abbrev pub joined : String → List String → String
joined sep [] = ""
joined sep (p ∷ []) = p
joined sep (p ∷ q ∷ ps) = p <> (sep <> joined sep (q ∷ ps))

-- The loop variables of postgresBind: arg, inSingle, and whether the next byte is the second of two
-- quotes, which is written as it is.
pub record BindState : Type 0 where
  pub arg : ℕ
  pub in_single : Bool
  pub skip : Bool

-- A byte, or a numbered parameter.
pub data Piece : Type 0 where
  byte : Char → Piece
  parameter : ℕ → Piece

abbrev pub write : Piece → String → String
write (byte c) rest = c ∷ rest
write (parameter n) rest = "$" <> (decimal n <> rest)

abbrev pub starts_quote : String → Bool
starts_quote [] = false
starts_quote (c ∷ s) = code c == 39

-- The body of the loop, for the byte c with the bytes after it.
unfoldable pub bind_step : BindState → Char → String → Piece × BindState
bind_step st c rest =
    if st.skip
    then (byte c, record st { skip = false })
    else if code c == 39
    then (if st.in_single && starts_quote rest
        then (byte c, record st { skip = true })
        else (byte c, record st { in_single = not st.in_single }))
    else if code c == 63 && not st.in_single
    then (parameter st.arg, record st { arg = st.arg + 1 })
    else (byte c, st)

unfoldable pub bind_from : BindState → String → String
bind_from st [] = []
bind_from st (c ∷ s) = let (p, st') = bind_step st c s in write p (bind_from st' s)

unfoldable pub postgres_bind : String → String
postgres_bind query = bind_from (record { arg = 1; in_single = false; skip = false }) query

unfoldable pub dialect_bind : Dialect → String → String
dialect_bind sqlite query = query
dialect_bind postgres query = postgres_bind query

-- Store.bind for the driver of the store.
unfoldable pub bind : String → String → String
bind driver query = elim (dialect_for_driver driver) [ err e ↦ query | ok d ↦ dialect_bind d query ]

unfoldable pub json_bool_true : Dialect → String → String → String
json_bool_true sqlite column field = "json_extract(" <> (column <> (", '$." <> (field <> "') = 1")))
json_bool_true postgres column field =
    "(" <> (column <> ("->>'" <> (field <> "')::boolean = true")))

unfoldable pub json_text_equals : Dialect → String → List String → String → String
json_text_equals sqlite column path value =
    "json_extract("
    <> (column <> (", '$." <> (joined "." path <> ("') = " <> sql_string_literal value))))
json_text_equals postgres column path value =
    "(" <> (column <> (" #>> '{" <> (joined "," path <> ("}') = " <> sql_string_literal value))))
