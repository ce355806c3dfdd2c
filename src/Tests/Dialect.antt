-- ===== src/Tests/Dialect.antt =====
-- Queries and their placeholders at concrete inputs.
use jadeenvoy.Prelude.{false, ◌≡◌, refl, [], ◌∷◌, ◌<>◌, decimal}
use jadeenvoy.Dialect.{
  bind, bind_from, bind_step, dialect_bind, dialect_for_driver, double_quotes, json_text_equals,
  postgres, postgres_bind, sql_string_literal,
}
use jadeenvoy.Dialect.Bind.{state, bind-sql_string_literal, postgres_bind-assembled}

postgres_bind-assembled_example :
    postgres_bind "SELECT 'it''s ?' WHERE a = ? AND b = ?"
    ≡ "SELECT 'it''s ?' WHERE a = $1 AND b = $2"
unfolding decimal
postgres_bind-assembled_example = postgres_bind-assembled "SELECT 'it''s ?' WHERE a = ? AND b = ?"

bind-sql_string_literal_example :
    bind_from (state 1 false false) (sql_string_literal "it's ?" <> " = a OR b = ?")
    ≡ sql_string_literal "it's ?" <> bind_from (state 1 false false) " = a OR b = ?"
bind-sql_string_literal_example = bind-sql_string_literal "it's ?" " = a OR b = ?" 1

-- The driver decides, and a value stands in its query with its quotes doubled.
bound :
    (bind "sqlite" "a = ?" ≡ "a = ?")
    × ((bind "postgres" "a = ?" ≡ "a = $1")
        × (json_text_equals postgres "model" ("a" ∷ "b" ∷ []) "it's"
            ≡ "(model #>> '{a,b}') = 'it''s'"))
unfolding bind dialect_for_driver dialect_bind postgres_bind bind_from bind_step json_text_equals
    sql_string_literal double_quotes decimal
bound = (refl, (refl, refl))
