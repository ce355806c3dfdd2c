-- ===== src/Dialect/Bind.antt =====
-- The placeholders that postgresBind of internal/store/dialect.go writes.
use jadeenvoy.Prelude.{
  ℕ, ◌+◌, String, Bool, true, false, not, ◌≡◌, refl, ◌&&◌, List, [], ◌∷◌, ap, Bool-cases, inl, inr,
  arith, sym, ◌∙◌, if◌then◌else◌, ◌<>◌, ◌==◌, decimal,
}
use Prim.Native.Char.{Char, code}
use Prim.Native.String.{[], ◌∷◌}
use text.Mathlib.TextLemmas.{nil-append, cons-append, append_assoc}
use jadeenvoy.Dialect.{
  BindState, bind_from, bind_step, double_quotes, postgres_bind, sql_string_literal, starts_quote,
}
use jadeenvoy.Dialect.Pieces.{assembled, numbered, onto_first, split_quotes}

-- The loop with a single flag, which every quote turns over.
toggled : ℕ → Bool → String → String
toggled n inside [] = []
toggled n inside (c ∷ s) =
    if code c == 39
    then c ∷ toggled n (not inside) s
    else if code c == 63 && not inside
    then "$" <> (decimal n <> toggled (n + 1) inside s)
    else c ∷ toggled n inside s

abbrev pub state : ℕ → Bool → Bool → BindState
state n inside skip = record { arg = n; in_single = inside; skip = skip }

-- The second of two quotes turns the flag back.
agree :
    (s : String)
    → ((n : ℕ) (i : Bool) → bind_from (state n i false) s ≡ toggled n i s)
      × ((n : ℕ) → starts_quote s ≡ true → bind_from (state n true true) s ≡ toggled n false s)
unfolding bind_from bind_step toggled
agree [] = ((λ n i. refl), (λ n h. refl))
agree (c ∷ s) =
    let here = (agree s).0 in (turned here (agree s).1, λ n h. rw h (ap (λ t. c ∷ t) (here n true)))
  where
    turned :
        ((n : ℕ) (i : Bool) → bind_from (state n i false) s ≡ toggled n i s)
        → ((n : ℕ) → starts_quote s ≡ true → bind_from (state n true true) s ≡ toggled n false s)
        → (n : ℕ) (i : Bool) → bind_from (state n i false) (c ∷ s) ≡ toggled n i (c ∷ s)
    turned here second n true = elim (Bool-cases (code c == 39)) [
      | inl quote ↦ elim (Bool-cases (starts_quote s)) [
        | inl two ↦ rw (quote, two) (ap (λ t. c ∷ t) (second n two))
        | inr one ↦ rw (quote, one) (ap (λ t. c ∷ t) (here n false))
      ]
      | inr other ↦ elim (Bool-cases (code c == 63)) [
        | inl mark ↦ rw (other, mark) (ap (λ t. c ∷ t) (here n true))
        | inr no_mark ↦ rw (other, no_mark) (ap (λ t. c ∷ t) (here n true))
      ]
    ]
    turned here second n false = elim (Bool-cases (code c == 39)) [
      | inl quote ↦ rw quote (ap (λ t. c ∷ t) (here n true))
      | inr other ↦ elim (Bool-cases (code c == 63)) [
        | inl mark ↦ rw (other, mark) (ap (λ t. "$" <> (decimal n <> t)) (here (n + 1) false))
        | inr no_mark ↦ rw (other, no_mark) (ap (λ t. c ∷ t) (here n false))
      ]
    ]

onto-inside :
    (n : ℕ) (c : Char) (ps : List String)
    → assembled n true (onto_first c ps) ≡ c ∷ assembled n true ps
onto-inside n c [] = rw (cons-append, nil-append) refl
onto-inside n c (p ∷ ps) = rw cons-append refl

onto-mark :
    (n : ℕ) (c : Char) (ps : List String)
    → code c == 63 ≡ true
    → assembled n false (onto_first c ps) ≡ "$" <> (decimal n <> assembled (n + 1) false ps)
onto-mark n c [] h = rw h (rw (append_assoc "$" _ _, append_assoc (decimal n) _ _, nil-append) refl)
onto-mark n c (p ∷ ps) h = rw h (
    rw (append_assoc "$" _ _, append_assoc (decimal n) _ _)
      (ap (λ k. "$" <> (decimal n <> (numbered (n + 1) p <> assembled k true ps))) (omega arith)))

onto-outside :
    (n : ℕ) (c : Char) (ps : List String)
    → code c == 63 ≡ false
    → assembled n false (onto_first c ps) ≡ c ∷ assembled n false ps
onto-outside n c [] h = rw h (rw (cons-append, nil-append) refl)
onto-outside n c (p ∷ ps) h = rw h (rw cons-append refl)

quote_no_mark : (c : Char) → code c == 39 ≡ true → code c == 63 ≡ false
quote_no_mark c h = ground (arith, h)

n_zero : (n : ℕ) → n + 0 ≡ n
n_zero n = omega arith

toggled-assembled : (s : String) (n : ℕ) (i : Bool) → toggled n i s ≡ assembled n i (split_quotes s)
unfolding toggled
toggled-assembled [] n true = rw nil-append refl
toggled-assembled [] n false = rw nil-append refl
toggled-assembled (c ∷ s) n true = elim (Bool-cases (code c == 39)) [
  | inl quote ↦ rw quote (
      rw
        (
          toggled-assembled s n false,
          nil-append,
          onto-outside n c (split_quotes s) (quote_no_mark c quote),
        )
        refl)
  | inr other ↦ elim (Bool-cases (code c == 63)) [
    | inl mark ↦
        rw (other, mark) (rw (toggled-assembled s n true, onto-inside n c (split_quotes s)) refl)
    | inr no_mark ↦
        rw (other, no_mark) (rw (toggled-assembled s n true, onto-inside n c (split_quotes s)) refl)
  ]
]
toggled-assembled (c ∷ s) n false = elim (Bool-cases (code c == 39)) [
  | inl quote ↦ rw quote (
      rw (toggled-assembled s n true, nil-append, onto-inside (n + 0) c (split_quotes s), n_zero n)
        refl)
  | inr other ↦ elim (Bool-cases (code c == 63)) [
    | inl mark ↦
        rw (other, mark)
          (rw (toggled-assembled s (n + 1) false, onto-mark n c (split_quotes s) mark) refl)
    | inr no_mark ↦
        rw (other, no_mark)
          (rw (toggled-assembled s n false, onto-outside n c (split_quotes s) no_mark) refl)
  ]
]

-- postgresBind numbers the question marks outside of literals from 1 on and changes nothing else:
-- of the texts between the quotes of the query, every second one stands in a literal.
pub postgres_bind-assembled :
    (query : String) → postgres_bind query ≡ assembled 1 false (split_quotes query)
unfolding postgres_bind
postgres_bind-assembled query = (agree query).0 1 false ∙ toggled-assembled query 1 false

toggled-double_quotes :
    (value rest : String) (n : ℕ)
    → toggled n true (double_quotes value <> ("'" ∷ rest))
      ≡ double_quotes value <> ("'" ∷ toggled n false rest)
unfolding double_quotes toggled
toggled-double_quotes [] rest n = rw nil-append (rw nil-append refl)
toggled-double_quotes (c ∷ value) rest n = elim (Bool-cases (code c == 39)) [
  | inl quote ↦ rw quote (
      rw (cons-append, cons-append, cons-append, cons-append, quote)
        (rw
          (
            cons-append c (c ∷ double_quotes value) ("'" ∷ toggled n false rest),
            cons-append c (double_quotes value) ("'" ∷ toggled n false rest),
          )
          (ap (λ k. c ∷ c ∷ k) (toggled-double_quotes value rest n))))
  | inr other ↦ rw other (
      rw (cons-append, cons-append, other)
        (elim (Bool-cases (code c == 63)) [
          | inl mark ↦ rw mark (
              rw (cons-append c (double_quotes value) ("'" ∷ toggled n false rest))
                (ap (λ k. c ∷ k) (toggled-double_quotes value rest n)))
          | inr no_mark ↦ rw no_mark (
              rw (cons-append c (double_quotes value) ("'" ∷ toggled n false rest))
                (ap (λ k. c ∷ k) (toggled-double_quotes value rest n)))
        ]))
]

literal-append :
    (value rest : String)
    → sql_string_literal value <> rest ≡ "'" ∷ (double_quotes value <> ("'" ∷ rest))
unfolding sql_string_literal
literal-append value rest = rw cons-append (
    rw (append_assoc (double_quotes value) "'" rest) (
      ap (λ k. "'" ∷ (double_quotes value <> k))
        (cons-append "'" "" rest ∙ ap (λ k. "'" ∷ k) (nil-append rest))))

-- A value that sqlStringLiteral has put into a query keeps its text, and the numbering goes on
-- behind it as if it were not there.
pub bind-sql_string_literal :
    (value rest : String) (n : ℕ)
    → bind_from (state n false false) (sql_string_literal value <> rest)
      ≡ sql_string_literal value <> bind_from (state n false false) rest
unfolding toggled
bind-sql_string_literal value rest n =
    (agree (sql_string_literal value <> rest)).0 n false
    ∙ rw (literal-append value rest, literal-append value (bind_from (state n false false) rest))
        (ap (λ k. "'" ∷ k)
          (toggled-double_quotes value rest n
            ∙ ap (λ k. double_quotes value <> ("'" ∷ k)) (sym ((agree rest).0 n false))))
