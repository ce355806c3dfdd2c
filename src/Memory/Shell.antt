-- ===== src/Memory/Shell.antt =====
-- How a POSIX shell reads the texts that shellQuote of internal/memory/service.go writes.

use jadeenvoy.Prelude.{
  String, Bool, true, false, List, [], ◌∷◌, Option, none, some, ◌≡◌, refl, if◌then◌else◌,
  Bool-cases, inl, inr, ap, ◌∙◌, arith, ◌==◌, ◌<>◌,
}
use Prim.Native.Char.{Char, code}
use Prim.Native.String.{[], ◌∷◌}
use text.Mathlib.TextEquality.{Char-path}
use text.Mathlib.TextLemmas.{nil-append, cons-append, append_assoc, append-nil}
use jadeenvoy.Memory.Mount.{shell_quote, escape_quotes}

-- A word of a command: `quoted` if a part of it stood in quotes or behind a backslash, so that the
-- shell takes it for no operator.
pub data Token : Type 0 where
  bare in_quotes : String → Token

-- Where the reader stands: between two words, in a word, in single quotes, behind a backslash.
pub data Mode : Type 0 where
  between word quotes escaped : Mode

-- The rest of the word that is being read, whether a part of it is in_quotes, and the words after it.
abbrev pub Reading : Type 0
Reading = Option (String × (Bool × List Token))

abbrev pub push : Char → Reading → Reading
push c none = none
push c (some (t, (q, ts))) = some (c ∷ t, (q, ts))

abbrev pub mark : Reading → Reading
mark none = none
mark (some (t, (q, ts))) = some (t, (true, ts))

abbrev pub close_word : Reading → Reading
close_word none = none
close_word (some (t, (q, ts))) = some ("", (false, (if q then in_quotes t else bare t) ∷ ts))

-- The words of a POSIX shell, as far as spaces, single quotes and backslashes go.
unfoldable pub read : Mode → String → Reading
read between [] = some ("", (false, []))
read word [] = some ("", (false, []))
read quotes [] = none
read escaped [] = none
read between (c ∷ s) =
    let blank = read between s in
    let plain = push c (read word s) in
    let inside = mark (read quotes s) in
    let next = mark (read escaped s) in
    if code c == 32
    then blank
    else close_word (if code c == 39 then inside else if code c == 92 then next else plain)
read word (c ∷ s) =
    let blank = read between s in
    let plain = push c (read word s) in
    let inside = mark (read quotes s) in
    let next = mark (read escaped s) in
    if code c == 32
    then blank
    else if code c == 39
    then inside
    else if code c == 92
    then next
    else plain
read quotes (c ∷ s) =
    let out = read word s in
    let inside = push c (read quotes s) in if code c == 39 then out else inside
read escaped (c ∷ s) = push c (read word s)

abbrev pub words_of : Reading → Option (List Token)
words_of none = none
words_of (some (t, (q, ts))) = some ts

unfoldable pub shell_words : String → Option (List Token)
shell_words s = words_of (read between s)

abbrev pub push_all : String → Reading → Reading
push_all [] r = r
push_all (c ∷ s) r = push c (push_all s r)

mark-push : (c : Char) (r : Reading) → mark (push c r) ≡ push c (mark r)
mark-push c none = refl
mark-push c (some (t, (q, ts))) = refl

mark-mark : (r : Reading) → mark (mark r) ≡ mark r
mark-mark none = refl
mark-mark (some (t, (q, ts))) = refl

quotes_end : (x : String) → read quotes ("'" <> x) ≡ read word x
quotes_end x = unfold read in rw (cons-append, nil-append) refl

word_quote : (x : String) → read word ("'" <> x) ≡ mark (read quotes x)
word_quote x = unfold read in rw (cons-append, nil-append) refl

word_backslash : (x : String) → read word ("\\" <> x) ≡ mark (read escaped x)
word_backslash x = unfold read in rw (cons-append, nil-append) refl

escaped_quote : (x : String) → read escaped ("'" <> x) ≡ push "'" (read word x)
escaped_quote x = unfold read in rw (cons-append, nil-append) refl

quotes-cons :
    (c : Char) (s : String) → code c == 39 ≡ false → read quotes (c ∷ s) ≡ push c (read quotes s)
unfolding read
quotes-cons c s h = rw h refl

-- The four characters that stand for a quote.
read_quote :
    (x : String)
    → mark (read quotes ("'" <> ("\\" <> ("'" <> ("'" <> x))))) ≡ push "'" (mark (read quotes x))
read_quote x =
    rw (quotes_end, word_backslash, escaped_quote, word_quote)
      (mark-mark _
        ∙ mark-push "'" (mark (read quotes x))
        ∙ ap (push "'") (mark-mark (read quotes x)))

-- Inside the quotes the reader gets the text back, its quotes included.
read-escape_quotes :
    (s rest : String)
    → mark (read quotes (escape_quotes s <> ("'" <> rest))) ≡ push_all s (mark (read word rest))
unfolding escape_quotes
read-escape_quotes [] rest = rw nil-append (ap mark (quotes_end rest))
read-escape_quotes (c ∷ s) rest = elim (Bool-cases (code c == 39)) [
  | inl quote ↦
      let it : c ≡ "'" = Char-path c "'" (ground arith) in
      rw (quote, it, append_assoc, append_assoc, append_assoc, append_assoc)
        (read_quote _ ∙ ap (push "'") (read-escape_quotes s rest))
  | inr letter ↦
      rw (letter, cons-append, quotes-cons c _ letter, mark-push)
        (ap (push c) (read-escape_quotes s rest))
]

-- A in_quotes text in front of a rest.
read-shell_quote :
    (s rest : String) → read word (shell_quote s <> rest) ≡ push_all s (mark (read word rest))
unfolding shell_quote
read-shell_quote s rest = rw (append_assoc, append_assoc, word_quote) (read-escape_quotes s rest)

pub push_all-some :
    (s t : String) (q : Bool) (ts : List Token)
    → ◌≡◌ {A = Reading} (push_all s (some (t, (q, ts)))) (some (s <> t, (q, ts)))
push_all-some [] t q ts = rw nil-append refl
push_all-some (c ∷ s) t q ts = rw (push_all-some s t q ts, cons-append) refl

between_quote : (x : String) → read between ("'" <> x) ≡ close_word (read word ("'" <> x))
between_quote x = unfold read in rw (cons-append, nil-append) refl

pub word_blank : (x : String) → read word (" " <> x) ≡ read between x
word_blank x = unfold read in rw (cons-append, nil-append) refl

between_blank : (x : String) → read between (" " <> x) ≡ read between x
between_blank x = unfold read in rw (cons-append, nil-append) refl

-- What is left after a whole word.
abbrev pub Words : String → List Token → Type 0
Words x ts = ◌≡◌ {A = Reading} (read between x) (some ("", (false, ts)))

pub Words-shell_quote :
    (s rest : String) (ts : List Token)
    → ◌≡◌ {A = Reading} (read word rest) (some ("", (false, ts)))
    → Words (shell_quote s <> rest) (in_quotes s ∷ ts)
Words-shell_quote s rest ts h =
    let start : read between (shell_quote s <> rest)
        ≡ close_word (read word (shell_quote s <> rest)) =
      unfold shell_quote in rw (append_assoc, append_assoc) (between_quote _) in
    rw (start, read-shell_quote s rest, h, push_all-some s "" true ts, append-nil) refl
