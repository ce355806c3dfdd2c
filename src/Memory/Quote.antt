-- ===== src/Memory/Quote.antt =====
-- The scripts of writeFileScript in internal/memory/service.go as a shell reads them.
use jadeenvoy.Memory.Shell.{
  Reading, Token, Words, Words-shell_quote, bare, between, close_word, push, push_all,
  push_all-some, read, shell_words, word, word_blank, words_of, in_quotes,
}
use jadeenvoy.Errors.{Result}
use jadeenvoy.Prelude.{
  ℕ, String, Bool, true, false, not, ◌&&◌, ◌||◌, List, [], ◌∷◌, some, ◌≡◌, refl, ap, ◌∙◌, arith,
  sym, subst, ◌==◌, ◌<>◌,
}
use Prim.Native.Char.{Char, code}
use Prim.Native.String.{[], ◌∷◌}
use text.Mathlib.TextLemmas.{nil-append, cons-append, append_assoc, append-nil}
use jadeenvoy.Memory.Mount.{shell_quote, write_file_script, parent_dir}

abbrev bare_char : ℕ → Bool
bare_char n = not (n == 32 || n == 39 || n == 92)

abbrev is_bare : String → Bool
is_bare [] = true
is_bare (c ∷ s) = bare_char (code c) && is_bare s

word-bare :
    (c : Char) (s : String) → bare_char (code c) ≡ true → read word (c ∷ s) ≡ push c (read word s)
unfolding read
word-bare c s h = ground (arith, h)

between-bare :
    (c : Char) (s : String)
    → bare_char (code c) ≡ true
    → read between (c ∷ s) ≡ close_word (push c (read word s))
unfolding read
between-bare c s h = ground (arith, h)

read-bare :
    (s x : String) → is_bare s ≡ true → read word (s <> (" " <> x)) ≡ push_all s (read between x)
read-bare [] x h = rw nil-append (word_blank x)
read-bare (c ∷ s) x h =
    rw (cons-append, word-bare c (s <> (" " <> x)) (ground (arith, h)))
      (ap (push c) (read-bare s x (ground (arith, h))))

Words-bare :
    (c : Char) (s x : String) (ts : List Token)
    → is_bare (c ∷ s) ≡ true
    → Words x ts
    → Words ((c ∷ s) <> (" " <> x)) (bare (c ∷ s) ∷ ts)
Words-bare c s x ts h w =
    rw
      (
        cons-append,
        between-bare c (s <> (" " <> x)) (ground (arith, h)),
        read-bare s x (ground (arith, h)),
        w,
        push_all-some s "" false ts,
        append-nil,
      )
      refl

two_parts : (a b c d x : String) → (a <> (b <> (c <> d))) <> x ≡ a <> (b <> (c <> (d <> x)))
two_parts a b c d x = simp append_assoc

four_parts :
    (a b c d e f g h i x : String)
    → (a <> (b <> (c <> (d <> (e <> (f <> (g <> (h <> i)))))))) <> x
      ≡ a <> (b <> (c <> (d <> (e <> (f <> (g <> (h <> (i <> x))))))))
four_parts a b c d e f g h i x = simp append_assoc

five_parts :
    (a b c d e x : String) → (a <> (b <> (c <> (d <> e)))) <> x ≡ a <> (b <> (c <> (d <> (e <> x))))
five_parts a b c d e x = simp append_assoc

Words-mkdir :
    (x : String) (ts : List Token)
    → Words x ts
    → Words ("mkdir -p " <> x) (bare "mkdir" ∷ bare "-p" ∷ ts)
Words-mkdir x ts h =
    subst (λ y. Words y (bare "mkdir" ∷ bare "-p" ∷ ts)) (sym (two_parts "mkdir" " " "-p" " " x))
      (Words-bare "m" "kdir" _ _ refl (Words-bare "-" "p" x ts refl h))

word-echo :
    (x : String) (ts : List Token)
    → Words x ts
    → ◌≡◌ {A = Reading}
        (read word (" && echo " <> x))
        (some ("", (false, bare "&&" ∷ bare "echo" ∷ ts)))
word-echo x ts h =
    ap (read word) (five_parts " " "&&" " " "echo" " " x)
    ∙ word_blank _
    ∙ Words-bare "&" "&" _ _ refl (Words-bare "e" "cho" x ts refl h)

word-base64 :
    (x : String) (ts : List Token)
    → Words x ts
    → ◌≡◌ {A = Reading}
        (read word (" | base64 -d > " <> x))
        (some ("", (false, bare "|" ∷ bare "base64" ∷ bare "-d" ∷ bare ">" ∷ ts)))
word-base64 x ts h =
    ap (read word) (four_parts " " "|" " " "base64" " " "-d" " " ">" " " x)
    ∙ word_blank _
    ∙ Words-bare "|" "" _ _ refl (
        Words-bare "b" "ase64" _ _ refl
          (Words-bare "-" "d" _ _ refl (Words-bare ">" "" x ts refl h)))

Words-last : (s : String) → Words (shell_quote s) (in_quotes s ∷ [])
Words-last s =
    subst (λ y. Words y (in_quotes s ∷ [])) (append-nil (shell_quote s))
      (Words-shell_quote s "" [] (unfold read in refl))

module _ (base64_encode : String → String) (exec_script : String → Result (ℕ × String)) where
  -- Whatever the path and the content, a shell reads the script of writeFileScript as the command
  -- that is meant: the directory, the encoded content and the path are one in_quotes word each, and
  -- hold the texts themselves.
  pub write_file_script-words :
      (path content : String)
      → shell_words (write_file_script base64_encode exec_script path content)
        ≡ some (
            bare "mkdir"
            ∷ bare "-p"
            ∷ in_quotes (parent_dir path)
            ∷ bare "&&"
            ∷ bare "echo"
            ∷ in_quotes (base64_encode content)
            ∷ bare "|"
            ∷ bare "base64"
            ∷ bare "-d"
            ∷ bare ">"
            ∷ in_quotes path
            ∷ [])
  unfolding shell_words write_file_script
  write_file_script-words path content = ap words_of (
      Words-mkdir _ _ (
        Words-shell_quote (parent_dir path) _ _ (
          word-echo _ _
            (Words-shell_quote (base64_encode content) _ _ (word-base64 _ _ (Words-last path))))))
