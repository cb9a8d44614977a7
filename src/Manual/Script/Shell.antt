-- ===== src/Manual/Script/Shell.antt =====
-- internal/manual/script.go: the quoting of the script against a POSIX shell's reading of a word,
-- and the filter of its output.
use nk.Base.{
  ℕ, ◌≡◌, refl, Bool, true, ◌||◌, ◌++◌, [], ◌∷◌, All-keep, Option, none, some, arith, ◌==◌, keep,
  append_assoc, if◌then◌else◌,
}
use nk.Base.Text.{Text, split}
use nk.Base.Lines.{Lacks, split-Lacks, split-unlines}
use nk.Manual.Script.{quote_char, quote_body, q, is_shown, output}

data Mode : Type 0 where
  bare quoted escaped : Mode

abbrev onto : ℕ → Option (Text × Text) → Option (Text × Text)
onto c none = none
onto c (some (w, rest)) = some (c ∷ w, rest)

-- What ends a word outside quotes.
abbrev is_end : ℕ → Bool
is_end c = c == b' ' || c == b'\n' || c == b';'

-- One word of a shell command, with single quotes and backslashes, and what follows it.
word : Mode → Text → Option (Text × Text)
word bare [] = some ([], [])
word quoted [] = none
word escaped [] = none
word escaped (c ∷ s) = onto c (word bare s)
word quoted (c ∷ s) =
    let closed = word bare s in
    let more = onto c (word quoted s) in if c == b'\'' then closed else more
word bare (c ∷ s) =
    let opened = word quoted s in
    let next = word escaped s in
    let more = onto c (word bare s) in
    if c == b'\''
    then opened
    else if c == b'\\'
    then next
    else if is_end c
    then some ([], c ∷ s)
    else more

pub shell_word : Text → Option (Text × Text)
unfolding word
shell_word = word bare

abbrev pub EndsWord : Text → Type 0
EndsWord [] = Unit
EndsWord (c ∷ s) = is_end c ≡ true

word-quote_char : (c : ℕ) (s : Text) → word quoted (quote_char c ++ s) ≡ onto c (word quoted s)
unfolding word quote_char
word-quote_char c s = ground arith

word-end : (rest : Text) → EndsWord rest → word bare rest ≡ some ([], rest)
unfolding word
word-end [] h = refl
word-end (c ∷ s) h = ground arith

word-quote_body :
    (s rest : Text) → EndsWord rest → word quoted (quote_body s ++ (b'\'' ∷ rest)) ≡ some (s, rest)
unfolding quote_body
word-quote_body [] rest h = unfold word in word-end rest h
word-quote_body (c ∷ s) rest h = rw (append_assoc, word-quote_char, word-quote_body s rest h)

-- A shell reads a quoted text back as one word that is the text itself, whatever it holds, where a
-- blank, a newline, a semicolon or the end of the script follows.
pub shell_word-q : (s rest : Text) → EndsWord rest → shell_word (q s ++ rest) ≡ some (s, rest)
unfolding shell_word q
shell_word-q s rest h = rw append_assoc (word-quote_body s rest h)

-- What the operator sees are the lines of the output that are neither empty nor markers, in their
-- order.
pub split-output :
    (out : Text) → split b'\n' (output out) ≡ keep is_shown (split b'\n' out) ++ ([] ∷ [])
unfolding output
split-output out =
    split-unlines (keep is_shown (split b'\n' out))
      (All-keep (Lacks b'\n') is_shown (split b'\n' out) (split-Lacks b'\n' out))
