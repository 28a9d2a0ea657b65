-- ===== src/Shell/Words.antt =====
-- The words of a line.
use oscs25_labs.Base.{
  ℕ, zero, suc, ◌<◌, ◌≡◌, refl, ap, ◌∙◌, Option, none, some, List, [], ◌∷◌, ◌++◌, length, arith,
  true, ◌>>=◌,
}
use oscs25_labs.Strings.{strtok, strchr}
use oscs25_labs.Strings.Tokens.{ends, NoneEnds, strtok_word}
use oscs25_labs.Shell.{space, cmd_tok_max_num, token_loop, parse_command}

-- A word that is not empty: its first character, and the others.
abbrev pub chars : ℕ × List ℕ → List ℕ
chars (a, word) = a ∷ word

abbrev pub all_chars : List (ℕ × List ℕ) → List (List ℕ)
all_chars [] = []
all_chars (w ∷ ws) = chars w ∷ all_chars ws

-- The words with one space between them.
abbrev pub line : ℕ × List ℕ → List (ℕ × List ℕ) → List ℕ
line (a, word) [] = a ∷ word
line (a, word) (w ∷ ws) = a ∷ (word ++ 32 ∷ line w ws)

-- No word has a space.
abbrev pub NoSpaces : ℕ × List ℕ → List (ℕ × List ℕ) → Type 0
NoSpaces (a, word) [] = NoneEnds space (a ∷ word)
NoSpaces (a, word) (w ∷ ws) = NoneEnds space (a ∷ word) × NoSpaces w ws

-- With a string left, `strtok(NULL, ...)` is `strtok` of that string.
next_token :
    (w : ℕ × List ℕ) (ws : List (ℕ × List ℕ)) (saved : Option (List ℕ))
    → strtok none space (some (line w ws)) ≡ strtok (some (line w ws)) space saved
unfolding strtok
next_token (a, word) [] saved = refl
next_token (a, word) (w ∷ ws) saved = refl

space_ends : ends space 32 ≡ true
unfolding strchr
space_ends = refl

end_token : strtok none space (some []) ≡ (none, some [])
unfolding strtok
end_token = refl

loop : (left : ℕ) → Option (List ℕ) × Option (List ℕ) → Option (List (List ℕ))
loop left r = token_loop left r.0 r.1

token_loop_words :
    (ws : List (ℕ × List ℕ)) (w : ℕ × List ℕ) (left : ℕ) (saved : Option (List ℕ))
    → suc (length ws) < left
    → NoSpaces w ws
    → loop left (strtok (some (line w ws)) space saved) ≡ some (chars w ∷ all_chars ws)
unfolding loop token_loop
token_loop_words ws w zero saved room apart = absurd (omega arith)
token_loop_words ws w (suc zero) saved room apart = absurd (omega arith)
token_loop_words [] (a, word) (suc (suc left)) saved room apart =
    rw ((strtok_word space [] a word 32 [] saved tt apart space_ends).1) (rw end_token refl)
token_loop_words (v ∷ ws) (a, word) (suc (suc left)) saved room (apart, rest) =
    rw ((strtok_word space [] a word 32 (line v ws) saved tt apart space_ends).0) (
      let on =
        ap (loop (suc left)) (next_token v ws saved)
        ∙ token_loop_words ws v (suc left) saved (omega arith) rest in
      ap (λ (o : Option (List (List ℕ))). o >>= (λ toks. some ((a ∷ word) ∷ toks))) on)

-- A line of at most 31 words, with one space between them, is taken apart into these words, whatever
-- line was read before.
pub parse_command-words :
    (w : ℕ × List ℕ) (ws : List (ℕ × List ℕ)) (saved : Option (List ℕ))
    → suc (length ws) < cmd_tok_max_num
    → NoSpaces w ws
    → parse_command (line w ws) saved ≡ some (chars w ∷ all_chars ws)
unfolding parse_command loop
parse_command-words w ws saved room apart = token_loop_words ws w cmd_tok_max_num saved room apart
