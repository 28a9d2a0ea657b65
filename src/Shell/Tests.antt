-- ===== src/Shell/Tests.antt =====
-- The line "cat a" and a table of two commands.
use oscs25_labs.Base.{ℕ, ◌≡◌, refl, List, [], ◌∷◌, none, some, arith}
use oscs25_labs.Strings.{strtok, strcmp, strchr, skip_terminators, take_token}
use oscs25_labs.Shell.{parse_command, token_loop, find_command, exe_cmd}
use oscs25_labs.Shell.Words.{parse_command-words}

parse_command-words_example :
    parse_command (99 ∷ 97 ∷ 116 ∷ 32 ∷ 97 ∷ []) none ≡ some ((99 ∷ 97 ∷ 116 ∷ []) ∷ (97 ∷ []) ∷ [])
unfolding strchr
parse_command-words_example =
    parse_command-words (99, 97 ∷ 116 ∷ []) ((97, []) ∷ []) none (omega arith)
      ((refl, (refl, (refl, tt))), (refl, tt))

abbrev table : List (List ℕ × ℕ)
table = (108 ∷ 115 ∷ [], 1) ∷ (99 ∷ 97 ∷ 116 ∷ [], 2) ∷ []

exe_cmd_runs : exe_cmd table (99 ∷ 97 ∷ 116 ∷ 32 ∷ 97 ∷ []) none ≡ some (some (2, (97 ∷ []) ∷ []))
unfolding exe_cmd parse_command token_loop find_command strtok strcmp strchr skip_terminators
    take_token
exe_cmd_runs = refl
