-- ===== src/Shell.antt =====
-- lib/simple_shell.c: a line becomes words, and the first of them names a command.
pub mod Words
mod Tests
use oscs25_labs.Base.{ℕ, zero, suc, Option, none, some, List, [], ◌∷◌, ◌==◌, ◌>>=◌, if◌then◌else◌}
use oscs25_labs.Strings.{strtok, strcmp}

abbrev pub cmd_tok_max_num : ℕ
cmd_tok_max_num = 32

abbrev pub space : List ℕ
space = 32 ∷ []

-- The loop with `left` places of the array `toks` to fill, the token found and the static string of
-- `strtok`. The last place is for `NULL`; `none` is a write behind the array.
unfoldable pub token_loop :
    (left : ℕ) → (tok : Option (List ℕ)) → (saved : Option (List ℕ)) → Option (List (List ℕ))
token_loop zero tok saved = none
token_loop (suc left) none saved = some []
token_loop (suc left) (some tok) saved =
    let (tok', saved') = strtok none space saved in
    token_loop left tok' saved' >>= (λ toks. some (tok ∷ toks))

unfoldable pub parse_command :
    (commandline : List ℕ) → (saved : Option (List ℕ)) → Option (List (List ℕ))
parse_command commandline saved =
    let (tok, saved') = strtok (some commandline) space saved in
    token_loop cmd_tok_max_num tok saved'

-- The first command of the table with a name, and its arguments.
unfoldable pub find_command {ℓ} :
    {C : Type ℓ}
    → (commands : List (List ℕ × C)) → (toks : List (List ℕ)) → Option (C × List (List ℕ))
find_command commands [] = none
find_command [] (tok ∷ args) = none
find_command ((name, func) ∷ commands) (tok ∷ args) =
    let rest = find_command commands (tok ∷ args) in
    if strcmp tok name == 0 then rest else some (func, args)

-- What `exe_cmd` calls, if it calls anything.
unfoldable pub exe_cmd {ℓ} :
    {C : Type ℓ}
    → (commands : List (List ℕ × C)) → (command : List ℕ) → (saved : Option (List ℕ))
    → Option (Option (C × List (List ℕ)))
exe_cmd commands command saved = do
  toks ← parse_command command saved
  some (find_command commands toks)
