-- ===== src/Dtb/Tests.antt =====
-- A tree of one node with one property, at the address 4096; the callback lists what it gets.
use oscs25_labs.Base.{ℕ, zero, suc, ◌-◌, ◌≡◌, refl, List, [], ◌∷◌, some, arith}
use oscs25_labs.Words.{to_le_u32, le_loop}
use oscs25_labs.Words.Access.{word_at}
use oscs25_labs.Dtb.{Callback, big_word, size_at, dtb_parser}
use oscs25_labs.Dtb.Tokens.{Token, begin_node, end_node, prop, dtb_parser-called}

abbrev tree_bytes : List ℕ
tree_bytes =
    0 ∷ 0 ∷ 0 ∷ 0 ∷ 0 ∷ 0 ∷ 0 ∷ 52 ∷ 0 ∷ 0 ∷ 0 ∷ 16 ∷ 0 ∷ 0 ∷ 0 ∷ 48 ∷ 0 ∷ 0 ∷ 0 ∷ 1 ∷ 0 ∷ 0 ∷ 0 ∷ 0
    ∷ 0 ∷ 0 ∷ 0 ∷ 3 ∷ 0 ∷ 0 ∷ 0 ∷ 4 ∷ 0 ∷ 0 ∷ 0 ∷ 0 ∷ 8 ∷ 0 ∷ 0 ∷ 0 ∷ 0 ∷ 0 ∷ 0 ∷ 2 ∷ 0 ∷ 0 ∷ 0 ∷ 9
    ∷ 97 ∷ 0 ∷ []

abbrev byte_at : List ℕ → ℕ → ℕ
byte_at [] i = 0
byte_at (b ∷ bs) zero = b
byte_at (b ∷ bs) (suc i) = byte_at bs i

abbrev memory : ℕ → ℕ
memory addr = byte_at tree_bytes (addr - 4096)

abbrev tokens : List Token
tokens = begin_node 1 ∷ prop 4 0 ∷ end_node ∷ []

abbrev collect : Callback (List ℕ)
collect token name content len seen = token ∷ name ∷ content ∷ len ∷ seen

dtb_parser-called_example :
    dtb_parser 4 2 collect 4096 memory [] ≡ some (0, 3 ∷ 4144 ∷ 4132 ∷ 4 ∷ [])
unfolding big_word to_le_u32 le_loop word_at size_at
dtb_parser-called_example =
    dtb_parser-called tokens 4 2 collect 4096 memory [] (omega arith) (omega arith)
      (refl, refl, (refl, (refl, refl), (refl, tt, refl)))
