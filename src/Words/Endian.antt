-- ===== src/Words/Endian.antt =====
-- `to_le_u32` reverses the four bytes of a word.
use oscs25_labs.Base.{ℕ, ◌+◌, ◌*◌, ◌/◌, ◌%◌, ◌^◌, ◌<◌, ◌≡◌, sym, ap, ◌∙◌, arith}
use oscs25_labs.Words.{le_loop, to_le_u32}

-- The word with the byte `a` lowest and `d` highest.
abbrev pub word : (a b c d : ℕ) → ℕ
word a b c d = a + b * 2 ^ 8 + c * 2 ^ 16 + d * 2 ^ 24

to_le_u32-word :
    (a b c d : ℕ)
    → a < 2 ^ 8
    → b < 2 ^ 8
    → c < 2 ^ 8
    → d < 2 ^ 8
    → to_le_u32 (word a b c d) ≡ word d c b a
unfolding to_le_u32 le_loop
to_le_u32-word a b c d la lb lc ld = omega arith

bytes_of :
    (x : ℕ)
    → x < 2 ^ 32
    → x ≡ word (x % 2 ^ 8) (x / 2 ^ 8 % 2 ^ 8) (x / 2 ^ 16 % 2 ^ 8) (x / 2 ^ 24)
bytes_of x small = omega arith

-- The bytes of a word are reversed, and twice the conversion gives the word again.
to_le_u32-involution :
    (x : ℕ)
    → x < 2 ^ 32
    → (to_le_u32 x ≡ word (x / 2 ^ 24) (x / 2 ^ 16 % 2 ^ 8) (x / 2 ^ 8 % 2 ^ 8) (x % 2 ^ 8))
      × (to_le_u32 (to_le_u32 x) ≡ x)
to_le_u32-involution x small =
    let a = x % 2 ^ 8 in
    let b = x / 2 ^ 8 % 2 ^ 8 in
    let c = x / 2 ^ 16 % 2 ^ 8 in
    let d = x / 2 ^ 24 in
    let once : to_le_u32 x ≡ word d c b a =
      ap to_le_u32 (bytes_of x small)
      ∙ to_le_u32-word a b c d (omega arith) (omega arith) (omega arith) (omega arith) in
    (
      once,
      ap to_le_u32 once
          ∙ to_le_u32-word d c b a (omega arith) (omega arith) (omega arith) (omega arith)
          ∙ sym (bytes_of x small),
    )
