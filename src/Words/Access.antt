-- ===== src/Words/Access.antt =====
-- Words in memory, as a pointer to `uint32_t` or `uint64_t` reads and writes them: the lowest byte
-- comes first.
use oscs25_labs.Base.{
  ℕ, zero, suc, ◌+◌, ◌*◌, ◌/◌, ◌%◌, ◌^◌, ◌≤◌, ◌<◌, ◌≡◌, ◌⊎◌, ◌∙◌, ap, refl, arith, update,
  update_self, update-ne,
}
use oscs25_labs.Words.Copy.{Outside}

-- The word of `n` bytes at an address.
unfoldable pub word_at : (n addr : ℕ) → (ℕ → ℕ) → ℕ
word_at zero addr memory = 0
word_at (suc n) addr memory = memory addr + 2 ^ 8 * word_at n (addr + 1) memory

unfoldable pub store_word : (n addr value : ℕ) → (ℕ → ℕ) → ℕ → ℕ
store_word zero addr value memory = memory
store_word (suc n) addr value memory =
    store_word n (addr + 1) (value / 2 ^ 8) (update memory addr (value % 2 ^ 8))

pub store_word-Outside :
    (n addr value : ℕ) (m : ℕ → ℕ) (a : ℕ) → Outside addr n a → store_word n addr value m a ≡ m a
unfolding store_word
store_word-Outside zero addr value m a out = refl
store_word-Outside (suc n) addr value m a out =
    store_word-Outside n (addr + 1) (value / 2 ^ 8) (update m addr (value % 2 ^ 8)) a (omega arith)
    ∙ update-ne m addr (value % 2 ^ 8) a (omega arith)

-- The value has at most `n` bytes.
abbrev pub Fits : (n value : ℕ) → Type 0
Fits zero value = value ≡ 0
Fits (suc n) value = Fits n (value / 2 ^ 8)

pub word_at-store_word :
    (n addr value : ℕ) (m : ℕ → ℕ)
    → Fits n value
    → word_at n addr (store_word n addr value m) ≡ value
unfolding word_at store_word
word_at-store_word zero addr value m fits = omega arith
word_at-store_word (suc n) addr value m fits =
    let m' = update m addr (value % 2 ^ 8) in
    let low : store_word n (addr + 1) (value / 2 ^ 8) m' addr ≡ value % 2 ^ 8 =
      store_word-Outside n (addr + 1) (value / 2 ^ 8) m' addr (omega arith)
      ∙ update_self m addr (value % 2 ^ 8) in
    omega (arith, low, word_at-store_word n (addr + 1) (value / 2 ^ 8) m' fits)

-- The two memories have the same `n` bytes from `start` on.
abbrev pub Agree : (start n : ℕ) → (m m' : ℕ → ℕ) → Type 0
Agree start n m m' = (a : ℕ) → start ≤ a → a < start + n → m a ≡ m' a

-- A word is read from its bytes alone.
pub word_at-Agree :
    (n addr : ℕ) (m m' : ℕ → ℕ) → Agree addr n m m' → word_at n addr m ≡ word_at n addr m'
unfolding word_at
word_at-Agree zero addr m m' same = refl
word_at-Agree (suc n) addr m m' same =
    let rest = word_at-Agree n (addr + 1) m m' (λ a lo hi. same a (omega arith) (omega arith)) in
    omega (arith, rest, same addr (omega arith) (omega arith))

-- A word that is stored elsewhere does not count.
pub word_at-store_elsewhere :
    (n addr k other value : ℕ) (m : ℕ → ℕ)
    → (addr + n ≤ other) ⊎ (other + k ≤ addr)
    → word_at n addr (store_word k other value m) ≡ word_at n addr m
word_at-store_elsewhere n addr k other value m apart =
    word_at-Agree n addr (store_word k other value m) m
      (λ a lo hi. store_word-Outside k other value m a (omega arith))

-- A word of the same bytes at another address.
pub word_at_moved :
    (n a b : ℕ) (m m' : ℕ → ℕ)
    → ((i : ℕ) → i < n → m (a + i) ≡ m' (b + i))
    → word_at n a m ≡ word_at n b m'
unfolding word_at
word_at_moved zero a b m m' same = refl
word_at_moved (suc n) a b m m' same =
    let here : a ≡ a + 0 = omega arith in
    let there : b + 0 ≡ b = omega arith in
    let first : m a ≡ m' b = ap m here ∙ same 0 (omega arith) ∙ ap m' there in
    let next : (i : ℕ) → i < n → m (a + 1 + i) ≡ m' (b + 1 + i) = λ i low.
      let here' : a + 1 + i ≡ a + suc i = omega arith in
      let there' : b + suc i ≡ b + 1 + i = omega arith in
      ap m here' ∙ same (suc i) (omega arith) ∙ ap m' there' in
    omega (arith, first, word_at_moved n (a + 1) (b + 1) m m' next)
