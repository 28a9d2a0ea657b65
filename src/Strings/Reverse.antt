-- ===== src/Strings/Reverse.antt =====
-- `strrev` against the string read backwards.
use native.Mathlib.Decide.{ℕ_discrete, dec_lt}
use oscs25_labs.Base.{
  ℕ, zero, suc, ◌+◌, ◌-◌, ◌<◌, ◌≤◌, ◌≡◌, ◌≢◌, ◌∙◌, ◌⊎◌, inl, inr, refl, sym, ap, true, false,
  Option, some, arith, update, update-ne, update_self, ltb, ◌==◌, if◌then◌else◌,
}
use oscs25_labs.Strings.Format.{find_end, swap_loop, strrev}

find_end-size :
    (n d size base : ℕ) (s : ℕ → ℕ)
    → d < n
    → ((i : ℕ) → i < d → s (base + (size + i)) ≢ 0)
    → s (base + (size + d)) ≡ 0
    → find_end n size base s ≡ some (size + d)
unfolding find_end
find_end-size zero d size base s fuel text nul = absurd (omega arith)
find_end-size (suc n) zero size base s fuel text nul =
    let here : s (base + size) ≡ 0 = ap (λ (k : ℕ). s (base + k)) (omega arith) ∙ nul in
    let stop : (s (base + size) == 0) ≡ true = ground (arith, here) in
    rw stop (ap some (omega arith))
find_end-size (suc n) (suc d) size base s fuel text nul =
    let e : size + 0 ≡ size = omega arith in
    let some_text : s (base + size) ≢ 0 =
      λ z. text 0 (omega arith) (ap (λ (k : ℕ). s (base + k)) e ∙ z) in
    let on : (s (base + size) == 0) ≡ false = ground (arith, some_text) in
    let shift : (i : ℕ) → size + 1 + i ≡ size + suc i = λ i. omega arith in
    rw on (
      find_end-size n d (size + 1) base s (omega arith)
        (λ i lo z. text (suc i) (omega arith) (ap (λ (k : ℕ). s (base + k)) (sym (shift i)) ∙ z))
        (ap (λ (k : ℕ). s (base + k)) (shift d) ∙ nul)
      ∙ ap some (shift d))

-- The characters from `head` to `tail` are those of `s` backwards, the others are the same.
pub record Backwards (head tail base : ℕ) (s r : ℕ → ℕ) : Type 0 where
  pub inside : (j : ℕ) → head ≤ j → j ≤ tail → r (base + j) ≡ s (base + (head + tail - j))
  pub outside : (i : ℕ) → (i < base + head) ⊎ (base + tail < i) → r i ≡ s i

module _ (head tail base : ℕ) (s : ℕ → ℕ) (lt : head < tail) where
  abbrev swapped : ℕ → ℕ
  swapped = update (update s (base + head) (s (base + tail))) (base + tail) (s (base + head))

  swapped_other : (i : ℕ) → i ≢ base + head → i ≢ base + tail → swapped i ≡ s i
  swapped_other i nh nt =
      update-ne (update s (base + head) (s (base + tail))) (base + tail) (s (base + head)) i nt
      ∙ update-ne s (base + head) (s (base + tail)) i nh

  swapped_head : swapped (base + head) ≡ s (base + tail)
  swapped_head =
      update-ne (update s (base + head) (s (base + tail))) (base + tail) (s (base + head))
        (base + head) (λ e. omega arith)
      ∙ update_self s (base + head) (s (base + tail))

  swapped_tail : swapped (base + tail) ≡ s (base + head)
  swapped_tail =
      update_self (update s (base + head) (s (base + tail))) (base + tail) (s (base + head))

  swapped-Backwards :
      (r : ℕ → ℕ) → Backwards (head + 1) (tail - 1) base swapped r → Backwards head tail base s r
  swapped-Backwards r b = record {
    inside = λ j lo hi. elim (ℕ_discrete j head) [
      | yes first ↦
          ap (λ (k : ℕ). r (base + k)) first
          ∙ b.outside (base + head) (inl (omega arith))
          ∙ swapped_head
          ∙ ap (λ (k : ℕ). s (base + k)) (omega (arith, first))
      | no not_first ↦ elim (ℕ_discrete j tail) [
        | yes last ↦
            ap (λ (k : ℕ). r (base + k)) last
            ∙ b.outside (base + tail) (inr (omega arith))
            ∙ swapped_tail
            ∙ ap (λ (k : ℕ). s (base + k)) (omega (arith, last))
        | no not_last ↦
            b.inside j (omega arith) (omega arith)
            ∙ swapped_other (base + (head + 1 + (tail - 1) - j)) (λ e. not_last (omega (arith, e)))
                (λ e. not_first (omega (arith, e)))
            ∙ ap (λ (k : ℕ). s (base + k)) (omega arith)
      ]
    ];
    outside = λ i out. elim out [
      | inl below ↦
          b.outside i (inl (omega arith)) ∙ swapped_other i (λ e. omega arith) (λ e. omega arith)
      | inr above ↦
          b.outside i (inr (omega arith)) ∙ swapped_other i (λ e. omega arith) (λ e. omega arith)
    ];
  }

swap_loop-Backwards :
    (n head tail base : ℕ) (s : ℕ → ℕ)
    → tail < head + n
    → Backwards head tail base s (swap_loop n head tail base s)
unfolding swap_loop
swap_loop-Backwards zero head tail base s fuel = record {
  inside = λ j lo hi. absurd (omega arith);
  outside = λ i out. refl;
}
swap_loop-Backwards (suc n) head tail base s fuel = elim (dec_lt head tail) [
  | yes lt ↦
      let on : ltb head tail ≡ true = ground arith in
      rw on (
        swapped-Backwards head tail base s lt _ (
          swap_loop-Backwards n (head + 1) (tail - 1) base (swapped head tail base s lt)
            (omega arith)))
  | no met ↦
      let stop : ltb head tail ≡ false = ground arith in
      rw stop (record {
        inside = λ j lo hi. ap (λ (k : ℕ). s (base + k)) (omega arith);
        outside = λ i out. refl;
      })
]

-- A string of `size` characters is read backwards.
pub record Reversed (size base : ℕ) (s : ℕ → ℕ) (o : Option (ℕ → ℕ)) : Type 0 where
  pub after : ℕ → ℕ
  pub found : o ≡ some after
  pub text : (i : ℕ) → i < size → after (base + i) ≡ s (base + (size - 1 - i))
  pub others : (i : ℕ) → (i < base) ⊎ (base + size ≤ i) → after i ≡ s i

swap_loop-Reversed :
    (size base : ℕ) (s : ℕ → ℕ)
    → Reversed size base s (some (if size == 0 then s else swap_loop size 0 (size - 1) base s))
swap_loop-Reversed zero base s = record {
  after = s;
  found = refl;
  text = λ i lo. absurd (omega arith);
  others = λ i out. refl;
}
swap_loop-Reversed (suc k) base s =
    let some_text : (suc k == 0) ≡ false = ground arith in
    let b = swap_loop-Backwards (suc k) 0 (suc k - 1) base s (omega arith) in
    rw some_text (record {
      after = swap_loop (suc k) 0 (suc k - 1) base s;
      found = refl;
      text = λ i lo.
          b.inside i (omega arith) (omega arith) ∙ ap (λ (j : ℕ). s (base + j)) (omega arith);
      others = λ i out. elim out [
        | inl below ↦ b.outside i (inl (omega arith))
        | inr above ↦ b.outside i (inr (omega arith))
      ];
    })

-- A string that ends within the bytes looked at: strrev returns with its characters in the opposite
-- order; the NUL behind them and all other bytes are as they were.
pub strrev-Reversed :
    (n size base : ℕ) (s : ℕ → ℕ)
    → size < n
    → ((i : ℕ) → i < size → s (base + i) ≢ 0)
    → s (base + size) ≡ 0
    → Reversed size base s (strrev n base s)
unfolding strrev
strrev-Reversed n size base s fuel text nul =
    let zero_first : (i : ℕ) → 0 + i ≡ i = λ i. omega arith in
    let end_ : find_end n 0 base s ≡ some size =
      find_end-size n size 0 base s fuel
        (λ i lo z. text i lo (ap (λ (k : ℕ). s (base + k)) (sym (zero_first i)) ∙ z))
        (ap (λ (k : ℕ). s (base + k)) (zero_first size) ∙ nul)
      ∙ ap some (zero_first size) in
    rw end_ (swap_loop-Reversed size base s)
