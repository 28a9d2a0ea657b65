-- ===== src/Words/Copy.antt =====
-- What a copy of memory leaves in the bytes that are written and in the others.
use oscs25_labs.Base.{
  ℕ, zero, suc, ◌+◌, ◌≤◌, ◌<◌, ◌≡◌, ◌⊎◌, ◌∙◌, ap, refl, arith, update, update_self, update-ne,
}
use oscs25_labs.Words.{memcpy}

-- Whether the address `a` is outside the `size` bytes from `start`.
abbrev pub Outside : (start size a : ℕ) → Type 0
Outside start size a = (a < start) ⊎ (start + size ≤ a)

pub memcpy-Outside :
    (dest source size : ℕ) (m : ℕ → ℕ) (a : ℕ)
    → Outside dest size a
    → memcpy dest source size m a ≡ m a
unfolding memcpy
memcpy-Outside dest source zero m a out = refl
memcpy-Outside dest source (suc size) m a out =
    memcpy-Outside (dest + 1) (source + 1) size (update m dest (m source)) a (omega arith)
    ∙ update-ne m dest (m source) a (omega arith)

-- The two ranges have no address in common.
abbrev pub Apart : (dest source size : ℕ) → Type 0
Apart dest source size = (dest + size ≤ source) ⊎ (source + size ≤ dest)

pub memcpy_inside :
    (dest source size : ℕ) (m : ℕ → ℕ) (i : ℕ)
    → i < size
    → Apart dest source size
    → memcpy dest source size m (dest + i) ≡ m (source + i)
unfolding memcpy
memcpy_inside dest source zero m i low apart = absurd (omega arith)
memcpy_inside dest source (suc size) m zero low apart =
    let m' = update m dest (m source) in
    let there : dest + 0 ≡ dest = omega arith in
    let here : source ≡ source + 0 = omega arith in
    ap (memcpy (dest + 1) (source + 1) size m') there
    ∙ memcpy-Outside (dest + 1) (source + 1) size m' dest (omega arith)
    ∙ update_self m dest (m source)
    ∙ ap m here
memcpy_inside dest source (suc size) m (suc i) low apart =
    let m' = update m dest (m source) in
    let there : dest + suc i ≡ dest + 1 + i = omega arith in
    let here : source + 1 + i ≡ source + suc i = omega arith in
    ap (memcpy (dest + 1) (source + 1) size m') there
    ∙ memcpy_inside (dest + 1) (source + 1) size m' i (omega arith) (ground arith)
    ∙ update-ne m dest (m source) (source + 1 + i) (omega arith)
    ∙ ap m here
