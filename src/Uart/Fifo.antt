-- ===== src/Uart/Fifo.antt =====
-- A buffer of the mini UART as the list of its bytes, oldest first.
use oscs25_labs.Base.{
  ℕ, zero, suc, ◌+◌, ◌%◌, ◌≤◌, ◌<◌, List, [], ◌∷◌, ◌++◌, ◌≡◌, refl, ap, ap₂, ◌∙◌, update, update-ne,
  update_self, length, arith,
}
use oscs25_labs.Uart.{AsyncBuf, async_buffer_size}

-- The `n` bytes from the index `h` on, around the end of the array.
abbrev pub items : ℕ → ℕ → (ℕ → ℕ) → List ℕ
items zero h buffer = []
items (suc n) h buffer = buffer h ∷ items n ((h + 1) % async_buffer_size) buffer

abbrev pub contents : AsyncBuf → List ℕ
contents buf = items buf.len buf.head buf.buffer

pub record IsBuf (buf : AsyncBuf) : Type 0 where
  pub head : buf.head < async_buffer_size
  pub len : buf.len ≤ async_buffer_size

pub length-items : (n h : ℕ) (buffer : ℕ → ℕ) → length (items n h buffer) ≡ n
length-items zero h buffer = refl
length-items (suc n) h buffer = omega (arith, length-items n ((h + 1) % async_buffer_size) buffer)

-- A write behind the last byte leaves them.
items-frame :
    (n h d v : ℕ) (buffer : ℕ → ℕ)
    → h < async_buffer_size
    → n + d < async_buffer_size
    → items n h (update buffer ((h + n + d) % async_buffer_size) v) ≡ items n h buffer
items-frame zero h d v buffer lt room = refl
items-frame (suc n) h d v buffer lt room =
    let next = (h + 1) % async_buffer_size in
    let same : (h + suc n + d) % async_buffer_size ≡ (next + n + d) % async_buffer_size =
      omega arith in
    ap₂ (λ (b : ℕ) (l : List ℕ). b ∷ l)
      (update-ne buffer ((h + suc n + d) % async_buffer_size) v h (λ e. omega arith))
      (rw same (items-frame n next d v buffer (omega arith) (omega arith)))

items_more :
    (n h : ℕ) (buffer : ℕ → ℕ)
    → h < async_buffer_size
    → items (suc n) h buffer ≡ items n h buffer ++ buffer ((h + n) % async_buffer_size) ∷ []
items_more zero h buffer lt =
    let same : (h + 0) % async_buffer_size ≡ h = omega arith in rw same refl
items_more (suc n) h buffer lt =
    let next = (h + 1) % async_buffer_size in
    let same : (h + suc n) % async_buffer_size ≡ (next + n) % async_buffer_size = omega arith in
    rw same (ap (λ (l : List ℕ). buffer h ∷ l) (items_more n next buffer (omega arith)))

-- The write at the end appends.
pub items-append :
    (n h v : ℕ) (buffer : ℕ → ℕ)
    → h < async_buffer_size
    → n < async_buffer_size
    → items (suc n) h (update buffer ((h + n) % async_buffer_size) v) ≡ items n h buffer ++ v ∷ []
items-append n h v buffer lt room =
    let same : (h + n) % async_buffer_size ≡ (h + n + 0) % async_buffer_size = omega arith in
    items_more n h (update buffer ((h + n) % async_buffer_size) v) lt
    ∙ ap₂ (λ (l : List ℕ) (b : ℕ). l ++ b ∷ [])
        (rw same (items-frame n h 0 v buffer lt (omega arith)))
        (update_self buffer ((h + n) % async_buffer_size) v)
