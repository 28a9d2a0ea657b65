-- ===== src/Pages/Shape.antt =====
-- The pages cut into aligned blocks: what the statuses say, and the split and the merge of blocks.
use mathlib.Core.Path.{subst}
use native.Mathlib.Nat.{pow-suc, one-le-pow}
use native.Mathlib.Decide.{dec_lt, ℕ_discrete}
use oscs25_labs.Base.{◌∙◌, sym, ap, ℕ, suc, ◌+◌, ◌*◌, ◌^◌, ◌≤◌, ◌<◌, ◌≡◌, ◌≢◌, arith, update}
use oscs25_labs.Base.Bits.{mul-pow-suc, Aligned}
use oscs25_labs.Pages.{page_grouped, block_max_order, total_page}

-- A block of order `k` begins at `i`: all other pages of it are grouped.
pub record IsBlock (status : ℕ → ℕ) (i k : ℕ) : Type 0 where
  pub low : k ≤ block_max_order
  pub aligned : Aligned k i
  pub inside : i + 2 ^ k ≤ total_page
  pub grouped : (j : ℕ) → i < j → j < i + 2 ^ k → status j ≡ page_grouped

-- The page `i` lies in the block that begins at `head`.
pub record Covers (status order : ℕ → ℕ) (i head : ℕ) : Type 0 where
  pub begins : status head ≢ page_grouped
  pub above : head ≤ i
  pub below : i < head + 2 ^ order head

-- Each page that is not grouped begins a block, of the order that `order` gives it, and each page
-- lies in a block. So the blocks are a partition of the pages.
pub record IsPartition (status order : ℕ → ℕ) : Type 0 where
  pub block : (i : ℕ) → i < total_page → status i ≢ page_grouped → IsBlock status i (order i)
  pub cover : (i : ℕ) → i < total_page → (head : ℕ) × Covers status order i head

abbrev pub update₂ : (ℕ → ℕ) → ℕ → ℕ → ℕ → ℕ → ℕ → ℕ
update₂ f a v b w = update (update f a v) b w

module _ (f : ℕ → ℕ) (a v b w : ℕ) where
  pub update₂_other : (j : ℕ) → j ≢ a → j ≢ b → update₂ f a v b w j ≡ f j
  update₂_other j na nb = ground arith

  pub update₂_first : a ≢ b → update₂ f a v b w a ≡ v
  update₂_first ne = ground arith

  pub update₂_second : update₂ f a v b w b ≡ w
  update₂_second = ground arith

-- Two blocks do not overlap.
pub blocks_apart :
    {status order : ℕ → ℕ} (i j : ℕ)
    → IsPartition status order
    → i < total_page
    → status i ≢ page_grouped
    → status j ≢ page_grouped
    → i < j
    → i + 2 ^ order i ≤ j
blocks_apart {order} i j part bound hi hj lt = elim (dec_lt j (i + 2 ^ order i)) [
  | yes h ↦ absurd (hj ((part.block i bound hi).grouped j lt h))
  | no h ↦ omega arith
]

pub IsBlock-frame :
    {status status' : ℕ → ℕ} {i k : ℕ}
    → ((j : ℕ) → i < j → j < i + 2 ^ k → status' j ≡ status j)
    → IsBlock status i k
    → IsBlock status' i k
IsBlock-frame same b = record {
  low = b.low;
  aligned = b.aligned;
  inside = b.inside;
  grouped = λ j lo hi. same j lo hi ∙ b.grouped j lo hi;
}

IsBlock-lower : {status : ℕ → ℕ} (i l : ℕ) → IsBlock status i (suc l) → IsBlock status i l
IsBlock-lower i l b =
    let (q, e) = b.aligned in
    record {
      low = omega (arith, b.low);
      aligned = (q * 2, omega (arith, e, mul-pow-suc q l));
      inside = omega (arith, b.inside, pow-suc 2 l);
      grouped = λ j lo hi. b.grouped j lo (omega (arith, pow-suc 2 l));
    }

IsBlock-upper : {status : ℕ → ℕ} (i l : ℕ) → IsBlock status i (suc l) → IsBlock status (i + 2 ^ l) l
IsBlock-upper i l b =
    let (q, e) = b.aligned in
    record {
      low = omega (arith, b.low);
      aligned = (q * 2 + 1, omega (arith, e, mul-pow-suc q l));
      inside = omega (arith, b.inside, pow-suc 2 l);
      grouped = λ j lo hi. b.grouped j (omega arith) (omega (arith, pow-suc 2 l));
    }

pub IsBlock-join :
    {status : ℕ → ℕ} (i l : ℕ)
    → suc l ≤ block_max_order
    → Aligned (suc l) i
    → IsBlock status i l
    → IsBlock status (i + 2 ^ l) l
    → status (i + 2 ^ l) ≡ page_grouped
    → IsBlock status i (suc l)
IsBlock-join {status} i l low al b c mid = record {
  low = low;
  aligned = al;
  inside = omega (arith, c.inside, pow-suc 2 l);
  grouped = λ j lo hi. elim (dec_lt j (i + 2 ^ l)) [
    | yes below ↦ b.grouped j lo below
    | no above ↦ elim (ℕ_discrete j (i + 2 ^ l)) [
      | yes same ↦ ap status same ∙ mid
      | no other ↦ c.grouped j (omega arith) (omega (arith, pow-suc 2 l))
    ]
  ];
}

-- The block at `h` is cut in two; the halves get the statuses `v` and `w`, which are not grouped.
module _ {status order : ℕ → ℕ} (h l v w : ℕ) (part : IsPartition status order)
    (bound : h < total_page) (begins : status h ≢ page_grouped) (e : order h ≡ suc l)
    (hv : v ≢ page_grouped) (hw : w ≢ page_grouped) where
  abbrev up : ℕ
  up = h + 2 ^ l

  abbrev st : ℕ → ℕ
  st = update₂ status h v up w

  abbrev ord : ℕ → ℕ
  ord = update₂ order h l up l

  whole : IsBlock status h (suc l)
  whole = rw e at (part.block h bound begins)

  apart : h ≢ up
  apart = omega (arith, one-le-pow l 2)

  above : (j : ℕ) → up < j → j < up + 2 ^ l → st j ≡ status j
  above j lo hi = update₂_other status h v up w j (omega arith) (omega arith)

  below : (j : ℕ) → h < j → j < h + 2 ^ l → st j ≡ status j
  below j lo hi = update₂_other status h v up w j (omega arith) (omega arith)

  elsewhere :
      (i : ℕ)
      → i < total_page
      → status i ≢ page_grouped
      → i ≢ h
      → (j : ℕ) → i < j
      → j < i + 2 ^ order i
      → st j ≡ status j
  elsewhere i bound-i ne not_h j lo hi =
      let is_grouped = (part.block i bound-i ne).grouped j lo hi in
      update₂_other status h v up w j (λ e'. begins (ap status (sym e') ∙ is_grouped))
        (λ e'. elim (dec_lt i h) [
          | yes lt ↦ omega (arith, blocks_apart i h part bound-i ne begins lt)
          | no ge ↦ omega (
            arith,
            pow-suc 2 l,
            ap (λ (k : ℕ). 2 ^ k) e,
            blocks_apart h i part bound begins ne (omega arith),
          )
        ])

  grouped_up : status up ≡ page_grouped
  grouped_up =
      whole.grouped up (omega (arith, one-le-pow l 2)) (omega (arith, pow-suc 2 l, one-le-pow l 2))

  covered : (i : ℕ) (c : ℕ) → Covers status order i c → (head : ℕ) × Covers st ord i head
  covered i c cov = elim (ℕ_discrete c h) [
    | yes same ↦ elim (dec_lt i up) [
      | yes lt ↦ (
        h,
        record {
          begins = λ e'. hv (sym (update₂_first status h v up w apart) ∙ e');
          above = omega (arith, cov.above);
          below = rw (update₂_first order h l up l apart) lt;
        },
      )
      | no ge ↦ (
        up,
        record {
          begins = λ e'. hw (sym (update₂_second status h v up w) ∙ e');
          above = omega arith;
          below =
              rw (update₂_second order h l up l)
                (omega (arith, pow-suc 2 l, rw (same, e) at cov.below));
        },
      )
    ]
    | no other ↦
        let not_up : c ≢ up = λ e'. cov.begins (ap status e' ∙ grouped_up) in
        (
          c,
          record {
            begins = λ e'. cov.begins (sym (update₂_other status h v up w c other not_up) ∙ e');
            above = cov.above;
            below = rw (update₂_other order h l up l c other not_up) cov.below;
          },
        )
  ]

  pub split-IsPartition :
      IsPartition (update₂ status h v (h + 2 ^ l) w) (update₂ order h l (h + 2 ^ l) l)
  split-IsPartition = record {
    block = λ i bound-i ne. elim (ℕ_discrete i up) [
      | yes same ↦
          subst (λ (k : ℕ). IsBlock st k (ord k)) (sym same)
            (rw (update₂_second order h l up l) (IsBlock-frame above (IsBlock-upper h l whole)))
      | no not_up ↦ elim (ℕ_discrete i h) [
        | yes same ↦
            subst (λ (k : ℕ). IsBlock st k (ord k)) (sym same)
              (rw (update₂_first order h l up l apart)
                (IsBlock-frame below (IsBlock-lower h l whole)))
        | no not_h ↦
            let ne' : status i ≢ page_grouped =
              λ e'. ne (update₂_other status h v up w i not_h not_up ∙ e') in
            rw (update₂_other order h l up l i not_h not_up)
              (IsBlock-frame (elsewhere i bound-i ne' not_h) (part.block i bound-i ne'))
      ]
    ];
    cover = λ i bound-i. let (c, cov) = part.cover i bound-i in covered i c cov;
  }
