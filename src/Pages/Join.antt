-- ===== src/Pages/Join.antt =====
-- The merge of two buddies into one block.
use mathlib.Core.Path.{subst}
use native.Mathlib.Nat.{pow-suc, one-le-pow}
use native.Mathlib.Decide.{ℕ_discrete}
use oscs25_labs.Base.{
  ℕ, suc, ◌+◌, ◌^◌, ◌≤◌, ◌<◌, ◌≡◌, ◌≢◌, ◌∙◌, sym, ap, arith, update, update-ne, update_self,
}
use oscs25_labs.Base.Bits.{Aligned}
use oscs25_labs.Pages.{page_grouped, block_max_order, total_page}
use oscs25_labs.Pages.Shape.{IsBlock, Covers, IsPartition, IsBlock-frame, IsBlock-join}

-- The blocks of order `l` at `h` and at `up` become one at `h`.
module _ {status order : ℕ → ℕ} (h l : ℕ) (part : IsPartition status order) (bound : h < total_page)
    (low : suc l ≤ block_max_order) (al : Aligned (suc l) h) (begins : status h ≢ page_grouped)
    (begins_up : status (h + 2 ^ l) ≢ page_grouped) (bound_up : h + 2 ^ l < total_page)
    (ord : order h ≡ l) (ord_up : order (h + 2 ^ l) ≡ l) where
  abbrev up : ℕ
  up = h + 2 ^ l

  abbrev st : ℕ → ℕ
  st = update status up page_grouped

  abbrev grown : ℕ → ℕ
  grown = update order h (suc l)

  apart : h ≢ up
  apart = omega (arith, one-le-pow l 2)

  joined : IsBlock st h (suc l)
  joined =
      let b : IsBlock status h l = rw ord at (part.block h bound begins) in
      let c : IsBlock status up l = rw ord_up at (part.block up bound_up begins_up) in
      IsBlock-join h l low al
        (IsBlock-frame (λ j lo hi. update-ne status up page_grouped j (omega arith)) b)
        (IsBlock-frame (λ j lo hi. update-ne status up page_grouped j (omega arith)) c)
        (update_self status up page_grouped)

  was : (i : ℕ) → st i ≢ page_grouped → i ≢ up
  was i ne e = ne (ap st e ∙ update_self status up page_grouped)

  -- The upper block lay inside no other one.
  elsewhere :
      (i : ℕ)
      → i < total_page
      → status i ≢ page_grouped
      → (j : ℕ) → i < j
      → j < i + 2 ^ order i
      → st j ≡ status j
  elsewhere i bound-i ne j lo hi =
      let is_grouped = (part.block i bound-i ne).grouped j lo hi in
      update-ne status up page_grouped j (λ e. begins_up (ap status (sym e) ∙ is_grouped))

  at_head : {i : ℕ} → h ≤ i → i < h + 2 ^ suc l → Covers st grown i h
  at_head lo hi = record {
    begins = λ e. begins (sym (update-ne status up page_grouped h apart) ∙ e);
    above = lo;
    below = rw (update_self order h (suc l)) hi;
  }

  covered : (i c : ℕ) → Covers status order i c → (head : ℕ) × Covers st grown i head
  covered i c cov = elim (ℕ_discrete c up) [
    | yes e ↦ (
      h,
      at_head (omega (arith, cov.above)) (omega (arith, pow-suc 2 l, rw (e, ord_up) at cov.below)),
    )
    | no not_up ↦ elim (ℕ_discrete c h) [
      | yes e ↦ (
        h,
        at_head (omega (arith, cov.above)) (omega (arith, pow-suc 2 l, rw (e, ord) at cov.below)),
      )
      | no not_h ↦ (
        c,
        record {
          begins = λ e. cov.begins (sym (update-ne status up page_grouped c not_up) ∙ e);
          above = cov.above;
          below = rw (update-ne order h (suc l) c not_h) cov.below;
        },
      )
    ]
  ]

  pub join-IsPartition :
      IsPartition (update status (h + 2 ^ l) page_grouped) (update order h (suc l))
  join-IsPartition = record {
    block = λ i bound-i ne.
        let not_up = was i ne in
        let ne' : status i ≢ page_grouped =
          λ e. ne (update-ne status up page_grouped i not_up ∙ e) in
        elim (ℕ_discrete i h) [
          | yes same ↦
              subst (λ (k : ℕ). IsBlock st k (grown k)) (sym same)
                (rw (update_self order h (suc l)) joined)
          | no other ↦
              rw (update-ne order h (suc l) i other)
                (IsBlock-frame (elsewhere i bound-i ne') (part.block i bound-i ne'))
        ];
    cover = λ i bound-i. let (c, cov) = part.cover i bound-i in covered i c cov;
  }
