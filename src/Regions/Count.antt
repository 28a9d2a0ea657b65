-- ===== src/Regions/Count.antt =====
-- The count of a shared region: its pages are freed with the last reference.
use oscs25_labs.Base.{
  ℕ, zero, suc, ◌+◌, ◌-◌, ◌%◌, ◌^◌, ◌<◌, false, Option, none, some, ◌==◌, ◌≡◌, refl, ap, ◌∙◌, arith,
}
use oscs25_labs.Pages.{Pages, page_free}
use oscs25_labs.Regions.{RcRegion, add_ref, rc_free}

abbrev region : (mem count : ℕ) → RcRegion
region mem count = record { mem = mem; count = count }

-- `k` more references.
abbrev pub share : ℕ → RcRegion → RcRegion
share zero r = r
share (suc k) r = share k (add_ref r)

-- `k` calls of `rc_free`, as long as the region is there.
abbrev pub release : ℕ → Option RcRegion × Pages → Option RcRegion × Pages
release zero s = s
release (suc k) (none, p) = (none, p)
release (suc k) (some r, p) = release k (rc_free r p)

share_count :
    (k mem count : ℕ) → count + k < 2 ^ 32 → share k (region mem count) ≡ region mem (count + k)
unfolding add_ref
share_count zero mem count small = ap (region mem) (omega arith)
share_count (suc k) mem count small =
    let more : (count + 1) % 2 ^ 32 ≡ count + 1 = omega arith in
    rw more (share_count k mem (count + 1) (omega arith) ∙ ap (region mem) (omega arith))

release_kept :
    (j mem count : ℕ) (p : Pages)
    → j < count
    → count < 2 ^ 32
    → release j (some (region mem count), p) ≡ (some (region mem (count - j)), p)
unfolding rc_free
release_kept zero mem count p lt small = ap (λ (c : ℕ). (some (region mem c), p)) (omega arith)
release_kept (suc j) mem count p lt small =
    let fewer : (count + 2 ^ 32 - 1) % 2 ^ 32 ≡ count - 1 = omega arith in
    let some_left : (count - 1 == 0) ≡ false = ground arith in
    rw (fewer, some_left)
      (release_kept j mem (count - 1) p (omega arith) (omega arith)
        ∙ ap (λ (c : ℕ). (some (region mem c), p)) (omega arith))

release_more : (j : ℕ) (s : Option RcRegion × Pages) → release (suc j) s ≡ release 1 (release j s)
release_more zero s = refl
release_more (suc j) (none, p) = refl
release_more (suc j) (some r, p) = release_more j (rc_free r p)

last : (mem : ℕ) (p : Pages) → release 1 (some (region mem 1), p) ≡ (none, page_free mem p)
unfolding rc_free
last mem p = refl

-- A new region with `k` references more: the first `k` releases leave the region and the pages, and
-- the next one frees both.
rc_free-last :
    (k mem : ℕ) (p : Pages)
    → k + 1 < 2 ^ 32
    → let r = share k (record { mem = mem; count = 1 }) in
      (release k (some r, p) ≡ (some (record { mem = mem; count = 1 }), p))
      × (release (suc k) (some r, p) ≡ (none, page_free mem p))
rc_free-last k mem p small =
    let shared = share_count k mem 1 (omega arith) in
    let kept : release k (some (share k (region mem 1)), p) ≡ (some (region mem 1), p) =
      ap (λ (r : RcRegion). release k (some r, p)) shared
      ∙ release_kept k mem (1 + k) p (omega arith) (omega arith)
      ∙ ap (λ (c : ℕ). (some (region mem c), p)) (omega arith) in
    (kept, release_more k (some (share k (region mem 1)), p) ∙ ap (release 1) kept ∙ last mem p)
