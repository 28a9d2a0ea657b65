-- ===== src/Slabs/Sizes.antt =====
-- The pool of a size has the smallest objects that are large enough.
use oscs25_labs.Base.{
  ℕ, ◌+◌, ◌-◌, ◌*◌, ◌/◌, ◌≤◌, ◌<◌, false, Option, none, some, ltb, leb, ◌≡◌, refl, sym, ap, ◌∙◌,
  arith, Bool-cases, inl, inr,
}
use oscs25_labs.Slabs.{get_pool_idx, pool_obj_size, obj_max_size, total_cache}

pool_idx_value : (size : ℕ) → size ≤ obj_max_size → get_pool_idx size ≡ (size - 1) / 16
unfolding get_pool_idx
pool_idx_value size small = elim (Bool-cases (ltb size 16)) [
  | inl tiny ↦ let lt : size < 16 = ground arith in rw tiny (omega arith)
  | inr more ↦ let le : 16 ≤ size = ground arith in rw more (omega arith)
]

pool_size_inside : (idx : ℕ) → idx < total_cache → pool_obj_size idx ≡ some (idx * 16 + 16)
unfolding pool_obj_size
pool_size_inside idx lt = let e : leb 64 idx ≡ false = ground arith in rw e refl

pool_size_value : (k other : ℕ) → pool_obj_size k ≡ some other → other ≡ k * 16 + 16
unfolding pool_obj_size
pool_size_value k other e = elim (Bool-cases (leb 64 k)) [
  | inl outside ↦
      let no_size : ◌≡◌ {A = Option ℕ} none (some other) = rw outside at e in absurd (cc no_size)
  | inr inside ↦
      let size : ◌≡◌ {A = Option ℕ} (some (k * 16 + 16)) (some other) = rw inside at e in
      let same : k * 16 + 16 ≡ other = cc size in sym same
]

-- A size of at most `OBJ_MAX_SIZE` has the pool of the least size of objects that holds it.
get_pool_idx-least :
    (size : ℕ)
    → size ≤ obj_max_size
    → (obj_size : ℕ) × (pool_obj_size (get_pool_idx size) ≡ some obj_size)
      × (size ≤ obj_size)
      × ((k other : ℕ) → pool_obj_size k ≡ some other → size ≤ other → obj_size ≤ other)
get_pool_idx-least size small =
    let idx = (size - 1) / 16 in
    let value = pool_idx_value size small in
    (
      idx * 16 + 16,
      ap pool_obj_size value ∙ pool_size_inside idx (omega arith),
      omega arith,
      λ k other e holds. omega (arith, pool_size_value k other e),
    )
