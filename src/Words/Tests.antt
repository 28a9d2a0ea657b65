-- ===== src/Words/Tests.antt =====
-- Words on small inputs.
use oscs25_labs.Base.{◌+◌, ◌*◌, ◌≤◌, ◌<◌, ℕ, ◌^◌, ◌≡◌, refl, arith, some}
use oscs25_labs.Words.{roundup_pow2, smear, align}
use oscs25_labs.Words.Align.{align-least}

roundup_runs : roundup_pow2 4097 ≡ 8192
unfolding roundup_pow2 smear
roundup_runs = refl

align_runs : align 0x1001 16 ≡ some 0x1010
unfolding align
align_runs = refl

align-least_example :
    (q : ℕ) × (align 0x1005 (2 ^ 3) ≡ some (q * 2 ^ 3))
    × (0x1005 ≤ q * 2 ^ 3)
    × (q * 2 ^ 3 < 0x1005 + 2 ^ 3)
align-least_example = align-least 0x1005 3 (omega arith) (omega arith)
