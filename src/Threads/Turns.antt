-- ===== src/Threads/Turns.antt =====
-- The turns of the threads: nobody waits longer than those in front take.
use mathlib.Core.List.{append_assoc}
use oscs25_labs.Base.{
  ℕ, zero, suc, ◌+◌, ◌<◌, ◌^◌, ◌≡◌, subst, List, [], ◌∷◌, ◌++◌, length, length-append, arith,
}
use oscs25_labs.Threads.Defs.{System, schedule}
use oscs25_labs.Threads.Steps.{user, Represents, schedule-Represents}

-- `n` calls of `schedule`, each by the thread that runs.
abbrev pub turns : ℕ → System → System
turns zero s = s
turns (suc n) s = turns n (schedule s)

length_middle :
    (ys : List ℕ) (t : ℕ) (zs : List ℕ) → length (ys ++ t ∷ zs) ≡ length ys + suc (length zs)
length_middle ys t zs = length-append ys (t ∷ zs)

-- With `ys` in front of it, the thread `t` runs after just one turn more than `ys` has threads, if the
-- threads do nothing but give way; those behind `t` keep their places, then come the thread that ran
-- and `ys`.
pub turns-Represents :
    (ys : List ℕ) (t : ℕ) (zs ds : List ℕ) (c : ℕ) (s : System)
    → Represents s (user c) (ys ++ t ∷ zs) ds
    → suc (length (ys ++ t ∷ zs)) < 2 ^ 32
    → Represents (turns (suc (length ys)) s) (user t) (zs ++ c ∷ ys) ds
turns-Represents [] t zs ds c s r room = schedule-Represents s (user c) (t ∷ zs) ds r room
turns-Represents (y ∷ ys) t zs ds c s r room =
    let r₁ = schedule-Represents s (user c) (y ∷ (ys ++ t ∷ zs)) ds r room in
    let e : (ys ++ t ∷ zs) ++ c ∷ [] ≡ ys ++ t ∷ (zs ++ c ∷ []) =
      append_assoc ys (t ∷ zs) (c ∷ []) in
    let r₂ : Represents (schedule s) (user y) (ys ++ t ∷ (zs ++ c ∷ [])) ds =
      subst (λ (l : List ℕ). Represents (schedule s) (user y) l ds) e r₁ in
    let small : suc (length (ys ++ t ∷ (zs ++ c ∷ []))) < 2 ^ 32 = omega (
      arith,
      length_middle ys t zs,
      length_middle ys t (zs ++ c ∷ []),
      length-append zs (c ∷ []),
    ) in
    subst (λ (l : List ℕ). Represents (turns (suc (length (y ∷ ys))) s) (user t) l ds)
      (append_assoc zs (c ∷ []) (y ∷ ys))
      (turns-Represents ys t (zs ++ c ∷ []) ds y (schedule s) r₂ small)
