-- ===== src/Base/Counters.antt =====
-- Counters in the order of their names: `sorted(counters.items())`.
use okam_ha_native.Base.Tests.{ltb, ◌==◌, if◌then◌else◌}
use okam_ha_native.Base.Text.{Text, codes}
use Prim.Native.Nat.{ℕ}
use Prim.Native.String.{String}
use mathlib.Core.Bool.{Bool, true, false, ◌&&◌, ◌||◌}
use mathlib.Core.List.{List, [], ◌∷◌}

-- The order of two strings, by their code points.
before : Text → Text → Bool
before [] [] = false
before [] (c ∷ cs) = true
before (b ∷ bs) [] = false
before (b ∷ bs) (c ∷ cs) = ltb b c || (b == c && before bs cs)

insert_counter : String → ℕ → List (String × ℕ) → List (String × ℕ)
unfolding before
insert_counter name n [] = (name, n) ∷ []
insert_counter name n ((k, v) ∷ cs) =
    let rest = insert_counter name n cs in
    if before (codes k) (codes name) then (k, v) ∷ rest else (name, n) ∷ (k, v) ∷ cs

-- `dict(sorted(counters.items()))`
unfoldable pub sorted_counters : List (String × ℕ) → List (String × ℕ)
unfolding insert_counter
sorted_counters [] = []
sorted_counters ((name, n) ∷ cs) = insert_counter name n (sorted_counters cs)
