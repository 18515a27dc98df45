-- ===== src/Base/Lines.antt =====
-- `bytes.splitlines()`, and the last line that holds an answer.
use okam_ha_native.Base.Bytes.{Bytes}
use okam_ha_native.Base.Tests.{◌==◌, if◌then◌else◌}
use Prim.Native.Nat.{ℕ}
use mathlib.Core.Bool.{Bool, false}
use mathlib.Core.List.{List, [], ◌∷◌}
use mathlib.Core.Option.{Option, none, some}

-- The line that a byte string starts with, and the lines behind it.
abbrev onto_line : ℕ → List Bytes → List Bytes
onto_line c [] = (c ∷ []) ∷ []
onto_line c (l ∷ ls) = (c ∷ l) ∷ ls

-- A line ends with CR LF, with CR or with LF. `after_cr` tells that the last byte was a CR, to which
-- an LF still belongs.
lines_from : Bool → Bytes → List Bytes
lines_from after_cr [] = []
lines_from after_cr (c ∷ cs) =
    let rest = lines_from (c == 0x0d) cs in
    if c == 0x0a
    then (if after_cr then rest else [] ∷ rest)
    else if c == 0x0d
    then [] ∷ rest
    else onto_line c rest

unfoldable pub split_lines : Bytes → List Bytes
unfolding lines_from
split_lines = lines_from false

-- What the last line says of which `reads` makes something: `for line in reversed(lines)`.
pub last_read : {A : Type 0} → (Bytes → Option A) → List Bytes → Option A
last_read reads [] = none
last_read reads (l ∷ ls) = elim (last_read reads ls) [ some found ↦ some found | none ↦ reads l ]
