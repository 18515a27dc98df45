-- ===== src/Stream/Units.antt =====
-- `_note_media`, `_record_unit` and `_preamble`: what a new viewer needs of the stream.
pub mod Pieces
pub mod Settle
pub mod Cut
use okam_ha_native.Base.{
  ℕ, zero, suc, ◌+◌, ◌-◌, ◌*◌, ◌%◌, Bool, true, false, ◌||◌, List, [], ◌∷◌, ◌++◌, ltb, leb, ◌==◌,
  if◌then◌else◌, length, take, drop,
}
use okam_ha_native.Base.Bytes.{Bytes, equal, slice, byte_at}

abbrev pub max_preamble_bytes : ℕ
max_preamble_bytes = 1024 * 1024

abbrev pub max_scan_bytes : ℕ
max_scan_bytes = 4 * 1024 * 1024

abbrev pub annex_b_start : Bytes
annex_b_start = 0 ∷ 0 ∷ 1 ∷ []

-- The bytes that are scanned, and the units that are remembered.
pub record Media : Type 0 where
  pub scan : Bytes
  pub sps : Bytes
  pub pps : Bytes
  pub keyframe : Bytes

abbrev pub empty : Media
empty = record { scan = []; sps = []; pps = []; keyframe = [] }

unfoldable pub record_unit : Bytes → Media → Media
record_unit unit m =
    let kind = byte_at unit 3 % 32 in
    if leb (length unit) 3 || ltb max_preamble_bytes (length unit)
    then m
    else if kind == 7
    then record m { sps = unit }
    else if kind == 8
    then record m { pps = unit }
    else if kind == 5
    then record m { keyframe = unit }
    else m

-- The positions of the start codes, from position `at` on; the search goes on behind a start code.
pub starts_from : ℕ → ℕ → Bytes → List ℕ
starts_from skip at [] = []
starts_from (suc skip) at (b ∷ s) = starts_from skip (at + 1) s
starts_from zero at (b ∷ s) =
    let found = at ∷ starts_from 2 (at + 1) s in
    let other = starts_from zero (at + 1) s in
    if equal (take 3 (b ∷ s)) annex_b_start then found else other

-- The units between each start and the next; at the end, what stands at the last start stays.
unfoldable pub record_all : List ℕ → Bytes → Media → Media
record_all [] scan m = record m { scan = scan }
record_all (last ∷ []) scan m = record m { scan = drop last scan }
record_all (from ∷ to ∷ starts) scan m =
    record_all (to ∷ starts) scan (record_unit (slice from to scan) m)

-- The newest `max_scan_bytes`.
unfoldable pub trimmed : Bytes → Bytes
trimmed scan = drop (length scan - max_scan_bytes) scan

unfoldable pub note_media : Bytes → Media → Media
unfolding record_unit starts_from record_all trimmed
note_media chunk m =
    let scan = trimmed (m.scan ++ chunk) in
    let starts = starts_from 0 0 scan in
    if ltb (length starts) 2 then record m { scan = scan } else record_all starts scan m

abbrev non_empty : Bytes → Bool
non_empty [] = false
non_empty (b ∷ bs) = true

unfoldable pub preamble : Media → Bytes
preamble m =
    let all = m.sps ++ (m.pps ++ m.keyframe) in
    if non_empty m.sps
    then (if non_empty m.pps then (if leb (length all) max_preamble_bytes then all else []) else [])
    else []
