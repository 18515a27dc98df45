-- ===== src/P2p/Jpeg.antt =====
-- `_jpeg_dimensions`: the size that the frame header of a JPEG names.
pub mod Ends
pub mod Found
use okam_ha_native.Base.{
  ℕ, zero, suc, ◌+◌, Bool, true, false, not, ◌&&◌, ◌||◌, List, [], ◌∷◌, Option, none, some, ltb,
  leb, ◌==◌, if◌then◌else◌, Error, Result, err, ok, p2p_error, out_of_fuel, demand, ◌>>◌, length,
  any, drop,
}
use okam_ha_native.Base.Bytes.{Bytes, slice, equal, from_big}

abbrev pub bad_jpeg : Error
bad_jpeg = p2p_error "native snapshot decoder returned invalid JPEG data"

abbrev pub start_of_frame : ℕ → Bool
start_of_frame marker =
    any (λ m. m == marker)
      (0xc0 ∷ 0xc1 ∷ 0xc2 ∷ 0xc3 ∷ 0xc5 ∷ 0xc6 ∷ 0xc7 ∷ 0xc9 ∷ 0xca ∷ 0xcb ∷ 0xcd ∷ 0xce ∷ 0xcf
        ∷ [])

-- A marker that no length follows.
abbrev pub standalone : ℕ → Bool
standalone marker =
    any (λ m. m == marker) (0x01 ∷ 0xd8 ∷ 0xd9 ∷ []) || (leb 0xd0 marker && leb marker 0xd7)

-- The inner loop: `jpeg[offset:]` behind its 0xFF bytes.
pub skip_fill : Bytes → Bytes
skip_fill [] = []
skip_fill (b ∷ s) = let rest = skip_fill s in if b == 0xff then rest else b ∷ s

-- What one round leaves of `jpeg[offset:]`, or the end of the loop: a `return`, or a `break`.
pub data Round : Type 0 where
  go_on : Bytes → Round
  found : ℕ → ℕ → Round
  broken : Round

-- The `if` on a frame header, at its two length bytes.
pub frame_size : Bytes → Round
frame_size s =
    let height = from_big (slice 3 5 s) in
    let width = from_big (slice 5 7 s) in
    if ltb 0 width && ltb 0 height then found width height else broken

-- A marker with its segment; `s` starts at the two bytes of the segment's length.
pub segment : ℕ → Bytes → Round
unfolding frame_size
segment marker s =
    let segment_length = from_big (slice 0 2 s) in
    if not (leb 2 (length s))
    then broken
    else if ltb segment_length 2 || ltb (length s) segment_length
    then broken
    else if start_of_frame marker && leb 7 segment_length
    then frame_size s
    else go_on (drop segment_length s)

pub at_marker : Bytes → Round
unfolding segment
at_marker [] = broken
at_marker (marker ∷ s) = if standalone marker then go_on s else segment marker s

pub one_round : Bytes → Round
unfolding skip_fill at_marker
one_round [] = broken
one_round (b ∷ s) = if b == 0xff then at_marker (skip_fill s) else go_on s

-- The outer loop.
pub scan : ℕ → Bytes → Result (ℕ × ℕ)
unfolding one_round
scan zero s = err out_of_fuel
scan (suc fuel) s = if ltb (length s) 4 then err bad_jpeg else elim (one_round s) [
  | go_on rest ↦ scan fuel rest
  | found width height ↦ ok (width, height)
  | broken ↦ err bad_jpeg
]

unfoldable pub jpeg_dimensions : Bytes → Result (ℕ × ℕ)
unfolding scan
jpeg_dimensions jpeg =
    demand (leb 11 (length jpeg) && equal (slice 0 2 jpeg) (0xff ∷ 0xd8 ∷ [])) bad_jpeg
    >> scan (suc (length jpeg)) (drop 2 jpeg)
