-- ===== src/P2p/Jpeg/Found.antt =====
-- A JPEG written by its segments: the size that its frame header names is found.
use okam_ha_native.Base.{
  ℕ, zero, suc, ◌+◌, ◌≤◌, ◌<◌, ◌≡◌, refl, ap, ◌∙◌, true, false, ◌||◌, List, [], ◌∷◌, ◌++◌, ltb,
  ◌==◌, All, ok, length, length-append, drop-append, arith, le→ltb, lt→ltb, le→leb,
}
use okam_ha_native.Base.Bytes.{Bytes, equal_iff, big2, from_big-big2}
use okam_ha_native.P2p.Jpeg.{
  start_of_frame, standalone, skip_fill, go_on, found, frame_size, segment, at_marker, one_round,
  scan, jpeg_dimensions,
}

-- A marker and what follows its two length bytes.
abbrev pub Segment : Type 0
Segment = ℕ × Bytes

abbrev pub segment_bytes : Segment → Bytes
segment_bytes (marker, body) = 0xff ∷ marker ∷ (big2 (suc (suc (length body))) ++ body)

abbrev pub segments_bytes : List Segment → Bytes → Bytes
segments_bytes [] tail = tail
segments_bytes (s ∷ ss) tail = segment_bytes s ++ segments_bytes ss tail

-- A segment with a length, that is no frame header.
pub record IsPassed (s : Segment) : Type 0 where
  pub has_length : standalone s.0 ≡ false
  pub no_frame : start_of_frame s.0 ≡ false
  pub no_fill : (s.0 == 0xff) ≡ false
  pub fits : length s.1 + 2 < 65536

-- A frame header: precision, height, width, and `more` about the components.
pub record Frame : Type 0 where
  pub marker : ℕ
  pub precision : ℕ
  pub height : ℕ
  pub width : ℕ
  pub more : Bytes

abbrev pub frame_bytes : Frame → Bytes → Bytes
frame_bytes f tail =
    segment_bytes (f.marker, f.precision ∷ (big2 f.height ++ (big2 f.width ++ f.more))) ++ tail

pub record IsFrame (f : Frame) : Type 0 where
  pub starts : start_of_frame f.marker ≡ true
  pub tall : (0 < f.height) × (f.height < 65536)
  pub wide : (0 < f.width) × (f.width < 65536)
  pub fits : length f.more + 7 < 65536

-- A round on a 0xFF byte and a marker.
one_round-marker :
    (marker : ℕ) (s : Bytes)
    → standalone marker ≡ false
    → (marker == 0xff) ≡ false
    → one_round (0xff ∷ marker ∷ s) ≡ segment marker s
unfolding one_round skip_fill at_marker
one_round-marker marker s h k = rw (k, h) refl

-- The bytes from a segment's length on, `rest` behind its body.
abbrev sized : Bytes → Bytes → Bytes
sized body tail = big2 (suc (suc (length body))) ++ (body ++ tail)

sized-fits :
    (body tail : Bytes)
    → (ltb (suc (suc (length body))) 2 || ltb (length (sized body tail)) (suc (suc (length body))))
      ≡ false
sized-fits body tail = let long = length-append body tail in ground arith

segment-passed :
    (marker : ℕ) (body tail : Bytes)
    → start_of_frame marker ≡ false
    → length body + 2 < 65536
    → segment marker (sized body tail) ≡ go_on tail
unfolding segment
segment-passed marker body tail h k =
    rw
      (
        from_big-big2 (suc (suc (length body))) (omega arith),
        le→leb 2 (length (sized body tail)) (omega arith),
        sized-fits body tail,
        h,
      )
      (ap go_on (drop-append body tail))

segment-frame :
    (marker : ℕ) (body tail : Bytes)
    → start_of_frame marker ≡ true
    → 5 ≤ length body
    → length body + 2 < 65536
    → segment marker (sized body tail) ≡ frame_size (sized body tail)
unfolding segment
segment-frame marker body tail h k l =
    rw
      (
        from_big-big2 (suc (suc (length body))) (omega arith),
        le→leb 2 (length (sized body tail)) (omega arith),
        sized-fits body tail,
        h,
        le→leb 7 (suc (suc (length body))) (omega arith),
      )
      refl

one_round-segment :
    (s : Segment) (tail : Bytes) → IsPassed s → one_round (segment_bytes s ++ tail) ≡ go_on tail
one_round-segment (marker, body) tail p =
    one_round-marker marker (sized body tail) p.has_length p.no_fill
    ∙ segment-passed marker body tail p.no_frame p.fits

start_of_frame-lem :
    (m : ℕ) → start_of_frame m ≡ true → (standalone m ≡ false) × ((m == 0xff) ≡ false)
start_of_frame-lem m h = (ground arith, ground arith)

abbrev frame_body : Frame → Bytes
frame_body f = f.precision ∷ (big2 f.height ++ (big2 f.width ++ f.more))

frame_size-frame :
    (f : Frame) (tail : Bytes)
    → IsFrame f
    → frame_size (sized (frame_body f) tail) ≡ found f.width f.height
unfolding frame_size
frame_size-frame f tail p =
    rw
      (
        from_big-big2 f.width p.wide.1,
        from_big-big2 f.height p.tall.1,
        lt→ltb 0 f.width p.wide.0,
        lt→ltb 0 f.height p.tall.0,
      )
      refl

one_round-frame :
    (f : Frame) (tail : Bytes) → IsFrame f → one_round (frame_bytes f tail) ≡ found f.width f.height
one_round-frame f tail p =
    let (lengthy, no_fill) = start_of_frame-lem f.marker p.starts in
    let fits = p.fits in
    one_round-marker f.marker (sized (frame_body f) tail) lengthy no_fill
    ∙ (segment-frame f.marker (frame_body f) tail p.starts (omega arith) (omega arith)
        ∙ frame_size-frame f tail p)

scan-go_on :
    (fuel : ℕ) (s rest : Bytes)
    → 4 ≤ length s
    → one_round s ≡ go_on rest
    → scan (suc fuel) s ≡ scan fuel rest
unfolding scan
scan-go_on fuel s rest long h = rw (le→ltb (length s) 4 long, h) refl

scan-found :
    (fuel : ℕ) (f : Frame) (tail : Bytes)
    → one_round (frame_bytes f tail) ≡ found f.width f.height
    → scan (suc fuel) (frame_bytes f tail) ≡ ok (f.width, f.height)
unfolding scan
scan-found fuel f tail e = rw (le→ltb (length (frame_bytes f tail)) 4 (omega arith), e) refl

segments-long :
    (ss : List Segment) (f : Frame) (tail : Bytes)
    → 9 ≤ length (segments_bytes ss (frame_bytes f tail))
segments-long [] f tail = omega arith
segments-long ((marker, body) ∷ ss) f tail =
    let more = segments-long ss f tail in
    let both = length-append body (segments_bytes ss (frame_bytes f tail)) in omega arith

scan-segments :
    (fuel : ℕ) (ss : List Segment) (f : Frame) (tail : Bytes)
    → length (segments_bytes ss (frame_bytes f tail)) < fuel
    → All IsPassed ss
    → IsFrame f
    → scan fuel (segments_bytes ss (frame_bytes f tail)) ≡ ok (f.width, f.height)
scan-segments zero ss f tail h p q = absurd (omega arith)
scan-segments (suc fuel) [] f tail h p q = scan-found fuel f tail (one_round-frame f tail q)
scan-segments (suc fuel) ((marker, body) ∷ ss) f tail h p q =
    let rest = segments_bytes ss (frame_bytes f tail) in
    let both = length-append body rest in
    scan-go_on fuel (segment_bytes (marker, body) ++ rest) rest (omega arith)
      (one_round-segment (marker, body) rest p.0)
    ∙ scan-segments fuel ss f tail (omega arith) p.1 q

-- The dimensions of a JPEG that holds any segments but frame headers, a frame header with a width and
-- a height from 1 to 65535, and anything behind, are the ones of that frame header.
pub jpeg_dimensions_found :
    (ss : List Segment) (f : Frame) (tail : Bytes)
    → All IsPassed ss
    → IsFrame f
    → jpeg_dimensions (0xff ∷ 0xd8 ∷ segments_bytes ss (frame_bytes f tail))
      ≡ ok (f.width, f.height)
unfolding jpeg_dimensions
jpeg_dimensions_found ss f tail p q =
    let long = segments-long ss f tail in
    rw
      (
        le→leb 11 (length (0xff ∷ 0xd8 ∷ segments_bytes ss (frame_bytes f tail))) (omega arith),
        (equal_iff (0xff ∷ 0xd8 ∷ []) (0xff ∷ 0xd8 ∷ [])).1 refl,
      )
      (scan-segments (suc (length (0xff ∷ 0xd8 ∷ segments_bytes ss (frame_bytes f tail)))) ss f tail
        (omega arith) p q)
