-- ===== src/P2p/Jpeg/Ends.antt =====
-- The loop over a JPEG ends: every round that goes on leaves less of the data.
use okam_ha_native.Base.{
  ℕ, zero, suc, ◌≤◌, ◌<◌, ◌≡◌, ◌≢◌, refl, Bool, true, false, not, ◌&&◌, ◌||◌, [], ◌∷◌, ltb, leb,
  ◌==◌, if◌then◌else◌, Bool-cases, inl, inr, Result, err, ok, out_of_fuel, length, drop,
  length-drop, arith,
}
use okam_ha_native.Base.Bytes.{Bytes, slice, equal, from_big}
use okam_ha_native.P2p.Jpeg.{
  bad_jpeg, start_of_frame, standalone, skip_fill, Round, go_on, found, broken, frame_size, segment,
  at_marker, one_round, scan, jpeg_dimensions,
}

skip_fill-length : (s : Bytes) → length (skip_fill s) ≤ length s
unfolding skip_fill
skip_fill-length [] = omega arith
skip_fill-length (b ∷ s) = ground (arith, skip_fill-length s)

-- What a round leaves is shorter than `n`.
abbrev Leaves : ℕ → Round → Type 0
Leaves n (go_on rest) = length rest < n
Leaves n (found width height) = Unit
Leaves n broken = Unit

Leaves-if :
    (n : ℕ) (b : Bool) (p q : Round)
    → (b ≡ true → Leaves n p)
    → (b ≡ false → Leaves n q)
    → Leaves n (if b then p else q)
Leaves-if n true p q h k = h refl
Leaves-if n false p q h k = k refl

frame_size-Leaves : (n : ℕ) (s : Bytes) → Leaves n (frame_size s)
unfolding frame_size
frame_size-Leaves n s =
    Leaves-if n (ltb 0 (from_big (slice 5 7 s)) && ltb 0 (from_big (slice 3 5 s))) _ _ (λ h. tt)
      (λ h. tt)

segment-Leaves : (marker : ℕ) (s : Bytes) → Leaves (length s) (segment marker s)
unfolding segment
segment-Leaves marker s =
    let n = from_big (slice 0 2 s) in
    Leaves-if (length s) (not (leb 2 (length s))) broken _ (λ h. tt)
      (λ long.
        Leaves-if (length s) (ltb n 2 || ltb (length s) n) broken _ (λ h. tt)
          (λ sized.
            Leaves-if (length s) (start_of_frame marker && leb 7 n) (frame_size s)
              (go_on (drop n s)) (λ h. frame_size-Leaves (length s) s)
              (λ h. shorter n s (ground arith) (ground arith))))
  where
    shorter : (n : ℕ) (s : Bytes) → 2 ≤ n → 2 ≤ length s → length (drop n s) < length s
    shorter n s h k = omega (arith, length-drop n s)

Leaves-mono : (m n : ℕ) (r : Round) → m ≤ n → Leaves m r → Leaves n r
Leaves-mono m n (go_on rest) k h = omega arith
Leaves-mono m n (found width height) k h = tt
Leaves-mono m n broken k h = tt

at_marker-Leaves : (s : Bytes) → Leaves (suc (length s)) (at_marker s)
unfolding at_marker
at_marker-Leaves [] = tt
at_marker-Leaves (marker ∷ s) =
    Leaves-if (suc (suc (length s))) (standalone marker) (go_on s) (segment marker s)
      (λ h. omega arith)
      (λ h. Leaves-mono (length s) (suc (suc (length s))) _ (omega arith) (segment-Leaves marker s))

one_round-Leaves : (s : Bytes) → Leaves (length s) (one_round s)
unfolding one_round
one_round-Leaves [] = tt
one_round-Leaves (b ∷ s) =
    Leaves-if (suc (length s)) (b == 0xff) (at_marker (skip_fill s)) (go_on s)
      (λ h.
        Leaves-mono (suc (length (skip_fill s))) (suc (length s)) _
          (omega (arith, skip_fill-length s)) (at_marker-Leaves (skip_fill s)))
      (λ h. omega arith)

abbrev InFuel : Result (ℕ × ℕ) → Type 0
InFuel r = r ≢ err out_of_fuel

then-InFuel :
    (n fuel : ℕ) (r : Round)
    → n ≤ fuel
    → Leaves n r
    → ((rest : Bytes) → length rest < fuel → InFuel (scan fuel rest))
    → InFuel (elim r [
      | go_on rest ↦ scan fuel rest
      | found width height ↦ ok (width, height)
      | broken ↦ err bad_jpeg
    ])
then-InFuel n fuel (go_on rest) k h goes = goes rest (omega arith)
then-InFuel n fuel (found width height) k h goes = λ e. absurd (cc e)
then-InFuel n fuel broken k h goes = λ e. absurd (cc e)

scan-InFuel : (fuel : ℕ) (s : Bytes) → length s < fuel → InFuel (scan fuel s)
unfolding scan
scan-InFuel zero s h = absurd (omega arith)
scan-InFuel (suc fuel) s h = elim (Bool-cases (ltb (length s) 4)) [
  | inl short ↦ rw short (λ e. absurd (cc e))
  | inr long ↦ rw long (
      then-InFuel (length s) fuel (one_round s) (omega arith) (one_round-Leaves s)
        (scan-InFuel fuel))
]

-- The loop over the data of a JPEG ends, on any data: the model's rounds, one more than the data has
-- bytes, are enough for it.
pub jpeg_dimensions_ends : (jpeg : Bytes) → jpeg_dimensions jpeg ≢ err out_of_fuel
unfolding jpeg_dimensions
jpeg_dimensions_ends jpeg =
    elim (Bool-cases (leb 11 (length jpeg) && equal (slice 0 2 jpeg) (0xff ∷ 0xd8 ∷ []))) [
      | inl good ↦
          rw good
            (scan-InFuel (suc (length jpeg)) (drop 2 jpeg) (omega (arith, length-drop 2 jpeg)))
      | inr bad ↦ rw bad (λ e. absurd (cc e))
    ]
