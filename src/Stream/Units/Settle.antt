-- ===== src/Stream/Units/Settle.antt =====
-- `_note_media` in terms of the units that start codes mark off.
use okam_ha_native.Base.{
  ℕ, zero, suc, ◌+◌, ◌-◌, ◌≤◌, ◌<◌, false, List, [], ◌∷◌, ◌++◌, ◌≡◌, refl, sym, ap, ◌∙◌, arith,
  append_assoc, append-nil, Bool-cases, inl, inr, if◌then◌else◌, ltb, leb, ◌==◌, ◌||◌, ◌%◌, length,
  take, drop, take-append, drop-append, length-append,
}
use okam_ha_native.Base.Bytes.{Bytes, slice, byte_at}
use okam_ha_native.Stream.Units.{
  Media, record_unit, record_all, trimmed, note_media, starts_from, max_scan_bytes,
  max_preamble_bytes,
}
use okam_ha_native.Stream.Units.Pieces.{
  Pieces, pieces, joined, whole, whole-pieces, offsets, starts_from-pieces,
}

abbrev pub scanning : Bytes → Media → Media
scanning scan m = record m { scan = scan }

-- All units but the last are recorded, and the last is scanned again with the bytes that follow.
unfoldable pub settle : Pieces → Media → Media
settle (p, []) m = scanning p m
settle (p, u ∷ []) m = scanning (p ++ u) m
settle (p, u ∷ v ∷ us) m = settle ([], v ∷ us) (record_unit u m)

slice-middle :
    (pre u rest : Bytes) (stop : ℕ)
    → stop ≡ length pre + length u
    → slice (length pre) stop (pre ++ (u ++ rest)) ≡ u
slice-middle [] u rest stop h =
    let same : stop ≡ length u = omega (arith, h) in
    ap (λ n. take n (u ++ rest)) same ∙ take-append u rest
slice-middle (c ∷ pre) u rest zero h = absurd (omega (arith, h))
slice-middle (c ∷ pre) u rest (suc stop) h = slice-middle pre u rest stop (omega (arith, h))

record_all-settle :
    (pre u : Bytes) (us : List Bytes) (m : Media)
    → record_all (offsets (length pre) (u ∷ us)) (pre ++ joined (u ∷ us)) m ≡ settle ([], u ∷ us) m
unfolding record_all settle
record_all-settle pre u [] m = ap (λ t. scanning t m) (drop-append pre (u ++ []) ∙ append-nil u)
record_all-settle pre u (v ∷ us) m =
    let scan = pre ++ (u ++ joined (v ∷ us)) in
    let unit = slice (length pre) (length pre + length u) scan in
    let again : (pre ++ u) ++ joined (v ∷ us) ≡ scan = append_assoc pre u (joined (v ∷ us)) in
    let at : length (pre ++ u) ≡ length pre + length u = length-append pre u in
    ap (λ n. record_all (offsets n (v ∷ us)) scan (record_unit unit m)) (sym at)
    ∙ ap (λ t. record_all (offsets (length (pre ++ u)) (v ∷ us)) t (record_unit unit m)) (sym again)
    ∙ record_all-settle (pre ++ u) v us (record_unit unit m)
    ∙ ap (λ x. settle ([], v ∷ us) (record_unit x m))
        (slice-middle pre u (joined (v ∷ us)) (length pre + length u) refl)

trimmed-short : (s : Bytes) → length s ≤ max_scan_bytes → trimmed s ≡ s
unfolding trimmed
trimmed-short s h =
    let none_lost : length s - max_scan_bytes ≡ 0 = omega (arith, h) in ap (λ n. drop n s) none_lost

settle_starts :
    (p : Bytes) (us : List Bytes) (starts : List ℕ) (m : Media)
    → starts ≡ offsets (length p) us
    → (if ltb (length starts) 2
        then scanning (whole (p, us)) m
        else record_all starts (whole (p, us)) m)
      ≡ settle (p, us) m
unfolding settle
settle_starts p [] starts m h = rw h (ap (λ t. scanning t m) (append-nil p))
settle_starts p (u ∷ []) starts m h = rw h (ap (λ t. scanning (p ++ t) m) (append-nil u))
settle_starts p (u ∷ v ∷ us) starts m h =
    let many : ltb (length (offsets (length p) (u ∷ v ∷ us))) 2 ≡ false = ground arith in
    rw (h, many) (record_all-settle p u (v ∷ us) m)

pub note_media-settle :
    (chunk : Bytes) (m : Media)
    → length (m.scan ++ chunk) ≤ max_scan_bytes
    → note_media chunk m ≡ settle (pieces 0 (m.scan ++ chunk)) m
unfolding note_media
note_media-settle chunk m h =
    let scan = m.scan ++ chunk in
    let (p, us) = pieces 0 scan in
    let run = λ (t : Bytes) (starts : List ℕ).
      if ltb (length starts) 2 then scanning t m else record_all starts t m in
    ap (λ t. run t (starts_from 0 0 t)) (trimmed-short scan h)
    ∙ ap (λ t. run t (starts_from 0 0 scan)) (sym (whole-pieces 0 scan))
    ∙ settle_starts p us (starts_from 0 0 scan) m
        (starts_from-pieces 0 0 scan ∙ ap (λ n. offsets n us) (zero_plus (length p)))
  where
    zero_plus : (n : ℕ) → 0 + n ≡ n
    zero_plus n = omega arith

record_unit-scanning :
    (unit t : Bytes) (m : Media) → record_unit unit (scanning t m) ≡ scanning t (record_unit unit m)
unfolding record_unit
record_unit-scanning unit t m =
    let kind = byte_at unit 3 % 32 in
    elim (Bool-cases (leb (length unit) 3 || ltb max_preamble_bytes (length unit))) [
      | inl unfit ↦ rw unfit refl
      | inr fits ↦ elim (Bool-cases (kind == 7)) [
        | inl k7 ↦ rw (fits, k7) refl
        | inr not7 ↦ elim (Bool-cases (kind == 8)) [
          | inl k8 ↦ rw (fits, not7, k8) refl
          | inr not8 ↦ elim (Bool-cases (kind == 5)) [
            | inl k5 ↦ rw (fits, not7, not8, k5) refl
            | inr other ↦ rw (fits, not7, not8, other) refl
          ]
        ]
      ]
    ]

-- What was kept for scanning is replaced.
pub settle-scanning :
    (p : Bytes) (us : List Bytes) (t : Bytes) (m : Media)
    → settle (p, us) (scanning t m) ≡ settle (p, us) m
unfolding settle
settle-scanning p [] t m = refl
settle-scanning p (u ∷ []) t m = refl
settle-scanning p (u ∷ v ∷ us) t m =
    ap (settle ([], v ∷ us)) (record_unit-scanning u t m)
    ∙ settle-scanning [] (v ∷ us) t (record_unit u m)

pub settle-cons :
    (p u : Bytes) (us : List Bytes) (m : Media)
    → 0 < length us
    → settle (p, u ∷ us) m ≡ settle ([], us) (record_unit u m)
unfolding settle
settle-cons p u [] m h = absurd (omega arith)
settle-cons p u (v ∷ us) m h = refl

pub length-settle :
    (p : Bytes) (us : List Bytes) (m : Media)
    → length (settle (p, us) m).scan ≤ length (whole (p, us))
unfolding settle
length-settle p [] m = omega (arith, length-append p [])
length-settle p (u ∷ []) m =
    omega (arith, length-append p u, length-append p (u ++ []), length-append u [])
length-settle p (u ∷ v ∷ us) m =
    let rest = joined (v ∷ us) in
    omega (
      arith,
      length-settle [] (v ∷ us) (record_unit u m),
      length-append p (u ++ rest),
      length-append u rest,
    )
