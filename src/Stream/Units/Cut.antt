-- ===== src/Stream/Units/Cut.antt =====
-- What a stream remembers does not depend on how its bytes come in.
use okam_ha_native.Base.{
  ◌+◌, ◌≤◌, ◌<◌, List, [], ◌∷◌, ◌++◌, ◌≡◌, sym, ap, ◌∙◌, arith, append_assoc, append-nil, length,
  All, length-append,
}
use okam_ha_native.Base.Bytes.{Bytes}
use okam_ha_native.Stream.Units.{Media, record_unit, note_media, max_scan_bytes}
use okam_ha_native.Stream.Units.Pieces.{
  pieces, joined, whole, whole-pieces, IsUnitStart, pieces-IsUnitStart, more, pieces-append,
  more_starts, unit_first,
}
use okam_ha_native.Stream.Units.Settle.{
  settle, note_media-settle, settle-scanning, settle-cons, length-settle,
}

settle-more :
    (u : Bytes) (us : List Bytes) (b : Bytes) (m : Media)
    → All IsUnitStart (u ∷ us)
    → settle (pieces 0 ((settle ([], u ∷ us) m).scan ++ b)) (settle ([], u ∷ us) m)
      ≡ settle ([], more (u ∷ us) b) m
unfolding settle
settle-more u [] b m h =
    let next = pieces 0 (u ++ b) in
    settle-scanning next.0 next.1 u m ∙ ap (λ p. settle (p, next.1) m) (unit_first u b h.0)
settle-more u (v ∷ us) b m h =
    settle-more v us b (record_unit u m) h.1
    ∙ sym (settle-cons [] u (more (v ∷ us) b) m (more_starts v us b h.1))

settle_again :
    (p : Bytes) (us : List Bytes) (s b : Bytes) (m : Media)
    → whole (p, us) ≡ s
    → All IsUnitStart us
    → (0 < length us → pieces 0 (s ++ b) ≡ (p, more us b))
    → settle (pieces 0 ((settle (p, us) m).scan ++ b)) (settle (p, us) m)
      ≡ settle (pieces 0 (s ++ b)) m
unfolding settle
settle_again p [] s b m same units next =
    let next = pieces 0 (p ++ b) in
    settle-scanning next.0 next.1 p m
    ∙ ap (λ t. settle (pieces 0 (t ++ b)) m) (sym (append-nil p) ∙ same)
settle_again p (u ∷ []) s b m same units next =
    let next = pieces 0 ((p ++ u) ++ b) in
    settle-scanning next.0 next.1 (p ++ u) m
    ∙ ap (λ t. settle (pieces 0 (t ++ b)) m) (ap (λ r. p ++ r) (sym (append-nil u)) ∙ same)
settle_again p (u ∷ v ∷ us) s b m same units next =
    settle-more v us b (record_unit u m) units.1
    ∙ sym (settle-cons p u (more (v ∷ us) b) m (more_starts v us b units.1))
    ∙ ap (λ r. settle r m) (sym (next (omega arith)))

-- Two chunks are one chunk.
pub note_media-append :
    (a b : Bytes) (m : Media)
    → length (m.scan ++ (a ++ b)) ≤ max_scan_bytes
    → note_media b (note_media a m) ≡ note_media (a ++ b) m
note_media-append a b m h =
    let s = m.scan ++ a in
    let (p, us) = pieces 0 s in
    let again : s ++ b ≡ m.scan ++ (a ++ b) = append_assoc m.scan a b in
    let size : length s + length b ≤ max_scan_bytes =
      omega (arith, h, length-append s b, ap length again) in
    let size_s : length s ≤ max_scan_bytes = omega (arith, size) in
    let kept = settle (p, us) m in
    let size_kept : length (kept.scan ++ b) ≤ max_scan_bytes = omega (
      arith,
      size,
      length-append kept.scan b,
      length-settle p us m,
      ap length (whole-pieces 0 s),
    ) in
    ap (note_media b) (note_media-settle a m size_s)
    ∙ note_media-settle b kept size_kept
    ∙ settle_again p us s b m (whole-pieces 0 s) (pieces-IsUnitStart 0 s) (pieces-append 0 s b)
    ∙ ap (λ t. settle (pieces 0 t) m) again
    ∙ sym (note_media-settle (a ++ b) m h)

abbrev pub note_chunks : List Bytes → Media → Media
note_chunks [] m = m
note_chunks (c ∷ cs) m = note_chunks cs (note_media c m)

-- However a stream is cut into chunks, the units that are remembered at its end and the bytes that
-- are kept for scanning are those of the stream in one piece, as long as the stream with the bytes
-- kept before it is not longer than the 4 MiB that are kept for scanning.
pub note_chunks-joined :
    (c : Bytes) (cs : List Bytes) (m : Media)
    → length (m.scan ++ joined (c ∷ cs)) ≤ max_scan_bytes
    → note_chunks (c ∷ cs) m ≡ note_media (joined (c ∷ cs)) m
note_chunks-joined c [] m h = ap (λ t. note_media t m) (sym (append-nil c))
note_chunks-joined c (d ∷ cs) m h =
    let rest = joined (d ∷ cs) in
    let s = m.scan ++ c in
    let size : length s + length rest ≤ max_scan_bytes =
      omega (arith, h, length-append s rest, ap length (append_assoc m.scan c rest)) in
    let kept = note_media c m in
    let settled = note_media-settle c m (omega (arith, size)) in
    let shorter : length kept.scan ≤ length s = omega (
      arith,
      length-settle (pieces 0 s).0 (pieces 0 s).1 m,
      ap length (whole-pieces 0 s),
      ap (λ (n : Media). length n.scan) settled,
    ) in
    note_chunks-joined d cs kept (omega (arith, size, shorter, length-append kept.scan rest))
    ∙ note_media-append c rest m h
