-- ===== src/Stream/Remembered.antt =====
-- The units that a stream remembers are what they are remembered for, and in bounds.
use okam_ha_native.Base.{
  ℕ, ◌-◌, ◌%◌, ◌≤◌, ◌<◌, ◌||◌, List, [], ◌∷◌, ◌++◌, ◌≡◌, refl, arith, ltb, leb, ◌==◌, length,
  length-drop, Bool-cases, inl, inr, ◌⊎◌,
}
use okam_ha_native.Base.Bytes.{Bytes, byte_at, slice}
use okam_ha_native.Stream.Units.{
  Media, empty, record_unit, record_all, starts_from, trimmed, note_media, max_preamble_bytes,
  max_scan_bytes,
}

-- A remembered unit is one of the kind it is remembered for, and fits.
abbrev pub IsUnit : ℕ → Bytes → Type 0
IsUnit kind unit =
    (unit ≡ [])
    ⊎ ((3 < length unit) × (length unit ≤ max_preamble_bytes) × (byte_at unit 3 % 32 ≡ kind))

pub record HasUnits (m : Media) : Type 0 where
  pub sps : IsUnit 7 m.sps
  pub pps : IsUnit 8 m.pps
  pub keyframe : IsUnit 5 m.keyframe

record_unit-HasUnits : (unit : Bytes) (m : Media) → HasUnits m → HasUnits (record_unit unit m)
unfolding record_unit
record_unit-HasUnits unit m h =
    let kind = byte_at unit 3 % 32 in
    elim (Bool-cases (leb (length unit) 3 || ltb max_preamble_bytes (length unit))) [
      | inl unfit ↦ rw unfit h
      | inr fits ↦
          let size : (3 < length unit) × (length unit ≤ max_preamble_bytes) =
            ground (arith, fits) in
          elim (Bool-cases (kind == 7)) [
            | inl k7 ↦
                rw (fits, k7)
                  (record {
                    sps = inr (size.0, size.1, ground (arith, k7));
                    pps = h.pps;
                    keyframe = h.keyframe;
                  })
            | inr not7 ↦ elim (Bool-cases (kind == 8)) [
              | inl k8 ↦
                  rw (fits, not7, k8)
                    (record {
                      sps = h.sps;
                      pps = inr (size.0, size.1, ground (arith, k8));
                      keyframe = h.keyframe;
                    })
              | inr not8 ↦ elim (Bool-cases (kind == 5)) [
                | inl k5 ↦
                    rw (fits, not7, not8, k5)
                      (record {
                        sps = h.sps;
                        pps = h.pps;
                        keyframe = inr (size.0, size.1, ground (arith, k5));
                      })
                | inr other ↦ rw (fits, not7, not8, other) h
              ]
            ]
          ]
    ]

record_all-HasUnits :
    (starts : List ℕ) (scan : Bytes) (m : Media) → HasUnits m → HasUnits (record_all starts scan m)
unfolding record_all
record_all-HasUnits [] scan m h = record { sps = h.sps; pps = h.pps; keyframe = h.keyframe }
record_all-HasUnits (last ∷ []) scan m h = record {
  sps = h.sps;
  pps = h.pps;
  keyframe = h.keyframe;
}
record_all-HasUnits (from ∷ to ∷ starts) scan m h =
    record_all-HasUnits (to ∷ starts) scan (record_unit (slice from to scan) m)
      (record_unit-HasUnits (slice from to scan) m h)

length-record_all :
    (starts : List ℕ) (scan : Bytes) (m : Media)
    → length (record_all starts scan m).scan ≤ length scan
unfolding record_all
length-record_all [] scan m = omega arith
length-record_all (last ∷ []) scan m = omega (arith, length-drop last scan)
length-record_all (from ∷ to ∷ starts) scan m =
    length-record_all (to ∷ starts) scan (record_unit (slice from to scan) m)

-- What a stream remembers of its media.
pub record IsMedia (m : Media) : Type 0 where
  pub units : HasUnits m
  pub scanned : length m.scan ≤ max_scan_bytes

pub note_media-IsMedia : (bytes : Bytes) (m : Media) → IsMedia m → IsMedia (note_media bytes m)
unfolding note_media trimmed
note_media-IsMedia bytes m h =
    let scan = trimmed (m.scan ++ bytes) in
    let starts = starts_from 0 0 scan in
    let size : length scan ≤ max_scan_bytes =
      omega (arith, length-drop (length (m.scan ++ bytes) - max_scan_bytes) (m.scan ++ bytes)) in
    elim (Bool-cases (ltb (length starts) 2)) [
      | inl few ↦ rw few (record {
        units = record { sps = h.units.sps; pps = h.units.pps; keyframe = h.units.keyframe };
        scanned = size;
      })
      | inr many ↦ rw many (record {
        units = record_all-HasUnits starts scan m h.units;
        scanned = omega (arith, size, length-record_all starts scan m);
      })
    ]

pub empty-IsMedia : IsMedia empty
empty-IsMedia = record {
  units = record { sps = inl refl; pps = inl refl; keyframe = inl refl };
  scanned = omega arith;
}
