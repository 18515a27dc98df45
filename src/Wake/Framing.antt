-- ===== src/Wake/Framing.antt =====
-- A framed message is read back.
use okam_ha_native.Base.{
  ◌<◌, ◌≤◌, ◌++◌, ◌≡◌, refl, Option, length, length-append, take-append, drop-append, arith, lt→ltb,
  le→ltb, le→leb,
}
use okam_ha_native.Base.Bytes.{Bytes, big4, from_big-big4}
use okam_ha_native.Json.{Json}
use okam_ha_native.Wake.{max_message_bytes, framed, parsed, read_message}

-- A message of 1 to 1048576 bytes that was framed is read back whole, whatever stands behind it.
pub read_message-framed :
    (loads : Bytes → Option Json) (body rest : Bytes)
    → 0 < length body
    → length body ≤ max_message_bytes
    → read_message loads (framed body ++ rest) ≡ (parsed (loads body), rest)
unfolding read_message framed
read_message-framed loads body rest h k =
    let n = length body in
    let both = length-append body rest in
    rw
      (
        from_big-big4 n (omega arith),
        le→ltb (length (big4 n ++ (body ++ rest))) 4 (omega arith),
        lt→ltb 0 n h,
        le→leb n max_message_bytes k,
        le→ltb (length (body ++ rest)) n (omega arith),
        take-append body rest,
        drop-append body rest,
      )
      refl
