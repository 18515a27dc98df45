-- ===== src/Cs2/Video.antt =====
-- `read_video_frame` and `inspect_h264`.
pub mod Inspect
use okam_ha_native.Base.{
  ℕ, ◌%◌, Bool, true, false, ◌&&◌, ◌||◌, [], ◌∷◌, Option, none, some, ltb, leb, ◌==◌, if◌then◌else◌,
  take, drop,
}
use okam_ha_native.Base.Action.{Action, pure, check, ◌>>=◌, ◌>>◌}
use okam_ha_native.Base.Bytes.{Bytes, byte_at, slice, equal, from_little}
use okam_ha_native.Cs2.Session.{Cs2Session}
use okam_ha_native.Cs2.Channel.{read_exact, max_frame_bytes}

unfoldable pub read_video_frame : ℕ → ℕ → Action Cs2Session (Bytes × ℕ)
read_video_frame fuel timeout = do
  header ← read_exact fuel 1 32 timeout
  check (equal (take 4 header) (0x55 ∷ 0xaa ∷ 0x15 ∷ 0xa8 ∷ [])) "camera video framing is invalid"
  let size = from_little (slice 16 20 header)
  check (ltb 0 size && leb size max_frame_bytes) "camera video frame is invalid"
  payload ← read_exact fuel 1 size timeout
  pure (payload, byte_at header 4)

-- What stands behind a start code, if one stands at the front.
pub nal_after : Bytes → Option Bytes
nal_after s =
    if equal (take 3 s) (0 ∷ 0 ∷ 1 ∷ [])
    then some (drop 3 s)
    else if equal (take 4 s) (0 ∷ 0 ∷ 0 ∷ 1 ∷ [])
    then some (drop 4 s)
    else none

-- `(valid, keyframe)` before and after one position
pub inspect_nal : Option Bytes → Bool × Bool → Bool × Bool
inspect_nal (some (b ∷ rest)) (valid, keyframe) =
    let kind = b % 32 in
    if leb 1 kind && leb kind 12
    then (true, keyframe || (kind == 5 || kind == 7))
    else (valid, keyframe)
inspect_nal _ flags = flags

pub inspect_from : Bytes → Bool × Bool → Bool × Bool
inspect_from [] flags = flags
inspect_from (b ∷ s) flags = inspect_from s (inspect_nal (nal_after (b ∷ s)) flags)

unfoldable pub inspect_h264 : Bytes → Bool × Bool
unfolding inspect_from inspect_nal nal_after
inspect_h264 payload = inspect_from payload (false, false)
