-- ===== src/P2p/Snapshot.antt =====
-- `run_snapshot_probe`, `open_stream_process` and `diagnostic_line`.
use okam_ha_native.Base.{
  zero, Bool, true, false, not, Option, none, some, ltb, if◌then◌else◌, Error, Result, ok,
  p2p_error, ◌>>=◌, ◌>>◌, demand, length, is_some, some_or_raise, take,
}
use okam_ha_native.Base.Bytes.{Bytes}
use okam_ha_native.Base.Int.{ℤ, pos}
use okam_ha_native.Base.Lines.{last_read, split_lines}
use okam_ha_native.Base.Text.{Text}
use okam_ha_native.Json.{Json, object, get}
use okam_ha_native.P2p.Jpeg.{jpeg_dimensions}
use okam_ha_native.P2p.Report.{helper_input, stream_result}
use okam_ha_native.P2p.Results.{SnapshotProbeResult}

-- A report is an object with the key `h264_received`.
abbrev pub report_in : Option Json → Option Json
report_in (some (object m)) = if is_some (get "h264_received" m) then some (object m) else none
report_in _ = none

-- What the two processes of a snapshot do with the input: the exit code and the output of ffmpeg,
-- and the exit code and the standard error of the helper; `none` where a call raises an `OSError` or
-- times out.
pub record SnapshotRun : Type 0 where
  pub decoded : Option (ℤ × Bytes)
  pub helper_ended : Option (ℤ × Bytes)

abbrev snapshot_failed : Error
snapshot_failed = p2p_error "native snapshot helper failed"

abbrev is_zero : ℤ → Bool
is_zero (pos zero) = true
is_zero _ = false

-- `stderr.read(MAX_RESPONSE_BYTES + 1)` is longer than the limit.
abbrev too_long : Bytes → Bool
too_long b = ltb 65536 (length (take 65537 b))

-- Behind the processes: `jpeg` of the decoder, and what the helper has left.
pub snapshot_result : (Bytes → Option Json) → Bytes → ℤ → Bytes → Result SnapshotProbeResult
snapshot_result loads image helper_code helper_stderr = do
  demand (not (too_long helper_stderr))
      (p2p_error "native snapshot helper returned an invalid response")
  stream ←
      stream_result (last_read (λ l. report_in (loads l)) (split_lines (take 65537 helper_stderr)))
        helper_code
  size ← jpeg_dimensions image
  ok (record { stream = stream; jpeg = image; width = size.0; height = size.1 })

unfoldable pub run_snapshot_probe :
    (Bytes → Option Json) → (Bytes → SnapshotRun) → Text → Text → Text → Result SnapshotProbeResult
unfolding snapshot_result
run_snapshot_probe loads run uid service_parameter device_password = do
  stdin ← helper_input uid service_parameter device_password
  decoded ← some_or_raise snapshot_failed (run stdin).decoded
  demand (is_zero decoded.0) (p2p_error "native snapshot decoder failed")
  ended ← some_or_raise snapshot_failed (run stdin).helper_ended
  snapshot_result loads decoded.1 ended.0 ended.1

-- `open_stream_process`: the process that was started and took the input, if nothing failed.
unfoldable pub open_stream_process :
    {P : Type 0} → (Bytes → Option P) → Text → Text → Text → Result P
open_stream_process start uid service_parameter device_password = do
  stdin ← helper_input uid service_parameter device_password
  some_or_raise (p2p_error "native H.264 stream helper failed") (start stdin)
