-- ===== src/Stream/Snapshot.antt =====
-- `NativeStreamSession.snapshot`, over a decoder that is a parameter, and `status`.
use okam_ha_native.Base.{
  ℕ, zero, Bool, true, false, not, if◌then◌else◌, Option, none, some, Result, ok, err, p2p_error,
  ◌>>=◌, ◌>>◌, demand, some_or_raise, length,
}
use okam_ha_native.Base.Action.{Action}
use okam_ha_native.Base.Bytes.{Bytes}
use okam_ha_native.Base.Int.{ℤ, pos}
use okam_ha_native.Base.Text.{codes}
use okam_ha_native.Bridge.{SessionStatus}
use okam_ha_native.P2p.Jpeg.{jpeg_dimensions}
use okam_ha_native.Stream.{Stream, Started, acquire, release, needs_start}

-- The exit code and the output of the decoder; `none` where a call raises an `OSError` or a
-- `SubprocessError`, as when the decoder does not end in time.
abbrev pub Decoded : Type 0
Decoded = Option (ℤ × Bytes)

abbrev is_zero : ℤ → Bool
is_zero (pos zero) = true
is_zero _ = false

-- The picture, its width and its height.
unfoldable pub picture_of : Decoded → Result (Bytes × ℕ × ℕ)
picture_of decoded = do
  ended ← some_or_raise (p2p_error "native on-demand snapshot failed") decoded
  demand (is_zero ended.0) (p2p_error "native on-demand snapshot decoder failed")
  size ← jpeg_dimensions ended.1
  ok (ended.1, size.0, size.1)

released : (Stream → Stream) → Decoded → Result ℕ × Stream → Result (Bytes × ℕ × ℕ) × Stream
unfolding picture_of release
released meanwhile decoded (err e, s) = (err e, s)
released meanwhile decoded (ok id, s) = (picture_of decoded, release id (meanwhile s))

-- `meanwhile` is what the threads of the session do to it while the decoder runs. The subscription is
-- closed however the decoder ends.
unfoldable pub snapshot :
    (ℕ → Bool) → Started → ℕ → (Stream → Stream) → Decoded → Action Stream (Bytes × ℕ × ℕ)
unfolding released
snapshot exited started id meanwhile decoded s =
    released meanwhile decoded (acquire exited started id s)

unfoldable pub status : (ℕ → Bool) → Stream → SessionStatus
status exited s = record {
  running = not (needs_start exited s.process);
  viewers = length s.subscribers;
  media_ready = s.media_ready;
  clean_disconnect = s.clean_disconnect;
  last_error = if s.failed then some (codes "native_stream_ended") else none;
}
