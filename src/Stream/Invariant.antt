-- ===== src/Stream/Invariant.antt =====
-- What holds of a stream whatever its viewers and its process do.
use okam_ha_native.Base.{ℕ, Bool, refl, Option}
use okam_ha_native.Base.Bytes.{Bytes}
use okam_ha_native.Base.Int.{ℤ}
use okam_ha_native.Json.{Json}
use okam_ha_native.Stream.{
  on_stderr, on_read, parse_summary_locked, Stream, new_stream, Started, acquire, release, on_chunk,
  on_exit, stop_if_idle, close,
}
use okam_ha_native.Stream.Sound.{
  IsSound, new_stream-IsSound, acquire-IsSound, release-IsSound, on_chunk-IsSound,
  on_stderr-IsSound, on_read-IsSound,
}

-- The calls of the session and of its threads, in any order.
pub data Reached : Stream → Type 0 where
  made : Reached new_stream
  acquired :
      {s : Stream} (exited : ℕ → Bool) (started : Started) (id : ℕ)
      → Reached s
      → Reached (acquire exited started id s).1
  released : {s : Stream} (id : ℕ) → Reached s → Reached (release id s)
  pumped : {s : Stream} (bytes : Bytes) → Reached s → Reached (on_chunk bytes s)
  ended :
      {s : Stream} (loads : Bytes → Option Json) (p : ℕ) (returncode : ℤ)
      → Reached s
      → Reached (on_exit loads p returncode s)
  drained : {s : Stream} (block : Bytes) → Reached s → Reached (on_stderr block s)
  taken : {s : Stream} (id : ℕ) → Reached s → Reached (on_read id s)
  timed_out : {s : Stream} → Reached s → Reached (stop_if_idle s).1
  shut : {s : Stream} → Reached s → Reached (close s)

-- Whatever viewers come, read and go, chunks and standard error arrive, processes start, fail and end,
-- and timers run out: no queue holds more than 32 items, the idle timer runs only while there is no
-- viewer, at most 64 KiB of standard error and 4 MiB for scanning are kept, and the sequence parameter set, picture parameter set and key frame that
-- are remembered have the types 7, 8 and 5 and at most 1 MiB each.
pub Reached-IsSound : {s : Stream} → Reached s → IsSound s
unfolding on_exit parse_summary_locked stop_if_idle close
Reached-IsSound made = new_stream-IsSound
Reached-IsSound (acquired exited started id r) =
    acquire-IsSound exited started id _ (Reached-IsSound r)
Reached-IsSound (released id r) = release-IsSound id _ (Reached-IsSound r)
Reached-IsSound (pumped bytes r) = on_chunk-IsSound bytes _ (Reached-IsSound r)
Reached-IsSound (drained block r) = on_stderr-IsSound block _ (Reached-IsSound r)
Reached-IsSound (taken id r) = on_read-IsSound id _ (Reached-IsSound r)
Reached-IsSound (ended loads p returncode r) =
    let h = Reached-IsSound r in
    record { queues = tt; timer = λ on. refl; media = h.media; stderr = h.stderr }
Reached-IsSound (timed_out r) =
    let h = Reached-IsSound r in
    record { queues = h.queues; timer = λ on. absurd (cc on); media = h.media; stderr = h.stderr }
Reached-IsSound (shut r) =
    let h = Reached-IsSound r in
    record { queues = h.queues; timer = λ on. absurd (cc on); media = h.media; stderr = h.stderr }
