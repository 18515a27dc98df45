-- ===== src/Helper/Stream.antt =====
-- The part of `run` that reads the stream.
use okam_ha_native.Base.{
  ℕ, zero, suc, ◌+◌, Bool, true, false, not, ◌&&◌, ◌||◌, List, [], ◌∷◌, ◌++◌, Option, none, some,
  leb, ◌==◌, if◌then◌else◌, err, ok, out_of_fuel, length,
}
use okam_ha_native.Base.Action.{Action, pure, gets, done, ◌>>=◌, ◌>>◌}
use okam_ha_native.Base.Bytes.{Bytes}
use okam_ha_native.Base.Int.{ℤ}
use okam_ha_native.Cs2.Command.{read_command_result}
use okam_ha_native.Cs2.Video.{read_video_frame, inspect_h264}
use okam_ha_native.Helper.Summary.{Summary}
use okam_ha_native.Helper.Process.{
  Mode, stream_stdout, Process, on_session, report, close_with, start_path, stop_path, send_cgi,
}

-- `LIVE_STREAM_RESPONSE_COMMANDS`
abbrev pub live_responses : List ℕ
live_responses = 0x6037 ∷ 0x60d1 ∷ []

abbrev pub record_answer : Option (ℕ × ℤ) → Summary → Summary
record_answer none s = s
record_answer (some (command, result)) s = record s {
  stream_start_command = command;
  stream_start_result = result;
}

abbrev pub mark_start_sent : Summary → Summary
mark_start_sent s = record s { stream_start_sent = true }

abbrev pub mark_stop_sent : Summary → Summary
mark_stop_sent s = record s { stream_stop_sent = true }

-- The request that starts the stream, and its acknowledgement.
unfoldable pub start_stream : ℕ → ℕ → ℕ → Action Process Unit
unfolding start_path
start_stream rounds fuel substream = do
  send_cgi fuel (start_path substream)
  report mark_start_sent
  answer ← on_session (read_command_result rounds fuel live_responses 10000)
  report (record_answer answer)

abbrev pub count_h265 : Summary → Summary
count_h265 s = record s { h265_frames = s.h265_frames + 1 }

abbrev pub count_h264 : ℕ → Bool → Summary → Summary
count_h264 size keyframe s = record s {
  h264_received = true;
  h264_frames = s.h264_frames + 1;
  h264_bytes = s.h264_bytes + size;
  keyframe_seen = s.keyframe_seen || keyframe;
}

-- Three frames, 1024 bytes and a key frame.
abbrev pub enough : Summary → Bool
enough s = leb 3 s.h264_frames && (leb 1024 s.h264_bytes && s.keyframe_seen)

-- `sys.stdout.buffer.write(payload)`: whether the pipe is broken.
abbrev pub write_out : Bytes → Action Process Bool
write_out payload p =
    let called = record p { writes = p.writes + 1 } in
    if p.pipe_broken p.writes
    then (ok true, called)
    else (ok false, record called { output = p.output ++ (payload ∷ []) })

-- What follows a counted frame: whether the loop is left.
abbrev pub after_frame : Mode → Bytes → Action Process Bool
after_frame stream_stdout payload = write_out payload
after_frame _ payload = gets (λ p. enough p.summary)

-- One frame: whether the loop is left.
unfoldable pub take_frame : Mode → Bytes → ℕ → Action Process Bool
take_frame mode payload frame_type =
    let (valid, keyframe) = inspect_h264 payload in
    if frame_type == 0x10 || frame_type == 0x11
    then (do report count_h265; pure false)
    else if not valid
    then pure false
    else (do report (count_h264 (length payload) keyframe); after_frame mode payload)

-- `_running`
abbrev pub look : Action Process Bool
look p = (ok (not (p.stopped p.looks)), record p { looks = p.looks + 1 })

unfoldable pub stream_loop : ℕ → ℕ → Mode → Action Process Unit
unfolding take_frame
stream_loop zero fuel mode p = (err out_of_fuel, p)
stream_loop (suc frames) fuel mode p =
    let go_on = stream_loop frames fuel mode in
    (do
      running ← look
      if running
          then (do
            frame ← on_session (read_video_frame fuel 45000)
            over ← take_frame mode frame.0 frame.1
            if over then done else go_on)
          else done)
      p

abbrev pub stream_code : Summary → ℕ
stream_code s = if s.h264_received && s.stream_stop_sent then 0 else 6

-- From the start of the stream to the exit.
unfoldable pub stream : ℕ → ℕ → ℕ → Mode → ℕ → Action Process ℕ
unfolding start_stream stream_loop
stream frames rounds fuel mode substream = do
  start_stream rounds fuel substream
  stream_loop frames fuel mode
  send_cgi fuel stop_path
  report mark_stop_sent
  close_with stream_code
