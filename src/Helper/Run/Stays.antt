-- ===== src/Helper/Run/Stays.antt =====
-- Steps of `run` that keep the session connected in the summary.
use okam_ha_native.Base.{
  ℕ, zero, suc, Bool, true, false, not, ◌≡◌, inl, inr, refl, Option, none, some, Bool-cases,
  if◌then◌else◌, Result, err, ok, ◌==◌, ◌||◌, length, get_elem?,
}
use okam_ha_native.Base.Action.{Action, pure, lift, gets, modify, continue, done, ◌>>=◌, ◌>>◌}
use okam_ha_native.Base.Bytes.{Bytes}
use okam_ha_native.Base.Int.{ℤ, pos, negsuc}
use okam_ha_native.Base.Text.{Text}
use okam_ha_native.Cs2.Login.{Credential, authenticate_camera, login_candidates}
use okam_ha_native.Cs2.Session.{Cs2Session}
use okam_ha_native.Helper.Process.{
  Mode, connecting, authenticating, stream_test, stream_stdout, Process, on_session, report,
  send_cgi, log_in, force_candidate, use_candidate, start_path, accept, record_login,
  mark_login_sent,
}
use okam_ha_native.Helper.Stream.{
  start_stream, stream_loop, take_frame, record_answer, live_responses, mark_start_sent, count_h265,
  count_h264, write_out, after_frame, look,
}
use okam_ha_native.Cs2.Command.{write_command, read_command_result}
use okam_ha_native.Cs2.Video.{read_video_frame, inspect_h264}
use okam_ha_native.Helper.Summary.{Summary}
use okam_ha_native.Cs2.Request.{make_cgi_request}

-- The run is connected.
abbrev pub Connected : Process → Type 0
Connected p = p.summary.connected ≡ true

-- A step keeps the run connected.
pub record Stays {A : Type 0} (m : Action Process A) : Type 0 where
  pub stays : (p : Process) → Connected p → Connected (m p).1

module _ {A : Type 0} where
  continue-Stays :
      {B : Type 0} (r : Result A × Process) (k : A → Action Process B)
      → Connected r.1
      → ((a : A) → Stays (k a))
      → Connected (continue r k).1
  continue-Stays (ok a, p) k h next = (next a).stays p h
  continue-Stays (err e, p) k h next = h

  Stays-bind :
      {B : Type 0} (m : Action Process A) (k : A → Action Process B)
      → Stays m
      → ((a : A) → Stays (k a))
      → Stays (m >>= k)
  Stays-bind m k first next = record {
    stays = λ p h. continue-Stays (m p) k (first.stays p h) next;
  }

  Stays-if : (b : Bool) (m k : Action Process A) → Stays m → Stays k → Stays (if b then m else k)
  Stays-if true m k h l = h
  Stays-if false m k h l = l

  Stays-on_session : (m : Action Cs2Session A) → Stays (on_session m)
  Stays-on_session m = record { stays = λ p h. h }

pub Stays-report :
    (change : Summary → Summary)
    → ((s : Summary) → (change s).connected ≡ s.connected)
    → Stays (report change)
Stays-report change same = record { stays = λ p h. rw (same p.summary) h }

Stays-quiet : {A : Type 0} (f : Process → Result A) → Stays (λ p. (f p, p))
Stays-quiet f = record { stays = λ p h. h }

pub Stays-send_cgi : (fuel : ℕ) (path : Text) → Stays (send_cgi fuel path)
unfolding send_cgi
Stays-send_cgi fuel path =
    Stays-bind (gets (λ p. p.accepted))
      (λ accepted.
        lift (make_cgi_request path accepted.0 accepted.1)
        >>= (λ request. on_session (write_command fuel request)))
      (Stays-quiet _)
      (λ accepted.
        Stays-bind (lift (make_cgi_request path accepted.0 accepted.1))
          (λ request. on_session (write_command fuel request)) (Stays-quiet _)
          (λ request. Stays-on_session (write_command fuel request)))

Stays-accept : (credential : Credential) → Stays (modify (accept credential))
Stays-accept credential = record { stays = λ p h. h }

pub Stays-log_in : (rounds fuel : ℕ) (password : Text) → Stays (log_in rounds fuel password)
unfolding log_in
Stays-log_in rounds fuel password =
    Stays-bind (report mark_login_sent) _ (Stays-report mark_login_sent (λ s. refl)) (λ u.
      Stays-bind (on_session (authenticate_camera rounds fuel password 45000))
        (λ login. modify (accept (login.user, login.password)) >> report (record_login login))
        (Stays-on_session (authenticate_camera rounds fuel password 45000))
        (λ login.
          Stays-bind (modify (accept (login.user, login.password)))
            (λ u. report (record_login login)) (Stays-accept _)
            (λ u. Stays-report (record_login login) (λ s. refl))))

Stays-use_candidate : (n : ℕ) (o : Option Credential) → Stays (use_candidate n o)
Stays-use_candidate n none = record { stays = λ p h. h }
Stays-use_candidate n (some credential) = record { stays = λ p h. h }

pub Stays-force_candidate : (password : Text) (index : ℤ) → Stays (force_candidate password index)
unfolding force_candidate
Stays-force_candidate password (negsuc n) = record { stays = λ p h. h }
Stays-force_candidate password (pos n) =
    Stays-use_candidate n (get_elem? (login_candidates password) n)

Stays-record_answer : (answer : Option (ℕ × ℤ)) → Stays (report (record_answer answer))
Stays-record_answer none = Stays-report (record_answer none) (λ s. refl)
Stays-record_answer (some (command, result)) =
    Stays-report (record_answer (some (command, result))) (λ s. refl)

pub Stays-start_stream : (rounds fuel substream : ℕ) → Stays (start_stream rounds fuel substream)
unfolding start_stream
Stays-start_stream rounds fuel substream =
    let reading = λ (u : Unit {0}).
      on_session (read_command_result rounds fuel live_responses 10000)
      >>= (λ answer. report (record_answer answer)) in
    Stays-bind (send_cgi fuel (start_path substream)) (λ u. report mark_start_sent >>= reading)
      (Stays-send_cgi fuel (start_path substream))
      (λ u.
        Stays-bind (report mark_start_sent) reading (Stays-report mark_start_sent (λ s. refl)) (λ u.
          Stays-bind (on_session (read_command_result rounds fuel live_responses 10000))
            (λ answer. report (record_answer answer))
            (Stays-on_session (read_command_result rounds fuel live_responses 10000))
            Stays-record_answer))

Stays-write_out : (payload : Bytes) → Stays (write_out payload)
Stays-write_out payload = record {
  stays = λ p h. elim (Bool-cases (p.pipe_broken p.writes)) [
    | inl broken ↦ rw broken h
    | inr whole ↦ rw whole h
  ];
}

Stays-after_frame : (mode : Mode) (payload : Bytes) → Stays (after_frame mode payload)
Stays-after_frame stream_stdout payload = Stays-write_out payload
Stays-after_frame connecting payload = record { stays = λ p h. h }
Stays-after_frame authenticating payload = record { stays = λ p h. h }
Stays-after_frame stream_test payload = record { stays = λ p h. h }

Stays-take_frame :
    (mode : Mode) (payload : Bytes) (frame_type : ℕ) → Stays (take_frame mode payload frame_type)
unfolding take_frame
Stays-take_frame mode payload frame_type =
    let (valid, keyframe) = inspect_h264 payload in
    Stays-if (frame_type == 0x10 || frame_type == 0x11) _ _
      (Stays-bind (report count_h265) (λ u. pure false) (Stays-report count_h265 (λ s. refl))
        (λ u. Stays-quiet _))
      (Stays-if (not valid) (pure false)
        (report (count_h264 (length payload) keyframe) >>= (λ u. after_frame mode payload))
        (Stays-quiet _)
        (Stays-bind (report (count_h264 (length payload) keyframe)) (λ u. after_frame mode payload)
          (Stays-report (count_h264 (length payload) keyframe) (λ s. refl))
          (λ u. Stays-after_frame mode payload)))

Stays-look : Stays look
Stays-look = record { stays = λ p h. h }

pub Stays-stream_loop : (frames fuel : ℕ) (mode : Mode) → Stays (stream_loop frames fuel mode)
unfolding stream_loop
Stays-stream_loop zero fuel mode = record { stays = λ p h. h }
Stays-stream_loop (suc frames) fuel mode =
    let go_on = stream_loop frames fuel mode in
    let judge = λ (frame : Bytes × ℕ).
      take_frame mode frame.0 frame.1 >>= (λ over. if over then done else go_on) in
    let next = on_session (read_video_frame fuel 45000) >>= judge in
    Stays-bind look (λ running. if running then next else done) Stays-look
      (λ running.
        Stays-if running next done
          (Stays-bind (on_session (read_video_frame fuel 45000)) judge
            (Stays-on_session (read_video_frame fuel 45000))
            (λ frame.
              Stays-bind (take_frame mode frame.0 frame.1) (λ over. if over then done else go_on)
                (Stays-take_frame mode frame.0 frame.1)
                (λ over.
                  Stays-if over done go_on (Stays-quiet _) (Stays-stream_loop frames fuel mode))))
          (Stays-quiet _))
