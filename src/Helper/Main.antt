-- ===== src/Helper/Main.antt =====
-- `main` of the helper: its arguments, its input, the run, and what it prints.
use okam_ha_native.Base.{
  ℕ, Bool, true, List, [], ◌∷◌, Option, none, some, String, if◌then◌else◌, Result, err, ok,
  is_cs2_error, ◌>>=◌,
}
use okam_ha_native.Base.Bytes.{Bytes}
use okam_ha_native.Base.Int.{ℤ}
use okam_ha_native.Base.Text.{Text}
use okam_ha_native.Cs2.Connect.{Binding}
use okam_ha_native.Cs2.Create.{new_session}
use okam_ha_native.Cs2.Session.{World}
use okam_ha_native.Json.{Members}
use okam_ha_native.Helper.Input.{read_inputs}
use okam_ha_native.Helper.Process.{
  Mode, connecting, authenticating, stream_test, stream_stdout, Process,
}
use okam_ha_native.Helper.Run.{run_process, fresh_process}
use okam_ha_native.Helper.Summary.{Summary, report_of}
use text.Mathlib.Text.{◌==◌ as str_eq}

-- What a run gives back: the exit code and the summary, in the process that it leaves.
abbrev pub run_in : Result ℕ × Process → Result (ℕ × Summary)
run_in (ok code, p) = ok (code, p.summary)
run_in (err e, p) = err e

unfoldable pub run :
    ℕ
    → ℕ
    → ℕ
    → Binding
    → Option Text
    → World
    → (ℕ → Bool)
    → (ℕ → Bool)
    → Mode
    → Text
    → Text
    → Option Text
    → Option ℤ
    → ℕ
    → Bool
    → Result (ℕ × Summary)
run frames rounds fuel binding route world stopped pipe_broken mode uid service password index
      substream prefer_relay =
    do
      session ← new_session uid service prefer_relay world
      run_in (
          run_process frames rounds fuel binding route mode password index substream
            (fresh_process session password stopped pipe_broken))

-- What the process leaves: the exit code, and the report on standard output or standard error.
pub data Ended : Type 0 where
  exit : ℕ → Ended
  printed printed_to_stderr : ℕ → Members → Ended

-- `modes`
abbrev mode_of : String → Option Mode
mode_of option =
    if str_eq option ""
    then some connecting
    else if str_eq option "--authenticate"
    then some authenticating
    else if str_eq option "--stream-test"
    then some stream_test
    else if str_eq option "--stream-stdout"
    then some stream_stdout
    else none

-- `sys.argv`, of which the second entry is not looked at: the mode, if the arguments are good.
abbrev pub mode_in : List String → Option Mode
mode_in (program ∷ library ∷ []) = mode_of ""
mode_in (program ∷ library ∷ option ∷ []) = mode_of option
mode_in _ = none

print : Mode → ℕ × Summary → Ended
print stream_stdout (code, s) = printed_to_stderr code (report_of s)
print _ (code, s) = printed code (report_of s)

-- `except CS2Error: return 3`
finish : Mode → Result (ℕ × Summary) → Result Ended
unfolding print
finish mode (ok result) = ok (print mode result)
finish mode (err e) = if is_cs2_error e then ok (exit 3) else err e

run_stage :
    (Mode → Text → Text → Option Text → Result (ℕ × Summary)) → Mode → Bytes → Result (ℕ × Summary)
run_stage stage mode stdin = do
  inputs ← (read_inputs mode stdin).0
  stage mode inputs.0 inputs.1 inputs.2

unfoldable pub main :
    ℕ
    → ℕ
    → ℕ
    → Binding
    → Option Text
    → World
    → (ℕ → Bool)
    → (ℕ → Bool)
    → List String
    → Bytes
    → Result Ended
unfolding run finish run_stage
main frames rounds fuel binding route world stopped pipe_broken arguments stdin =
    let stage = λ (mode : Mode) (uid : Text) (service : Text) (password : Option Text).
      run frames rounds fuel binding route world stopped pipe_broken mode uid service password none
        2 true in
    elim (mode_in arguments) [
      | none ↦ ok (exit 2)
      | some mode ↦ finish mode (run_stage stage mode stdin)
    ]
