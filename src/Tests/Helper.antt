-- ===== src/Tests/Helper.antt =====
-- Runs of the helper, and what the probes make of what it prints.
use okam_ha_native.Base.{
  ℕ, Bool, true, false, [], ◌∷◌, ◌++◌, ◌≡◌, refl, none, some, ok, err, type_error,
}
use okam_ha_native.Base.Bytes.{Bytes, from_big}
use okam_ha_native.Base.Int.{pos}
use okam_ha_native.Base.Text.{Text, codes}
use okam_ha_native.Cs2.Connect.{bound, no_socket}
use okam_ha_native.Helper.Accepted.{connect_report-report_of}
use okam_ha_native.Helper.Input.{read_field, read_inputs}
use okam_ha_native.Helper.Main.{main, exit}
use okam_ha_native.Helper.Process.{authenticating}
use okam_ha_native.Helper.Run.{run_process, fresh_process}
use okam_ha_native.Helper.Run.Codes.{Exits}
use okam_ha_native.Helper.Run.Exits.{run_process-Exits}
use okam_ha_native.Helper.Summary.{default_summary, report_of}
use okam_ha_native.Json.{object}
use okam_ha_native.P2p.Report.{connect_report}
use okam_ha_native.Tests.Connect.{new, route}
use okam_ha_native.Tests.Data.{quiet}

-- The input of the helper: the fields "ABCD", "key" and one that is not ASCII.
abbrev password : Text
password = b'p' ∷ 0xe9 ∷ 0x20ac ∷ []

abbrev stdin : Bytes
stdin =
    (0 ∷ 0 ∷ 0 ∷ 4 ∷ codes "ABCD")
    ++ ((0 ∷ 0 ∷ 0 ∷ 3 ∷ codes "key")
        ++ (0 ∷ 0 ∷ 0 ∷ 6 ∷ b'p' ∷ 0xc3 ∷ 0xa9 ∷ 0xe2 ∷ 0x82 ∷ 0xac ∷ []))

never : ℕ → Bool
never n = false

-- The session that connects over a relay.
run_process-Exits_example : Exits (
    run_process 1 1 1
      (bound 40000)
      route
      authenticating
      (some password)
      none
      2
      (fresh_process new (some password) never never))
run_process-Exits_example =
    run_process-Exits 1 1 1 (bound 40000) route authenticating (some password) none 2
      (fresh_process new (some password) never never)

connect_report-report_of_example :
    connect_report (object (report_of (record default_summary { connected = true }))) (pos 0)
    ≡ err type_error
connect_report-report_of_example =
    connect_report-report_of (record default_summary { connected = true }) 0 refl

-- The wrong number of arguments, and an input that is cut off.
usage : main 1 1 1 no_socket route quiet never never ("helper" ∷ []) stdin ≡ ok (exit 2)
unfolding main
usage = refl

cut_off :
    main 1 1 1 no_socket route quiet never never ("helper" ∷ "library" ∷ []) (0 ∷ 0 ∷ 0 ∷ 4 ∷ [])
    ≡ ok (exit 3)
unfolding main read_inputs read_field from_big
cut_off = refl
