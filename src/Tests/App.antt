-- ===== src/Tests/App.antt =====
-- A start of the add-on, an acceptance run whose third attempt passes, and a wake-up that one server takes.
use okam_ha_native.Base.{
  ℕ, zero, suc, ◌+◌, ◌<◌, Bool, true, false, [], ◌∷◌, ◌≡◌, refl, none, some, List, ok, err,
  p2p_error, arith, ◌==◌, is_some,
}
use okam_ha_native.Base.Int.{pos, negsuc}
use okam_ha_native.Base.Text.{codes}
use okam_ha_native.App.{App, get_status, holds}
use okam_ha_native.App.Startup.{Setting, amd64, start, starting}
use okam_ha_native.App.Startup.Ready.{start_ready}
use okam_ha_native.App.Acceptance.{Environment, Attempts, connect_test, attempts_from}
use okam_ha_native.App.Acceptance.Passed.{verdict}
use okam_ha_native.App.Acceptance.Marked.{Marked, attempts_from_passes}
use okam_ha_native.Json.{no_members, member, string, object, null, boolean, get}
use okam_ha_native.P2p.Results.{ConnectResult}
use okam_ha_native.Wake.{wake_camera}
use okam_ha_native.Wake.Outcome.{Outcome, wake_camera_requested}

abbrev tried : Bool → ConnectResult
tried connected = record {
  connected = connected;
  connect_state = pos 3;
  disconnected = true;
  connect_path = codes "relay";
  counters = [];
}

abbrev attempts : Attempts
attempts = record {
  wake = λ n. none;
  connecting = λ n. ok (tried (n == 3));
  authenticating = λ n. err (p2p_error "unused");
  streaming = λ n. err (p2p_error "unused");
  snapshot = λ n. err (p2p_error "unused");
}

abbrev app : App
app = record { status = no_members; bridge = none }

two_failed : (j : ℕ) → j < 2 → verdict connect_test attempts (1 + j) ≡ ok false
two_failed zero h = refl
two_failed (suc zero) h = refl
two_failed (suc (suc j)) h = absurd (omega arith)

attempts_from_passes_example :
    ((attempts_from connect_test attempts 3 1 (false, 0) (negsuc 0) app).0 ≡ ok tt)
    × Marked connect_test 3
        (attempts_from connect_test attempts 3 1 (false, 0) (negsuc 0) app).1.status
attempts_from_passes_example =
    attempts_from_passes connect_test attempts 3 1 2 (false, 0) (negsuc 0) app (omega arith)
      two_failed refl

abbrev outcomes : List Outcome
outcomes = none ∷ some (true, codes "activation" ∷ []) ∷ []

wake_camera_requested_example :
    wake_camera (codes "ABCD123456") outcomes
    ≡ ok (record { requested = true; states = codes "activation" ∷ []; responsive_servers = 1 })
wake_camera_requested_example =
    wake_camera_requested (codes "ABCD123456") outcomes (omega arith) (omega arith) refl

abbrev environment : Environment
environment = record {
  has_credentials = true;
  resolve_client_id = λ uid. ok uid;
  get_service_parameter = λ client_id. ok (codes "service");
  attempts = λ client_id service_parameter camera_password. attempts;
}

-- An amd64 host with its helper, an account with one camera, and options with a token.
abbrev setting : Setting
setting = record {
  arch = amd64;
  vendor = record { complete = true; fetched = ok tt; has_helper = true; probed = ok null };
  options = holds (
      object (
        member "account_username" (string (codes "user")) (
          member "account_password" (string (codes "password"))
            (member "api_token" (string (codes "0123456789abcdef")) no_members))));
  enumerate = λ username password. ok (
      record { uid = codes "ABCD123456"; name = codes "Cabin"; device_password = codes "camera" }
      ∷ []);
  env = environment;
  stream_token = codes "secret";
  view = record {
    status = record {
      running = false;
      viewers = 0;
      media_ready = false;
      clean_disconnect = none;
      last_error = none;
    };
    idle_timeout = pos 120;
    snapshot = none;
    acquire = none;
  };
}

start_ready_example :
    get "camera_ready" (get_status (start setting starting))
    ≡ some (boolean (is_some (start setting starting).bridge))
start_ready_example = start_ready setting
