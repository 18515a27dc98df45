-- ===== src/Cs2/Command.antt =====
-- Camera commands on channel 0: `write_command`, `read_command`, `_read_response` and
-- `read_command_result`. Times are milliseconds, `fuel` bounds the rounds of each loop.
pub mod Parse
use okam_ha_native.Base.{
  ℕ, zero, suc, ◌+◌, ◌-◌, ◌*◌, ◌<◌, Bool, true, false, not, ◌&&◌, ◌||◌, List, [], ◌∷◌, Option, none,
  some, ltb, leb, ◌==◌, if◌then◌else◌, Result, ok, err, cs2_error, cs2_timeout, out_of_fuel, length,
  any,
}
use okam_ha_native.Base.Action.{Action, pure, raise, lift, check, continue, ◌>>=◌, ◌>>◌}
use okam_ha_native.Base.Bytes.{Bytes, slice, from_little}
use okam_ha_native.Base.Int.{ℤ}
use okam_ha_native.Base.Names.{hex4}
use okam_ha_native.Cs2.Session.{Cs2Session, monotonic, count_kind}
use okam_ha_native.Cs2.Channel.{write, read_exact}
use Parse.{parse_result}

abbrev pub max_command_bytes : ℕ
max_command_bytes = 1024 * 1024

-- The default timeout of `write`.
abbrev pub write_ms : ℕ
write_ms = 5000

unfoldable pub write_command : ℕ → Bytes → Action Cs2Session Unit
write_command fuel request = do
  check (leb 8 (length request)) "camera command framing is invalid"
  write fuel 0 request write_ms

-- `except CS2Timeout`, when the header has been read
body_or_fail : Result Bytes × Cs2Session → Result Bytes × Cs2Session
body_or_fail (err (cs2_timeout m), s) = (err (cs2_error "camera command body did not arrive"), s)
body_or_fail (err e, s) = (err e, s)
body_or_fail (ok payload, s) = (ok payload, s)

unfoldable pub read_command : ℕ → ℕ → Action Cs2Session (ℕ × Bytes)
unfolding body_or_fail
read_command fuel timeout = do
  start ← monotonic
  header ← read_exact fuel 0 8 timeout
  let command = from_little (slice 2 4 header)
  let size = from_little (slice 4 6 header)
  check (from_little (slice 0 2 header) == 0x0a01 && leb size max_command_bytes)
      "camera command framing is invalid"
  count_kind "command_" (hex4 command)
  now ← monotonic
  payload ← λ s. body_or_fail (read_exact fuel 0 size (start + timeout - now) s)
  pure (command, payload)

-- What `_read_response` does with one answer: it goes on, returns, or raises.
judge :
    List ℕ
    → ℕ
    → Result (Option ℤ)
    → Action Cs2Session (Option (ℕ × ℤ))
    → Action Cs2Session (Option (ℕ × ℤ))
judge ids command parsed go_on =
    if not (any (λ i. i == command) ids)
    then go_on
    else (do result ← lift parsed; elim result [ none ↦ go_on | some n ↦ pure (some (command, n)) ])

-- `except CS2Timeout: return None` round `read_command`
answer_or_none :
    List ℕ
    → Action Cs2Session (Option (ℕ × ℤ))
    → Result (ℕ × Bytes) × Cs2Session
    → Result (Option (ℕ × ℤ)) × Cs2Session
answer_or_none ids go_on (ok (command, payload), s) =
    judge ids command (parse_result payload) go_on s
answer_or_none ids go_on (err (cs2_timeout m), s) = (ok none, s)
answer_or_none ids go_on (err e, s) = (err e, s)

-- The outer fuel counts the answers that are read.
unfoldable pub read_response : ℕ → ℕ → List ℕ → ℕ → Action Cs2Session (Option (ℕ × ℤ))
unfolding judge answer_or_none
read_response zero fuel ids deadline s = (err out_of_fuel, s)
read_response (suc rounds) fuel ids deadline s =
    let go_on = read_response rounds fuel ids deadline in
    (do
      now ← monotonic
      if leb deadline now
          then pure none
          else (λ t. answer_or_none ids go_on (read_command fuel (deadline - now) t)))
      s

unfoldable pub read_command_result : ℕ → ℕ → List ℕ → ℕ → Action Cs2Session (Option (ℕ × ℤ))
unfolding read_response
read_command_result rounds fuel ids timeout = do
  now ← monotonic
  read_response rounds fuel ids (now + timeout)
