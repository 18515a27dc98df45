-- ===== src/P2p/Diagnostics.antt =====
-- `_diagnostics` and `_stream_diagnostics`: the evidence that a helper's report carries.
pub mod Sanitized
use okam_ha_native.Base.{
  ℕ, Bool, true, false, ◌&&◌, List, [], ◌∷◌, ◌≡◌, ◌≤◌, refl, Option, none, some, String, leb,
  if◌then◌else◌, length, All, arith, leb→le,
}
use okam_ha_native.Base.Int.{ℤ, pos, negsuc}
use okam_ha_native.Base.Text.{Text, codes}
use okam_ha_native.Cs2.Cipher.{is_ascii}
use okam_ha_native.Json.{
  Json, null, boolean, number, real, string, array, object, Items, no_items, item, Members,
  no_members, member, get, as_string, as_object, as_array, as_number,
}

abbrev pub max_counter_entries : ℕ
max_counter_entries = 64

-- The keys that the returned dictionary has: `none` where a key is missing.
pub record Diagnostics : Type 0 where
  pub connect_path : Option Text
  pub login_candidate : Option ℤ
  pub login_attempts : Option (List (Option ℤ))
  pub counters : Option (List (String × ℕ))

abbrev pub no_diagnostics : Diagnostics
no_diagnostics = record {
  connect_path = none;
  login_candidate = none;
  login_attempts = none;
  counters = none;
}

abbrev pub good_path : Text → Bool
good_path path = is_ascii path && leb (length path) 32

pub path_of : Option Text → Option Text
path_of none = none
path_of (some path) = if good_path path then some path else none

-- `item is None or (isinstance(item, int) and not isinstance(item, bool))`: the items, if all are.
abbrev pub attempts_of : Items → Option (List (Option ℤ))
attempts_of no_items = some []
attempts_of (item null l) = elim (attempts_of l) [ none ↦ none | some vs ↦ some (none ∷ vs) ]
attempts_of (item (number n) l) = elim (attempts_of l) [
  | none ↦ none
  | some vs ↦ some (some n ∷ vs)
]
attempts_of (item _ l) = none

abbrev pub short_list : Option (List (Option ℤ)) → Option (List (Option ℤ))
short_list none = none
short_list (some vs) = if leb (length vs) 8 then some vs else none

pub attempts_in : Option Items → Option (List (Option ℤ))
attempts_in none = none
attempts_in (some l) = short_list (attempts_of l)

abbrev pub good_name : String → Bool
good_name name = is_ascii (codes name) && leb (length (codes name)) 64

-- The entries of the counters, if every one has a good name and a number that is not negative.
pub counters_of : Members → Option (List (String × ℕ))
counters_of no_members = some []
counters_of (member name (number (pos n)) m) = elim (counters_of m) [
  | none ↦ none
  | some cs ↦ if good_name name then some ((name, n) ∷ cs) else none
]
counters_of (member name _ m) = none

abbrev pub few_counters : Option (List (String × ℕ)) → Option (List (String × ℕ))
few_counters none = none
few_counters (some cs) = if leb (length cs) max_counter_entries then some cs else none

pub counters_in : Option Members → Option (List (String × ℕ))
unfolding counters_of
counters_in none = none
counters_in (some m) = few_counters (counters_of m)

pub diagnostics_of : Members → Diagnostics
unfolding path_of attempts_in counters_in
diagnostics_of m = record {
  connect_path = path_of (as_string (get "connect_path" m));
  login_candidate = as_number (get "login_candidate" m);
  login_attempts = attempts_in (as_array (get "login_attempts" m));
  counters = counters_in (as_object (get "counters" m));
}

unfoldable pub diagnostics : Json → Diagnostics
unfolding diagnostics_of
diagnostics (object m) = diagnostics_of m
diagnostics _ = no_diagnostics

pub record StreamDiagnostics : Type 0 where
  pub common : Diagnostics
  pub stream_start_command : Option ℤ
  pub stream_start_result : Option ℤ

unfoldable pub stream_diagnostics : Json → StreamDiagnostics
unfolding diagnostics
stream_diagnostics (object m) = record {
  common = diagnostics (object m);
  stream_start_command = as_number (get "stream_start_command" m);
  stream_start_result = as_number (get "stream_start_result" m);
}
stream_diagnostics _ = record {
  common = no_diagnostics;
  stream_start_command = none;
  stream_start_result = none;
}
