-- ===== src/P2p/Line.antt =====
-- `diagnostic_line`: one line of evidence for the log.
use okam_ha_native.Base.{◌+◌, List, [], ◌∷◌, ◌++◌, Option, none, some, String}
use okam_ha_native.Base.Counters.{sorted_counters}
use okam_ha_native.Base.Int.{ℤ, pos, negsuc}
use okam_ha_native.Base.Names.{decimal}
use okam_ha_native.Base.Text.{Text, codes}
use okam_ha_native.P2p.Results.{Counts, StreamProbeResult}

-- The attributes that the line is made of.
pub record Evidence : Type 0 where
  pub connect_path : Text
  pub login_candidate : ℤ
  pub login_attempts : List (Option ℤ)
  pub stream_start_command : ℤ
  pub stream_start_result : Option ℤ
  pub counters : Counts

abbrev pub of_stream : StreamProbeResult → Evidence
of_stream r = record {
  connect_path = r.login.connect_path;
  login_candidate = r.login.login_candidate;
  login_attempts = r.login.login_attempts;
  stream_start_command = r.stream_start_command;
  stream_start_result = r.stream_start_result;
  counters = r.login.counters;
}

abbrev shown : ℤ → Text
shown (pos n) = codes (decimal n)
shown (negsuc n) = b'-' ∷ codes (decimal (n + 1))

abbrev shown_or : String → Option ℤ → Text
shown_or absent none = codes absent
shown_or absent (some n) = shown n

-- `separator.join(…)`
join : Text → List Text → Text
join separator [] = []
join separator (t ∷ []) = t
join separator (t ∷ u ∷ ts) = t ++ (separator ++ join separator (u ∷ ts))

abbrev texts : List (Option ℤ) → List Text
texts [] = []
texts (a ∷ rest) = shown_or "none" a ∷ texts rest

abbrev attempts_shown : List (Option ℤ) → Text
attempts_shown [] = codes "-"
attempts_shown attempts = join (codes ",") (texts attempts)

abbrev path_shown : Text → Text
path_shown [] = codes "unknown"
path_shown path = path

abbrev counter_fields : Counts → List Text
counter_fields [] = []
counter_fields ((name, n) ∷ cs) = (codes name ++ (b'=' ∷ codes (decimal n))) ∷ counter_fields cs

unfoldable pub diagnostic_line : Evidence → Text
unfolding join
diagnostic_line e =
    codes "transport_diagnostics "
    ++ join (codes " ") (
        (codes "connect_path=" ++ path_shown e.connect_path)
        ∷ (codes "login_candidate=" ++ shown e.login_candidate)
        ∷ (codes "login_attempts=" ++ attempts_shown e.login_attempts)
        ∷ (codes "stream_start_command=" ++ shown e.stream_start_command)
        ∷ (codes "stream_start_result=" ++ shown_or "None" e.stream_start_result)
        ∷ counter_fields (sorted_counters e.counters))
