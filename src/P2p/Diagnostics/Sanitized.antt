-- ===== src/P2p/Diagnostics/Sanitized.antt =====
-- The bounds of what is taken from a report.
use okam_ha_native.Base.{
  ℕ, Bool, true, false, List, ◌∷◌, ◌≡◌, ◌≤◌, refl, Option, none, some, String, leb, if◌then◌else◌,
  length, All, arith, leb→le,
}
use okam_ha_native.Base.Int.{ℤ, pos, negsuc}
use okam_ha_native.Base.Text.{Text}
use okam_ha_native.Cs2.Cipher.{is_ascii}
use okam_ha_native.Json.{
  Json, null, boolean, number, real, string, array, object, Items, Members, no_members, member, get,
  as_string, as_object, as_array,
}
use okam_ha_native.P2p.Diagnostics.{
  max_counter_entries, Diagnostics, good_path, path_of, attempts_of, short_list, attempts_in,
  good_name, counters_of, few_counters, counters_in, diagnostics_of, diagnostics,
}

-- What a present key promises.
abbrev pub Present {ℓ} : {A : Type ℓ} → (A → Type 0) → Option A → Type 0
Present P none = Unit
Present P (some a) = P a

-- The name is ASCII and has at most 64 characters.
abbrev pub GoodCounters : List (String × ℕ) → Type 0
GoodCounters cs = (length cs ≤ max_counter_entries) × All (λ c. good_name c.0 ≡ true) cs

pub record IsSanitized (d : Diagnostics) : Type 0 where
  pub short_path : Present (λ path. (is_ascii path ≡ true) × (length path ≤ 32)) d.connect_path
  pub few_attempts : Present (λ vs. length vs ≤ 8) d.login_attempts
  pub plain_counters : Present GoodCounters d.counters

Present-if {ℓ} :
    {A : Type ℓ} (P : A → Type 0) (b : Bool) (a : A)
    → (b ≡ true → P a)
    → Present P (if b then some a else none)
Present-if P true a h = h refl
Present-if P false a h = tt

path_of-good :
    (path : Option Text) → Present (λ p. (is_ascii p ≡ true) × (length p ≤ 32)) (path_of path)
unfolding path_of
path_of-good none = tt
path_of-good (some path) =
    Present-if (λ p. (is_ascii p ≡ true) × (length p ≤ 32)) (good_path path) path
      (λ good. (ground arith, ground arith))

short_list-good : (l : Option (List (Option ℤ))) → Present (λ vs. length vs ≤ 8) (short_list l)
short_list-good none = tt
short_list-good (some vs) =
    Present-if (λ vs. length vs ≤ 8) (leb (length vs) 8) vs (λ short. leb→le (length vs) 8 short)

attempts_in-good : (l : Option Items) → Present (λ vs. length vs ≤ 8) (attempts_in l)
unfolding attempts_in
attempts_in-good none = tt
attempts_in-good (some l) = short_list-good (attempts_of l)

abbrev AllGood : List (String × ℕ) → Type 0
AllGood = All (λ c. good_name c.0 ≡ true)

-- One more counter in front.
counter-good :
    (name : String) (n : ℕ) (rest : Option (List (String × ℕ)))
    → Present AllGood rest
    → Present AllGood (elim rest [
      | none ↦ none
      | some cs ↦ if good_name name then some ((name, n) ∷ cs) else none
    ])
counter-good name n none h = tt
counter-good name n (some cs) h =
    Present-if AllGood (good_name name) ((name, n) ∷ cs) (λ good. (good, h))

counters_of-good : (m : Members) → Present AllGood (counters_of m)
unfolding counters_of
counters_of-good no_members = tt
counters_of-good (member name (number (pos n)) m) =
    counter-good name n (counters_of m) (counters_of-good m)
counters_of-good (member name (number (negsuc n)) m) = tt
counters_of-good (member name null m) = tt
counters_of-good (member name (boolean b) m) = tt
counters_of-good (member name (real r) m) = tt
counters_of-good (member name (string t) m) = tt
counters_of-good (member name (array l) m) = tt
counters_of-good (member name (object o) m) = tt

few_counters-good :
    (cs : Option (List (String × ℕ))) → Present AllGood cs → Present GoodCounters (few_counters cs)
few_counters-good none h = tt
few_counters-good (some cs) h =
    Present-if GoodCounters (leb (length cs) max_counter_entries) cs
      (λ few. (leb→le (length cs) max_counter_entries few, h))

counters_in-good : (m : Option Members) → Present GoodCounters (counters_in m)
unfolding counters_in
counters_in-good none = tt
counters_in-good (some m) = few_counters-good (counters_of m) (counters_of-good m)

-- Whatever a helper prints, the diagnostics that are taken from it hold an ASCII path of at most 32
-- characters, at most 8 login attempts, and at most 64 counters whose names are ASCII and have at
-- most 64 characters.
pub diagnostics-IsSanitized : (payload : Json) → IsSanitized (diagnostics payload)
unfolding diagnostics diagnostics_of
diagnostics-IsSanitized (object m) = record {
  short_path = path_of-good (as_string (get "connect_path" m));
  few_attempts = attempts_in-good (as_array (get "login_attempts" m));
  plain_counters = counters_in-good (as_object (get "counters" m));
}
diagnostics-IsSanitized null = record { short_path = tt; few_attempts = tt; plain_counters = tt }
diagnostics-IsSanitized (boolean b) = record {
  short_path = tt;
  few_attempts = tt;
  plain_counters = tt;
}
diagnostics-IsSanitized (number n) = record {
  short_path = tt;
  few_attempts = tt;
  plain_counters = tt;
}
diagnostics-IsSanitized (real r) = record {
  short_path = tt;
  few_attempts = tt;
  plain_counters = tt;
}
diagnostics-IsSanitized (string t) = record {
  short_path = tt;
  few_attempts = tt;
  plain_counters = tt;
}
diagnostics-IsSanitized (array l) = record {
  short_path = tt;
  few_attempts = tt;
  plain_counters = tt;
}
