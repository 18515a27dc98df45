-- ===== src/Cs2/Data/Drain.antt =====
-- The dictionary of early payloads, and the loop of `_handle_data` that empties it.
use okam_ha_native.Base.{
  ℕ, zero, suc, ◌+◌, refl, ◌%◌, ◌≤◌, ◌<◌, [], ◌∷◌, ◌++◌, ◌≡◌, ◌≢◌, none, some, arith, ◌==◌,
  if◌then◌else◌, length,
}
use okam_ha_native.Base.Bytes.{Bytes}
use okam_ha_native.Cs2.Data.{Waiting, Inbound, lookup, remove, drain}

pub lookup-remove :
    (k j : ℕ) (w : Waiting) → lookup j (remove k w) ≡ (if k == j then none else lookup j w)
unfolding lookup remove
lookup-remove k j [] = ground arith
lookup-remove k j ((i, b) ∷ w) = ground (arith, lookup-remove k j w)

pub lookup-remove-some :
    (k j : ℕ) (w : Waiting) {b : Bytes}
    → lookup j (remove k w) ≡ some b
    → (j ≢ k) × (lookup j w ≡ some b)
lookup-remove-some k j w h = ground (arith, lookup-remove k j w)

pub lookup-append :
    (j k : ℕ) (b : Bytes) (w : Waiting)
    → lookup k w ≡ none
    → lookup j (w ++ ((k, b) ∷ [])) ≡ (if k == j then some b else lookup j w)
unfolding lookup
lookup-append j k b [] h = ground arith
lookup-append j k b ((i, v) ∷ w) h = ground (arith, lookup-append j k b w)

length-remove-le : (k : ℕ) (w : Waiting) → length (remove k w) ≤ length w
unfolding remove
length-remove-le k [] = omega arith
length-remove-le k ((i, b) ∷ w) = ground (arith, length-remove-le k w)

-- Each round takes an entry out.
pub length-remove :
    (k : ℕ) (w : Waiting) (b : Bytes) → lookup k w ≡ some b → length (remove k w) < length w
unfolding lookup remove
length-remove k [] b h = cc
length-remove k ((i, c) ∷ w) b h = ground (arith, length-remove k w b, length-remove-le k w)

-- One round of the loop.
abbrev pub next_round : Bytes → Inbound → Inbound
next_round b c = record {
  expected = (c.expected + 1) % 65536;
  buffer = c.buffer ++ b;
  waiting = remove c.expected c.waiting;
}

pub drain_stops : (fuel : ℕ) (c : Inbound) → lookup c.expected c.waiting ≡ none → drain fuel c ≡ c
unfolding drain
drain_stops zero c h = refl
drain_stops (suc fuel) c h = rw (h, drain)

pub drain_goes :
    (fuel : ℕ) (c : Inbound) (b : Bytes)
    → lookup c.expected c.waiting ≡ some b
    → drain (suc fuel) c ≡ drain fuel (next_round b c)
unfolding drain
drain_goes fuel c b h = rw (h, drain)
