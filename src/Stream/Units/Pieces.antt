-- ===== src/Stream/Units/Pieces.antt =====
-- A byte string as the units that start codes mark off in it, and what stands in front of them.
use okam_ha_native.Base.{
  ℕ, zero, suc, ◌+◌, Bool, true, List, [], ◌∷◌, ◌++◌, ◌≡◌, refl, sym, ap, ◌∙◌, subst, arith,
  append-nil, ◌<◌, ◌≤◌, ◌⊎◌, Bool-cases, inl, inr, if◌then◌else◌, length, take, All,
}
use okam_ha_native.Base.Bytes.{Bytes, equal, equal_iff}
use okam_ha_native.Stream.Units.{annex_b_start, starts_from}

abbrev pub Pieces : Type 0
Pieces = Bytes × List Bytes

abbrev onto : ℕ → Pieces → Pieces
onto c (p, us) = (c ∷ p, us)

abbrev open_unit : ℕ → Pieces → Pieces
open_unit c (p, us) = ([], (c ∷ p) ∷ us)

abbrev starts : Bytes → Bool
starts s = equal (take 3 s) annex_b_start

-- `skip` bytes belong to a start code that has been found.
pub pieces : ℕ → Bytes → Pieces
pieces skip [] = ([], [])
pieces (suc skip) (c ∷ s) = onto c (pieces skip s)
pieces zero (c ∷ s) =
    let found = open_unit c (pieces 2 s) in
    let other = onto c (pieces zero s) in if starts (c ∷ s) then found else other

abbrev pub joined : List Bytes → Bytes
joined [] = []
joined (u ∷ us) = u ++ joined us

abbrev pub whole : Pieces → Bytes
whole (p, us) = p ++ joined us

pub whole-pieces : (skip : ℕ) (s : Bytes) → whole (pieces skip s) ≡ s
unfolding pieces
whole-pieces skip [] = refl
whole-pieces (suc skip) (c ∷ s) = ap (λ r. c ∷ r) (whole-pieces skip s)
whole-pieces zero (c ∷ s) = elim (Bool-cases (starts (c ∷ s))) [
  | inl here ↦ rw here (ap (λ r. c ∷ r) (whole-pieces 2 s))
  | inr other ↦ rw other (ap (λ r. c ∷ r) (whole-pieces zero s))
]

-- The positions at which the units start.
abbrev pub offsets : ℕ → List Bytes → List ℕ
offsets at [] = []
offsets at (u ∷ us) = at ∷ offsets (at + length u) us

offsets_step :
    (at : ℕ) (r : Pieces) → offsets (at + 1 + length r.0) r.1 ≡ offsets (at + suc (length r.0)) r.1
offsets_step at r =
    let same : at + 1 + length r.0 ≡ at + suc (length r.0) = omega arith in
    ap (λ n. offsets n r.1) same

pub starts_from-pieces :
    (skip at : ℕ) (s : Bytes)
    → starts_from skip at s ≡ offsets (at + length (pieces skip s).0) (pieces skip s).1
unfolding starts_from pieces
starts_from-pieces skip at [] = refl
starts_from-pieces (suc skip) at (c ∷ s) =
    starts_from-pieces skip (at + 1) s ∙ offsets_step at (pieces skip s)
starts_from-pieces zero at (c ∷ s) =
    let same : at ≡ at + 0 = omega arith in
    elim (Bool-cases (starts (c ∷ s))) [
      | inl here ↦ rw here (
          ap (λ r. at ∷ r) (starts_from-pieces 2 (at + 1) s ∙ offsets_step at (pieces 2 s))
          ∙ ap (λ n. n ∷ offsets (n + suc (length (pieces 2 s).0)) (pieces 2 s).1) same)
      | inr other ↦ rw other (starts_from-pieces zero (at + 1) s ∙ offsets_step at (pieces zero s))
    ]

-- A unit starts with a start code.
abbrev pub IsUnitStart : Bytes → Type 0
IsUnitStart u = (r : Bytes) × (u ≡ 0 ∷ 0 ∷ 1 ∷ r)

starts-inv : (s : Bytes) → starts s ≡ true → IsUnitStart s
starts-inv [] h = absurd (cc ((equal_iff [] annex_b_start).0 h))
starts-inv (x ∷ []) h = absurd (cc ((equal_iff (x ∷ []) annex_b_start).0 h))
starts-inv (x ∷ y ∷ []) h = absurd (cc ((equal_iff (x ∷ y ∷ []) annex_b_start).0 h))
starts-inv (x ∷ y ∷ z ∷ r) h =
    let same : x ∷ y ∷ z ∷ [] ≡ 0 ∷ 0 ∷ 1 ∷ [] = (equal_iff (x ∷ y ∷ z ∷ []) annex_b_start).0 h in
    (r, ap (λ t. t ++ r) same)

opened-IsUnitStart : (c : ℕ) (s : Bytes) → starts (c ∷ s) ≡ true → IsUnitStart (c ∷ (pieces 2 s).0)
unfolding pieces
opened-IsUnitStart c [] h = absurd (cc (starts-inv (c ∷ []) h).1)
opened-IsUnitStart c (x ∷ []) h = absurd (cc (starts-inv (c ∷ x ∷ []) h).1)
opened-IsUnitStart c (x ∷ y ∷ s) h =
    let same : c ∷ x ∷ y ∷ [] ≡ 0 ∷ 0 ∷ 1 ∷ [] = (equal_iff (c ∷ x ∷ y ∷ []) annex_b_start).0 h in
    ((pieces zero s).0, ap (λ t. t ++ (pieces zero s).0) same)

pub pieces-IsUnitStart : (skip : ℕ) (s : Bytes) → All IsUnitStart (pieces skip s).1
unfolding pieces
pieces-IsUnitStart skip [] = tt
pieces-IsUnitStart (suc skip) (c ∷ s) = pieces-IsUnitStart skip s
pieces-IsUnitStart zero (c ∷ s) = elim (Bool-cases (starts (c ∷ s))) [
  | inl here ↦ rw here (opened-IsUnitStart c s here, pieces-IsUnitStart 2 s)
  | inr other ↦ rw other (pieces-IsUnitStart zero s)
]

-- The last unit goes on with the bytes that follow.
abbrev pub more : List Bytes → Bytes → List Bytes
more [] b = []
more (u ∷ []) b = (pieces zero (u ++ b)).1
more (u ∷ v ∷ us) b = u ∷ more (v ∷ us) b

more-cons :
    (u : Bytes) (us : List Bytes) (b : Bytes) → 0 < length us → more (u ∷ us) b ≡ u ∷ more us b
more-cons u [] b h = absurd (omega arith)
more-cons u (v ∷ us) b h = refl

pub nil_or_more : (us : List Bytes) → (us ≡ []) ⊎ (0 < length us)
nil_or_more [] = inl refl
nil_or_more (u ∷ us) = inr (omega arith)

starts-long : (s : Bytes) → starts s ≡ true → 3 ≤ length s
starts-long s h =
    let (r, same) = starts-inv s h in subst (λ t. 3 ≤ length t) (sym same) (omega arith)

pieces-long : (skip : ℕ) (s : Bytes) → 0 < length (pieces skip s).1 → 3 ≤ length s
unfolding pieces
pieces-long skip [] h = absurd (omega arith)
pieces-long (suc skip) (c ∷ s) h = omega (arith, pieces-long skip s h)
pieces-long zero (c ∷ s) h = elim (Bool-cases (starts (c ∷ s))) [
  | inl here ↦ starts-long (c ∷ s) here
  | inr other ↦
      let later : 0 < length (pieces zero s).1 = rw other at h in
      omega (arith, pieces-long zero s later)
]

starts-append : (s b : Bytes) → 3 ≤ length s → starts (s ++ b) ≡ starts s
starts-append [] b h = absurd (omega arith)
starts-append (x ∷ []) b h = absurd (omega arith)
starts-append (x ∷ y ∷ []) b h = absurd (omega arith)
starts-append (x ∷ y ∷ z ∷ s) b h = refl

opened-append :
    (c : ℕ) (s b : Bytes) (r : Pieces)
    → starts (c ∷ (s ++ b)) ≡ true
    → whole r ≡ s
    → (0 < length r.1 → pieces 2 (s ++ b) ≡ (r.0, more r.1 b))
    → open_unit c (pieces 2 (s ++ b)) ≡ ([], more ((c ∷ r.0) ∷ r.1) b)
unfolding pieces
opened-append c s b (p, []) here same next =
    let all : p ≡ s = sym (append-nil p) ∙ same in rw all (rw (here, more) refl)
opened-append c s b (p, u ∷ us) here same next = ap (open_unit c) (next (omega arith))

-- Bytes behind a unit change neither what stands before the last unit nor where that starts.
pub pieces-append :
    (skip : ℕ) (s b : Bytes)
    → 0 < length (pieces skip s).1
    → pieces skip (s ++ b) ≡ ((pieces skip s).0, more (pieces skip s).1 b)
unfolding pieces
pieces-append skip [] b h = absurd (omega arith)
pieces-append (suc skip) (c ∷ s) b h = ap (onto c) (pieces-append skip s b h)
pieces-append zero (c ∷ s) b h =
    let same = starts-append (c ∷ s) b (pieces-long zero (c ∷ s) h) in
    elim (Bool-cases (starts (c ∷ s))) [
      | inl here ↦
          rw (same, here)
            (opened-append c s b (pieces 2 s) (same ∙ here) (whole-pieces 2 s)
              (λ k. pieces-append 2 s b k))
      | inr other ↦ rw (same, other) (ap (onto c) (pieces-append zero s b (rw other at h)))
    ]

pub more_starts :
    (u : Bytes) (us : List Bytes) (b : Bytes)
    → All IsUnitStart (u ∷ us)
    → 0 < length (more (u ∷ us) b)
unfolding pieces equal
more_starts u [] b h = subst (λ t. 0 < length (pieces zero (t ++ b)).1) (sym h.0.1) (omega arith)
more_starts u (v ∷ us) b h = omega arith

pub unit_first : (u b : Bytes) → IsUnitStart u → (pieces zero (u ++ b)).0 ≡ []
unfolding pieces equal
unit_first u b (r, same) = subst (λ t. (pieces zero (t ++ b)).0 ≡ []) (sym same) refl
