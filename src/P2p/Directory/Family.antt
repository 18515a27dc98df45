-- ===== src/P2p/Directory/Family.antt =====
-- What the directory is told of an identifier, and what is taken from its answers.
use okam_ha_native.Base.{
  ℕ, Bool, true, false, ◌≡◌, ◌≤◌, refl, Option, none, some, Error, ok, ◌>>=◌, demand-eq_ok,
  bind-eq_ok, length, take, arith, Bool-cases, inl, inr, subst, if◌then◌else◌,
}
use okam_ha_native.Base.Bytes.{Bytes}
use okam_ha_native.Base.Text.{Text}
use okam_ha_native.Base.Url.{quote_plus}
use okam_ha_native.Json.{Json}
use okam_ha_native.P2p.Directory.{
  Query, Opened, within, bounded, bad_identifier, fetch, uid_of, bad_resolver, resolve_query,
  is_virtual, resolve_virtual, get_service_parameter, resolve_client_id,
}

within-le :
    (low high : ℕ) (t : Text) → within low high t ≡ true → (low ≤ length t) × (length t ≤ high)
within-le low high t h = (ground arith, ground arith)

bounded-eq_ok :
    (low high : ℕ) (e : Error) (o : Option Text) (t : Text)
    → bounded low high e o ≡ ok t
    → (low ≤ length t) × (length t ≤ high)
bounded-eq_ok low high e none t h = absurd (cc h)
bounded-eq_ok low high e (some s) t h = elim (Bool-cases (within low high s)) [
  | inl good ↦
      let same : s ≡ t = cc (rw good at h) in
      subst (λ x. (low ≤ length x) × (length x ≤ high)) same (within-le low high s good)
  | inr bad ↦ absurd (cc (rw bad at h))
]

module _ (is_alnum : ℕ → Bool) (opener : Query → Opened) (loads : Bytes → Option Json) where
  -- The service parameter depends on the first four characters of the identifier alone: two
  -- identifiers of 4 to 256 characters that agree in them get the same answer or the same error.
  pub get_service_parameter_family :
      (uid other : Text)
      → within 4 256 uid ≡ true
      → within 4 256 other ≡ true
      → take 4 uid ≡ take 4 other
      → get_service_parameter is_alnum opener loads uid
        ≡ get_service_parameter is_alnum opener loads other
  unfolding get_service_parameter
  get_service_parameter_family uid other h k same = rw (h, k, same) refl

module _ (is_digit : ℕ → Bool) (opener : Query → Opened) (loads : Bytes → Option Json) where
  resolve_virtual-le :
      (uid id : Text)
      → resolve_virtual is_digit opener loads uid ≡ ok id
      → (4 ≤ length id) × (length id ≤ 256)
  unfolding resolve_virtual
  resolve_virtual-le uid id h =
      let (quoted, wrote, rest) =
        bind-eq_ok (quote_plus uid)
          (λ quoted.
            fetch loads "official virtual-device resolver request failed"
              (opener (resolve_query quoted))
            >>= (λ result. bounded 4 256 bad_resolver (uid_of result)))
          id h in
      let (result, fetched, taken) =
        bind-eq_ok
          (fetch loads "official virtual-device resolver request failed"
            (opener (resolve_query quoted)))
          (λ result. bounded 4 256 bad_resolver (uid_of result)) id rest in
      bounded-eq_ok 4 256 bad_resolver (uid_of result) id taken

  -- A client identifier that is returned has 4 to 256 characters; one that is not virtual is the
  -- identifier itself, whatever the network does.
  pub resolve_client_id_bounds :
      (uid id : Text)
      → resolve_client_id is_digit opener loads uid ≡ ok id
      → (4 ≤ length id) × (length id ≤ 256) × (is_virtual is_digit uid ≡ false → uid ≡ id)
  unfolding resolve_client_id
  resolve_client_id_bounds uid id h =
      let (good, rest) =
        demand-eq_ok (within 4 256 uid) bad_identifier
          (if is_virtual is_digit uid then resolve_virtual is_digit opener loads uid else ok uid) id
          h in
      elim (Bool-cases (is_virtual is_digit uid)) [
        | inl virtual ↦
            let (least, most) = resolve_virtual-le uid id (rw virtual at rest) in
            (least, most, λ real. absurd (cc (virtual, real)))
        | inr real ↦
            let same : uid ≡ id = cc (rw real at rest) in
            let (least, most) =
              subst (λ x. (4 ≤ length x) × (length x ≤ 256)) same (within-le 4 256 uid good) in
            (least, most, λ k. same)
      ]
