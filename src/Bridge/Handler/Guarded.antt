-- ===== src/Bridge/Handler/Guarded.antt =====
-- Nothing of the camera is shown without a token.
use okam_ha_native.Base.{
  true, not, ◌&&◌, ◌≡◌, refl, sym, ap, Option, none, some, Bool-cases, inl, inr, if◌then◌else◌, ok,
  bind-eq_ok,
}
use okam_ha_native.Base.Bytes.{equal, equal_iff}
use okam_ha_native.Base.Text.{Text, codes}
use okam_ha_native.Bridge.{
  CameraBridge, authenticated, stream_authenticated, compare_digest, bearer, camera_prefix,
}
use okam_ha_native.Bridge.Handler.{
  Request, Response, Muxer, unauthorized, not_ready, health, ready, is_stream_path, is_muxed_path,
  get_authorized, get_stream, get_other, get_camera, with_bridge, do_get, stream_raw, stream_muxed,
}
use okam_ha_native.Cs2.Cipher.{is_ascii}
use okam_ha_native.Json.{Members}

-- Why a response may be sent: it is open to everyone, it says no, or the request has the token that it
-- takes: the one of the API, or on the paths of the stream the one of the stream.
pub data Reason (status : Members) (bridge : Option CameraBridge) (r : Request) (answer : Response)
    : Type 0 where
  open_health : r.path ≡ codes "/health" → answer ≡ health → Reason status bridge r answer
  open_ready : r.path ≡ codes "/ready" → answer ≡ ready status → Reason status bridge r answer
  refused : answer ≡ unauthorized → Reason status bridge r answer
  no_bridge : bridge ≡ none → answer ≡ not_ready → Reason status bridge r answer
  has_api_token :
      (b : CameraBridge)
      → bridge ≡ some b
      → r.authorization ≡ some (bearer b.api_token)
      → Reason status bridge r answer
  has_stream_token :
      (b : CameraBridge) (prefix : Text)
      → bridge ≡ some b
      → camera_prefix b ≡ ok prefix
      → is_stream_path prefix r ≡ true
      → r.token ≡ some b.stream_token
      → Reason status bridge r answer

-- A comparison that says yes.
compare_digest-true : (a b : Text) → compare_digest a b ≡ ok true → a ≡ b
unfolding compare_digest
compare_digest-true a b h = elim (Bool-cases (is_ascii a && is_ascii b)) [
  | inl ascii ↦ let same : equal a b ≡ true = cc (rw ascii at h) in (equal_iff a b).0 same
  | inr other ↦ absurd (cc (rw other at h))
]

pub authenticated-true :
    (b : CameraBridge) (o : Option Text)
    → authenticated b o ≡ ok true
    → o ≡ some (bearer b.api_token)
unfolding authenticated
authenticated-true b none h = absurd (cc h)
authenticated-true b (some t) h = ap some (compare_digest-true t (bearer b.api_token) h)

stream_authenticated-true :
    (b : CameraBridge) (o : Option Text)
    → stream_authenticated b o ≡ ok true
    → o ≡ some b.stream_token
unfolding stream_authenticated
stream_authenticated-true b none h = absurd (cc h)
stream_authenticated-true b (some t) h = ap some (compare_digest-true t b.stream_token h)

module _ (status : Members) (muxer : Muxer) (b : CameraBridge) (r : Request)
    (answer : Response) where
  get_other-Reason :
      (prefix : Text) → get_other b prefix r ≡ ok answer → Reason status (some b) r answer
  unfolding get_other
  get_other-Reason prefix h =
      let (allowed, checked, rest) =
        bind-eq_ok (authenticated b r.authorization)
          (λ allowed. if not allowed then ok unauthorized else get_authorized b prefix r) answer
          h in
      elim (Bool-cases allowed) [
        | inl granted ↦
            has_api_token b refl (authenticated-true b r.authorization (rw granted at checked))
        | inr denied ↦ refused (sym (cc (rw denied at rest)))
      ]

  get_stream-Reason :
      (prefix : Text)
      → camera_prefix b ≡ ok prefix
      → is_stream_path prefix r ≡ true
      → get_stream muxer b prefix r ≡ ok answer
      → Reason status (some b) r answer
  unfolding get_stream
  get_stream-Reason prefix own at h =
      let (allowed, checked, rest) =
        bind-eq_ok (stream_authenticated b r.token)
          (λ allowed.
            if not allowed
            then ok unauthorized
            else if is_muxed_path prefix r
            then ok (stream_muxed muxer b r)
            else ok (stream_raw b r))
          answer h in
      elim (Bool-cases allowed) [
        | inl granted ↦
            has_stream_token b prefix refl own at
              (stream_authenticated-true b r.token (rw granted at checked))
        | inr denied ↦ refused (sym (cc (rw denied at rest)))
      ]

  get_camera-Reason : get_camera muxer b r ≡ ok answer → Reason status (some b) r answer
  unfolding get_camera
  get_camera-Reason h =
      let (prefix, own, rest) =
        bind-eq_ok (camera_prefix b)
          (λ prefix.
            if is_stream_path prefix r then get_stream muxer b prefix r else get_other b prefix r)
          answer h in
      elim (Bool-cases (is_stream_path prefix r)) [
        | inl on ↦ get_stream-Reason prefix own on (rw on at rest)
        | inr off ↦ get_other-Reason prefix (rw off at rest)
      ]

with_bridge-Reason :
    (status : Members) (muxer : Muxer) (bridge : Option CameraBridge) (r : Request)
    (answer : Response)
    → with_bridge bridge (λ b. get_camera muxer b r) ≡ ok answer
    → Reason status bridge r answer
unfolding with_bridge
with_bridge-Reason status muxer none r answer h = no_bridge refl (sym (cc h))
with_bridge-Reason status muxer (some b) r answer h = get_camera-Reason status muxer b r answer h

-- A GET request is answered only with the health and the readiness of the app, with a refusal, or,
-- where the request has the token of the API in its `Authorization` header, or on a path of the stream
-- the token of the stream in its query, with more.
pub do_get-Reason :
    (muxer : Muxer) (status : Members) (bridge : Option CameraBridge) (r : Request)
    (answer : Response)
    → do_get muxer status bridge r ≡ ok answer
    → Reason status bridge r answer
unfolding do_get
do_get-Reason muxer status bridge r answer h = elim (Bool-cases (equal r.path (codes "/health"))) [
  | inl healthy ↦
      open_health ((equal_iff r.path (codes "/health")).0 healthy) (sym (cc (rw healthy at h)))
  | inr other ↦ elim (Bool-cases (equal r.path (codes "/ready"))) [
    | inl asked ↦
        open_ready ((equal_iff r.path (codes "/ready")).0 asked) (sym (cc (rw (other, asked) at h)))
    | inr rest ↦ with_bridge-Reason status muxer bridge r answer (rw (other, rest) at h)
  ]
]
