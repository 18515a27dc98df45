-- ===== src/Bridge/Host.antt =====
-- `HOST_PATTERN` and `stream_url`.
use okam_ha_native.Base.{
  ℕ, Bool, true, false, ◌&&◌, ◌||◌, [], ◌∷◌, ◌++◌, ◌≡◌, refl, Option, none, some, leb, ◌==◌,
  if◌then◌else◌, Result, ok, ◌>>=◌, length, any, all, Bool-cases, inl, inr, arith, ==_iff,
  bind-eq_ok,
}
use okam_ha_native.Base.Text.{Text, codes}
use okam_ha_native.Base.Url.{quote}
use okam_ha_native.Bridge.{CameraBridge}

abbrev pub is_digit : ℕ → Bool
is_digit c = leb b'0' c && leb c b'9'

-- `[A-Za-z0-9.-]` and `[0-9A-Fa-f:]`
abbrev pub is_name_char : ℕ → Bool
is_name_char c =
    (leb b'A' c && leb c b'Z')
    || ((leb b'a' c && leb c b'z') || (is_digit c || (c == b'.' || c == b'-')))

abbrev pub is_address_char : ℕ → Bool
is_address_char c =
    is_digit c || ((leb b'A' c && leb c b'F') || ((leb b'a' c && leb c b'f') || c == b':'))

-- The longest run of accepted characters at the front, dropped.
pub after_run : (ℕ → Bool) → Text → Text
after_run accepts [] = []
after_run accepts (c ∷ cs) = let rest = after_run accepts cs in if accepts c then rest else c ∷ cs

-- `(?::[0-9]{1,5})?$`
pub is_port : Text → Bool
is_port [] = true
is_port (c ∷ cs) = c == b':' && (all is_digit cs && (leb 1 (length cs) && leb (length cs) 5))

-- Behind the characters in the brackets.
pub is_bracket_end : Text → Bool
unfolding is_port
is_bracket_end [] = false
is_bracket_end (c ∷ cs) = c == b']' && is_port cs

abbrev starts_address : Text → Bool
starts_address [] = false
starts_address (c ∷ cs) = is_address_char c

-- `HOST_PATTERN.fullmatch(host)`. No character that a name or an address may hold can start what
-- stands behind it, so that the longest run is the right one.
unfoldable pub matches_host : Text → Bool
unfolding after_run is_port is_bracket_end
matches_host [] = false
matches_host (c ∷ cs) =
    if c == b'['
    then (starts_address cs && is_bracket_end (after_run is_address_char cs))
    else (is_name_char c && is_port (after_run is_name_char cs))

abbrev pub default_host : Text
default_host = codes "127.0.0.1:8099"

unfoldable pub safe_host : Option Text → Text
safe_host none = default_host
safe_host (some host) = if matches_host host then host else default_host

unfoldable pub stream_url : CameraBridge → Option Text → Result Text
stream_url b host = do
  camera ← quote b.camera_id
  token ← quote b.stream_token
  ok (
      codes "http://"
      ++ (safe_host host
          ++ (codes "/api/cameras/" ++ (camera ++ (codes "/stream.ts?token=" ++ token)))))

-- A character of a host: a letter, a digit, or one of `. - : [ ]`.
abbrev pub is_host_char : ℕ → Bool
is_host_char c = is_name_char c || any (λ k. k == c) (b':' ∷ b'[' ∷ b']' ∷ [])

run-all :
    (accepts : ℕ → Bool) (s : Text)
    → ((c : ℕ) → accepts c ≡ true → is_host_char c ≡ true)
    → all is_host_char (after_run accepts s) ≡ true
    → all is_host_char s ≡ true
unfolding after_run
run-all accepts [] h k = refl
run-all accepts (c ∷ cs) h k = elim (Bool-cases (accepts c)) [
  | inl taken ↦ rw (h c taken) (run-all accepts cs h (rw taken at k))
  | inr left ↦ rw left at k
]

name_char-host_char : (c : ℕ) → is_name_char c ≡ true → is_host_char c ≡ true
name_char-host_char c h = ground arith

address_char-host_char : (c : ℕ) → is_address_char c ≡ true → is_host_char c ≡ true
address_char-host_char c h = ground arith

digit-host_char : (c : ℕ) → is_digit c ≡ true → is_host_char c ≡ true
digit-host_char c h = ground arith

all_mono :
    (p q : ℕ → Bool) (s : Text)
    → ((c : ℕ) → p c ≡ true → q c ≡ true)
    → all p s ≡ true
    → all q s ≡ true
all_mono p q [] h k = refl
all_mono p q (c ∷ cs) h k = ground (arith, h c, all_mono p q cs h)

is_port-all : (s : Text) → is_port s ≡ true → all is_host_char s ≡ true
unfolding is_port
is_port-all [] h = refl
is_port-all (c ∷ cs) h =
    let colon : c ≡ b':' = ground arith in
    let digits : all is_digit cs ≡ true = ground arith in
    rw colon (all_mono is_digit is_host_char cs digit-host_char digits)

is_bracket_end-all : (s : Text) → is_bracket_end s ≡ true → all is_host_char s ≡ true
unfolding is_bracket_end
is_bracket_end-all [] h = refl
is_bracket_end-all (c ∷ cs) h =
    let bracket : c ≡ b']' = ground arith in
    let port : is_port cs ≡ true = ground arith in rw bracket (is_port-all cs port)

-- A matched host has only characters of a host.
matches_host-all : (host : Text) → matches_host host ≡ true → all is_host_char host ≡ true
unfolding matches_host
matches_host-all [] h = refl
matches_host-all (c ∷ cs) h = elim (Bool-cases (c == b'[')) [
  | inl bracket ↦
      let at : c ≡ b'[' = (==_iff c b'[').0 bracket in
      let rest = bracket-rest cs (rw bracket at h) in
      rw at (
        run-all is_address_char cs address_char-host_char
          (is_bracket_end-all (after_run is_address_char cs) rest))
  | inr name ↦
      let (first, rest) =
        both (is_name_char c) (is_port (after_run is_name_char cs)) (rw name at h) in
      rw (name_char-host_char c first)
        (run-all is_name_char cs name_char-host_char (is_port-all (after_run is_name_char cs) rest))
]
  where
    both : (a b : Bool) → (a && b) ≡ true → (a ≡ true) × (b ≡ true)
    both true b k = (refl, k)
    both false b k = absurd (cc k)

    bracket-rest :
        (s : Text)
        → (starts_address s && is_bracket_end (after_run is_address_char s)) ≡ true
        → is_bracket_end (after_run is_address_char s) ≡ true
    bracket-rest s k = (both (starts_address s) (is_bracket_end (after_run is_address_char s)) k).1

-- Where a URL of the stream points: a host of letters, digits and `. - : [ ]`, which is the `Host`
-- header if that has the form of a host, and the path of the camera with a token.
pub record IsStreamUrl (b : CameraBridge) (host : Option Text) (url : Text) : Type 0 where
  pub name : Text
  pub camera : Text
  pub token : Text
  pub plain : all is_host_char name ≡ true
  pub given : (t : Text) → host ≡ some t → matches_host t ≡ true → name ≡ t
  pub quoted_camera : quote b.camera_id ≡ ok camera
  pub quoted_token : quote b.stream_token ≡ ok token
  pub composed :
      url
      ≡ codes "http://"
        ++ (name ++ (codes "/api/cameras/" ++ (camera ++ (codes "/stream.ts?token=" ++ token))))

safe_host-all : (host : Option Text) → all is_host_char (safe_host host) ≡ true
unfolding safe_host
safe_host-all none = refl
safe_host-all (some host) = elim (Bool-cases (matches_host host)) [
  | inl good ↦ rw good (matches_host-all host good)
  | inr bad ↦ rw bad refl
]

safe_host-given :
    (host : Option Text) (t : Text) → host ≡ some t → matches_host t ≡ true → safe_host host ≡ t
unfolding safe_host
safe_host-given host t h k = rw (h, k) refl

-- Whatever the `Host` header holds, no other character comes into the URL of the stream before its
-- path, and a header with the form of a host is used as it is.
pub stream_url-IsStreamUrl :
    (b : CameraBridge) (host : Option Text) (url : Text)
    → stream_url b host ≡ ok url
    → IsStreamUrl b host url
unfolding stream_url
stream_url-IsStreamUrl b host url h =
    let write = λ (camera : Text) (token : Text). ok (
      codes "http://"
      ++ (safe_host host
          ++ (codes "/api/cameras/" ++ (camera ++ (codes "/stream.ts?token=" ++ token))))) in
    let (camera, quoted_camera, rest) =
      bind-eq_ok (quote b.camera_id) (λ camera. quote b.stream_token >>= write camera) url h in
    let (token, quoted_token, made) = bind-eq_ok (quote b.stream_token) (write camera) url rest in
    record {
      name = safe_host host;
      camera = camera;
      token = token;
      plain = safe_host-all host;
      given = safe_host-given host;
      quoted_camera = quoted_camera;
      quoted_token = quoted_token;
      composed = cc made;
    }
