-- ===== src/Cs2/Request/Framing.antt =====
-- A request that `make_cgi_request` makes is one command, as `read_command` frames it.
use okam_ha_native.Base.{
  ◌+◌, ◌≤◌, true, false, not, ◌&&◌, ◌++◌, ◌≡◌, refl, sym, ap, arith, ltb, leb, ok, ◌>>◌, require,
  require-eq_ok, length, drop, subst,
}
use okam_ha_native.Base.Bytes.{Bytes, slice, from_little}
use okam_ha_native.Base.Text.{Text}
use okam_ha_native.Cs2.Cipher.{is_ascii}
use okam_ha_native.Cs2.Request.{
  make_cgi_request, command_header, cgi_text, bad_credential, has_control,
}

-- The header names the command 0x0a01 and the size of what follows, which is ASCII.
pub record IsCommand (request : Bytes) : Type 0 where
  pub marker : from_little (slice 0 2 request) ≡ 0x0a01
  pub size : length request ≡ 8 + from_little (slice 4 6 request)
  pub ascii : is_ascii (drop 8 request) ≡ true

framed :
    (text : Text)
    → length text ≤ 65535
    → is_ascii text ≡ true
    → IsCommand (command_header (length text) ++ text)
unfolding from_little
framed text h a = record { marker = refl; size = omega (arith, h); ascii = a }

-- What `make_cgi_request` returns has a header with the size of the text, and an ASCII text in which
-- neither the path nor the credentials have brought control characters.
pub make_cgi_request-IsCommand :
    (path user password : Text) (request : Bytes)
    → make_cgi_request path user password ≡ ok request
    → IsCommand request
      × (drop 8 request ≡ cgi_text path user password)
      × (has_control path ≡ false)
      × (has_control user ≡ false)
      × (has_control password ≡ false)
unfolding make_cgi_request bad_credential
make_cgi_request-IsCommand path user password request h =
    let text = cgi_text path user password in
    let good = ok (command_header (length text) ++ text) in
    let sized = require (leb (length text) 65535) "camera CGI request is too large" >> good in
    let ascii = require (is_ascii text) "camera CGI request is invalid" >> sized in
    let credentials = not (bad_credential user) && not (bad_credential password) in
    let path_ok = ltb 0 (length path) && leb (length path) 2048 && not (has_control path) in
    let (p, rest1) =
      require-eq_ok path_ok "camera CGI path is invalid"
        (require credentials "camera credential is invalid" >> ascii) request h in
    let (c, rest2) = require-eq_ok credentials "camera credential is invalid" ascii request rest1 in
    let (a, rest3) =
      require-eq_ok (is_ascii text) "camera CGI request is invalid" sized request rest2 in
    let (l, made) =
      require-eq_ok (leb (length text) 65535) "camera CGI request is too large" good request
        rest3 in
    let same : command_header (length text) ++ text ≡ request = cc made in
    (
      subst IsCommand same (framed text (ground (arith, l)) a),
      ap (drop 8) (sym same),
      ground (arith, p),
      ground (arith, c),
      ground (arith, c),
    )
