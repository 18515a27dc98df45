-- ===== src/Cs2/Request.antt =====
-- `make_cgi_request`: the bytes of one camera command.
pub mod Framing
use okam_ha_native.Base.{
  ℕ, Bool, not, ◌&&◌, ◌||◌, [], ◌∷◌, ◌++◌, ltb, leb, Result, ok, ◌>>◌, require, length, any,
}
use okam_ha_native.Base.Bytes.{Bytes, little2}
use okam_ha_native.Base.Text.{Text, codes}
use okam_ha_native.Cs2.Cipher.{is_ascii}

abbrev pub has_control : Text → Bool
has_control = any (λ c. ltb c 0x20)

bad_credential : Text → Bool
bad_credential value = ltb 512 (length value) || has_control value

pub cgi_text : Text → Text → Text → Text
cgi_text path user password =
    codes "GET /"
    ++ (path
        ++ (codes "loginuse="
            ++ (user ++ (codes "&loginpas=" ++ (password ++ codes "&user=admin&pwd=888888&")))))

-- `struct.pack("<HHHH", 0x0A01, 0, length, 0)`
abbrev pub command_header : ℕ → Bytes
command_header length = 0x01 ∷ 0x0a ∷ 0x00 ∷ 0x00 ∷ (little2 length ++ (0x00 ∷ 0x00 ∷ []))

unfoldable pub make_cgi_request : Text → Text → Text → Result Bytes
unfolding bad_credential cgi_text
make_cgi_request path user password = do
  require (ltb 0 (length path) && leb (length path) 2048 && not (has_control path))
      "camera CGI path is invalid"
  require (not (bad_credential user) && not (bad_credential password))
      "camera credential is invalid"
  let request = cgi_text path user password
  require (is_ascii request) "camera CGI request is invalid"
  require (leb (length request) 65535) "camera CGI request is too large"
  ok (command_header (length request) ++ request)
