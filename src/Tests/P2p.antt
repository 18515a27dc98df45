-- ===== src/Tests/P2p.antt =====
-- The probes, the directory and a JPEG on concrete inputs.
use okam_ha_native.Base.{
  ℕ, Bool, ◌||◌, ◌&&◌, leb, [], ◌∷◌, ◌++◌, ◌≡◌, refl, none, some, Option, List, String, ok, arith,
}
use okam_ha_native.Base.Bytes.{Bytes}
use okam_ha_native.Base.Int.{pos}
use okam_ha_native.Base.Text.{codes}
use okam_ha_native.Helper.Summary.{default_summary, report_of}
use okam_ha_native.Json.{Json, string, array, object, item, no_items}
use okam_ha_native.P2p.Directory.{Query, Opened, payload, get_service_parameter}
use okam_ha_native.P2p.Directory.Family.{get_service_parameter_family}
use okam_ha_native.P2p.Field.{select_camera_password}
use okam_ha_native.P2p.Jpeg.{jpeg_dimensions}
use okam_ha_native.P2p.Jpeg.Found.{
  Segment, Frame, segments_bytes, frame_bytes, jpeg_dimensions_found,
}
use okam_ha_native.P2p.Report.{Completed}
use okam_ha_native.Base.Lines.{split_lines}

-- A helper that has not connected, and whose output is read as its report.
abbrev loads : Bytes → Option Json
loads b = some (object (report_of default_summary))

abbrev helper : Option String → Bytes → Option Completed
helper mode stdin = some (record { returncode = pos 4; stdout = codes "{}" })

-- The application segment, and a frame header of 640 by 480.
abbrev segments : List Segment
segments = (0xe0, 1 ∷ 2 ∷ 3 ∷ []) ∷ []

abbrev frame : Frame
frame = record { marker = 0xc0; precision = 8; height = 480; width = 640; more = 3 ∷ [] }

jpeg_dimensions_found_example :
    jpeg_dimensions (0xff ∷ 0xd8 ∷ segments_bytes segments (frame_bytes frame (0xff ∷ 0xd9 ∷ [])))
    ≡ ok (640, 480)
jpeg_dimensions_found_example =
    jpeg_dimensions_found segments frame (0xff ∷ 0xd9 ∷ [])
      (record { has_length = refl; no_frame = refl; no_fill = refl; fits = omega arith }, tt)
      (record {
        starts = refl;
        tall = (omega arith, omega arith);
        wide = (omega arith, omega arith);
        fits = omega arith;
      })

-- A directory that answers with a parameter of 16 letters.
abbrev opener : Query → Opened
opener q = payload (codes "[]")

abbrev answers : Bytes → Option Json
answers b = some (array (item (string (codes "ABCDEFGHIJKLMNOP")) no_items))

abbrev is_alnum : ℕ → Bool
is_alnum c = (leb b'A' c && leb c b'Z') || (leb b'0' c && leb c b'9')

get_service_parameter_family_example :
    get_service_parameter is_alnum opener answers (codes "ABCD123456")
    ≡ get_service_parameter is_alnum opener answers (codes "ABCD654321")
get_service_parameter_family_example =
    get_service_parameter_family is_alnum opener answers (codes "ABCD123456") (codes "ABCD654321")
      refl refl refl

default_password : select_camera_password none none ≡ ok (codes "888888")
unfolding select_camera_password
default_password = refl

two_lines :
    split_lines (codes "a" ++ (0x0d ∷ 0x0a ∷ codes "b" ++ (0x0a ∷ []))) ≡ codes "a" ∷ codes "b" ∷ []
unfolding split_lines
two_lines = refl
