-- ===== src/Tests/Frames.antt =====
-- Frames, commands and numbers at concrete inputs.
use pushd.Prelude.{if◌then◌else◌, ℕ, ◌<◌, ◌≡◌, ◌≢◌, refl, [], ◌∷◌, arith, length, done, panic}
use pushd.Text.{Bytes, codes, same}
use pushd.Wire.{frame, new_cmdline, new_server_cmdline, parsed, read_int32, slice}
use pushd.Wire.Frames.{new_cmdline-frame}
use pushd.Wire.Accepts.{parsers_never_panic, new_server_cmdline_sound}

abbrev pub_frame : Bytes
pub_frame = frame (codes "pub") (codes "room 7 hi")

new_cmdline-frame_example :
    new_cmdline pub_frame
    ≡ done (
        parsed (record {
          cmd = codes "pub";
          params = if same (codes "pub") (codes "vido") then [] else codes "room 7 hi";
          params2 = if same (codes "pub") (codes "vido") then codes "room 7 hi" else [];
        }))
new_cmdline-frame_example =
    new_cmdline-frame (codes "pub") (codes "room 7 hi")
      (record { named = omega arith; short_name = omega arith; short_body = omega arith })

parsers_never_panic_example :
    (new_cmdline (255 ∷ 255 ∷ 255 ∷ 255 ∷ 1 ∷ []) ≢ panic)
    × (new_server_cmdline (255 ∷ 255 ∷ 255 ∷ 255 ∷ 1 ∷ []) ≢ panic)
parsers_never_panic_example = parsers_never_panic (255 ∷ 255 ∷ 255 ∷ 255 ∷ 1 ∷ [])

sub_input :
    new_server_cmdline (0 ∷ 0 ∷ 0 ∷ 1 ∷ 115 ∷ 0 ∷ 0 ∷ 0 ∷ 2 ∷ 97 ∷ 98 ∷ [])
    ≡ done (parsed (record { cmd = 115 ∷ []; params = 97 ∷ 98 ∷ [] }))
unfolding new_server_cmdline slice read_int32
sub_input = refl

new_server_cmdline_sound_example :
    (0 ∷ 0 ∷ 0 ∷ 1 ∷ 115 ∷ 0 ∷ 0 ∷ 0 ∷ 2 ∷ 97 ∷ 98 ∷ [] ≡ frame (115 ∷ []) (97 ∷ 98 ∷ []))
    × (0 < length {A = ℕ} (115 ∷ []))
    × (0 < length {A = ℕ} (97 ∷ 98 ∷ []))
new_server_cmdline_sound_example =
    new_server_cmdline_sound (0 ∷ 0 ∷ 0 ∷ 1 ∷ 115 ∷ 0 ∷ 0 ∷ 0 ∷ 2 ∷ 97 ∷ 98 ∷ [])
      (record { cmd = 115 ∷ []; params = 97 ∷ 98 ∷ [] }) (omega arith) sub_input

-- Up to four bytes behind the name are passed over.
short_tail :
    new_cmdline (0 ∷ 0 ∷ 0 ∷ 1 ∷ 115 ∷ 9 ∷ 9 ∷ 9 ∷ 9 ∷ [])
    ≡ done (parsed (record { cmd = 115 ∷ []; params = []; params2 = [] }))
unfolding new_cmdline slice read_int32
short_tail = refl
