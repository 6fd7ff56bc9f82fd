-- ===== src/Settings/Tests.antt =====
-- Runs of the settings.
use Prim.Native.String.{String}
use linux_hello.Prelude.{◌≡◌, refl, none, some, [], ◌∷◌, arith}
use linux_hello.Prelude.Dict.{get, insert, pop}
use linux_hello.Pam.Text.{strip, lstrip, rstrip, is_space}
use linux_hello.Settings.{
  Config, Layered, ok, option_in, load_option, sections_with, find_section, section_for,
  with_option, set_value, without_option, reset_value,
}
use linux_hello.Settings.Layers.{
  IsOther, IsPlain, Rereads, IsReset, set_value-load_option, reset_value-IsReset,
}

abbrev as_is : String → String
as_is s = s

abbrev shipped : Layered
shipped = record {
  defaults = ("video", ("timeout", "4.0") ∷ ("rotate", "0") ∷ []) ∷ [];
  overrides = [];
}

abbrev changed : Layered
changed = record shipped { overrides = ("video", ("timeout", "9") ∷ []) ∷ [] }

-- A parser that reads everything as it wrote it.
abbrev all_read : Config → Config
all_read c = c

timeout_set : set_value as_is all_read shipped "timeout" "9" none ≡ ok (changed, "video")
unfolding set_value find_section sections_with option_in with_option get insert
timeout_set = refl

all_read-Rereads : Rereads as_is all_read shipped
all_read-Rereads = record { as_written = λ section key value known plain. refl }

nine-IsPlain : IsPlain "9"
unfolding strip lstrip rstrip is_space
nine-IsPlain = record { one_line = ((omega arith, omega arith), tt); stripped = refl }

set_value-load_option_example :
    (load_option as_is changed "video" "timeout" ≡ some "9")
    × ((section' key' : String)
        → IsOther as_is "video" "timeout" section' key'
        → load_option as_is changed section' key' ≡ load_option as_is shipped section' key')
set_value-load_option_example =
    set_value-load_option as_is all_read shipped changed "timeout" "9" "video" none all_read-Rereads
      nine-IsPlain timeout_set

timeout_section : section_for as_is changed "timeout" none ≡ ok (some "video")
unfolding find_section sections_with option_in get
timeout_section = refl

reset_value-IsReset_example : IsReset as_is "video" "timeout" changed (ok shipped)
unfolding reset_value find_section sections_with option_in without_option get pop
reset_value-IsReset_example =
    reset_value-IsReset as_is changed "timeout" "video" none timeout_section
