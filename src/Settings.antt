-- ===== src/Settings.antt =====
-- Layered settings (linux-hello/src/settings.py). A parsed file is a dictionary of sections, each a
-- dictionary of options. How the parser spells an option's name (`spell`), and what it reads of the file
-- that it writes for a configuration (`reread`), are arguments; its DEFAULT section, and files that it refuses, are
-- not modelled. A value that was read is taken to be written and read as it is where `reset_value` writes.
pub mod Layers
mod Tests
use Prim.Native.String.{String}
use linux_hello.Prelude.{
  Bool, true, false, ◌&&◌, not, Option, none, some, List, [], ◌∷◌, if◌then◌else◌, is_some, is_empty,
}
use linux_hello.Prelude.Dict.{Dict, get, insert, pop}

abbrev pub Config : Type 0
Config = Dict (Dict String)

-- The layers: the package's defaults, and the local overrides.
pub record Layered : Type 0 where
  pub defaults : Config
  pub overrides : Config

pub data Result {ℓ} (A : Type ℓ) : Type ℓ where
  ok : A → Result A
  settings_error : Result A

abbrev pub or_empty : Option (Dict String) → Dict String
or_empty none = []
or_empty (some options) = options

abbrev pub first_of : Option String → Option String → Option String
first_of none o = o
first_of (some v) o = some v

abbrev pub only_section : List String → Result (Option String)
only_section [] = ok none
only_section (s ∷ []) = ok (some s)
only_section (s ∷ t ∷ ss) = settings_error

-- A section without options goes.
abbrev pub put_section : String → Dict String → Config → Config
put_section section [] c = pop section c
put_section section (o ∷ options) c = insert section (o ∷ options) c

module _ (spell : String → String) where
  -- What one file says of an option.
  unfoldable pub option_in : Config → String → String → Option String
  unfolding get
  option_in c section key = get (spell key) (or_empty (get section c))

  abbrev pub has_option : Config → String → String → Bool
  has_option c section key = is_some (option_in c section key)

  -- load(), asked for an option.
  unfoldable pub load_option : Layered → String → String → Option String
  unfolding option_in
  load_option l section key =
      first_of (option_in l.overrides section key) (option_in l.defaults section key)

  unfoldable pub sections_with : Config → String → Config → List String
  unfolding option_in
  sections_with known key [] = []
  sections_with known key ((section, options) ∷ c) =
      let rest = sections_with known key c in
      if has_option known section key then section ∷ rest else rest

  unfoldable pub find_section : Layered → String → Result (Option String)
  unfolding sections_with
  find_section l key = only_section (sections_with l.defaults key l.defaults)

  abbrev pub section_for : Layered → String → Option String → Result (Option String)
  section_for l key none = find_section l key
  section_for l key (some section) = ok (some section)

  unfoldable pub without_option : String → String → Config → Config
  unfolding get insert pop
  without_option section key c = put_section section (pop (spell key) (or_empty (get section c))) c

  abbrev pub reset_in : Layered → String → Result (Option String) → Result Layered
  reset_in l key settings_error = settings_error
  reset_in l key (ok none) = ok l
  reset_in l key (ok (some section)) =
      if has_option l.overrides section key
      then ok (record l { overrides = without_option section key l.overrides })
      else ok l

  unfoldable pub reset_value : Layered → String → Option String → Result Layered
  unfolding find_section option_in without_option
  reset_value l key section = reset_in l key (section_for l key section)

  -- local.set, with the section added when it is missing.
  unfoldable pub with_option : String → String → String → Config → Config
  unfolding get insert
  with_option section key value c =
      insert section (insert (spell key) value (or_empty (get section c))) c

-- The overrides that it leaves are what is read of the file that it wrote.
module _ (spell : String → String) (reread : Config → Config) where
  abbrev pub set_in : Layered → String → String → Result (Option String) → Result (Layered × String)
  set_in l key value settings_error = settings_error
  set_in l key value (ok none) = settings_error
  set_in l key value (ok (some section)) =
      if has_option spell l.defaults section key
      then ok (
        record l { overrides = reread (with_option spell section key value l.overrides) },
        section,
      )
      else settings_error

  unfoldable pub set_value : Layered → String → String → Option String → Result (Layered × String)
  unfolding find_section option_in with_option
  set_value l key value section = set_in l key value (section_for spell l key section)
