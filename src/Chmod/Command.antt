-- ===== src/Chmod/Command.antt =====
-- The chmod command, for files by name or by file id.
use tclx.Base.{
  ℕ, Bool, true, false, ◌&&◌, Option, none, some, List, [], ◌∷◌, Text, text, text_eq, leb, ltb,
  if◌then◌else◌,
}
use tclx.Chmod.{Mode, Conv, converted, invalid, out_of_fuel, conv_sym_mode}

pub data ChmodError : Type 0 where
  wrong_args bad_number bad_list no_file system_error invalid_mode : ChmodError

-- modeInfo_t.
pub data ModeInfo : Type 0 where
  symbolic : Text → ModeInfo
  absolute : Mode → ModeInfo

-- The files: the name of a file is translated or the id of one looked up, its mode is asked for and
-- after_change; the Boolean says that files are ids.
pub record FileEnv : Type 1 where
  pub World : Type 0
  pub File : Type 0
  pub find_file : Bool → Text → World → Option File
  pub stat_mode : Bool → File → World → Option Mode
  pub change_mode : Bool → File → Mode → World → Option World
  pub get_int : Text → Option Mode
  pub elements : Text → Option (List Text)

-- What stat gives is masked by 07777, and the new mode is an unsigned short.
abbrev pub low_bits : ℕ → Mode → Mode
low_bits k m i = ltb i k && m i

module _ (env : FileEnv) where
  -- The interpreter's files behind the command, and the error if there is one.
  abbrev pub Result : Type 0
  Result = env.World × Option ChmodError

  abbrev after_change : env.World → Option env.World → Result
  after_change w none = (w, some system_error)
  after_change w (some w') = (w', none)

  abbrev change_converted : Bool → env.File → Conv → env.World → Result
  change_converted ids file (converted m) w =
      after_change w (env.change_mode ids file (low_bits 16 m) w)
  change_converted ids file invalid w = (w, some invalid_mode)
  change_converted ids file out_of_fuel w = (w, some invalid_mode)

  unfoldable pub change_found : Bool → ModeInfo → env.File → env.World → Result
  unfolding conv_sym_mode
  change_found ids (absolute m) file w = after_change w (env.change_mode ids file (low_bits 16 m) w)
  change_found ids (symbolic s) file w = elim (env.stat_mode ids file w) [
    | none ↦ (w, some system_error)
    | some m ↦ change_converted ids file (conv_sym_mode s (low_bits 12 m)) w
  ]

  -- ChmodFileNameObj and ChmodFileIdObj.
  unfoldable pub chmod_file : Bool → ModeInfo → Text → env.World → Result
  unfolding change_found
  chmod_file ids mode name w = elim (env.find_file ids name w) [
    | none ↦ (w, some no_file)
    | some file ↦ change_found ids mode file w
  ]

  -- The loop over the files, up to the first error.
  unfoldable pub chmod_files : Bool → ModeInfo → List Text → env.World → Result
  unfolding chmod_file
  chmod_files ids mode [] w = (w, none)
  chmod_files ids mode (name ∷ names) w =
      let (w', e) = chmod_file ids mode name w in
      let rest = chmod_files ids mode names w' in elim e [ none ↦ rest | some e' ↦ (w', some e') ]

  abbrev is_number : Text → Bool
  is_number [] = false
  is_number (c ∷ s) = leb b'0' c && leb c b'9'

  unfoldable pub parse_mode : Text → Option ModeInfo
  parse_mode s =
      if is_number s
      then elim (env.get_int s) [ none ↦ none | some m ↦ some (absolute m) ]
      else some (symbolic s)

  unfoldable pub chmod_args : Bool → List Text → env.World → Result
  unfolding parse_mode chmod_files
  chmod_args ids (mode ∷ files ∷ []) w = elim (parse_mode mode) [
    | none ↦ (w, some bad_number)
    | some m ↦ elim (env.elements files) [
      | none ↦ (w, some bad_list)
      | some names ↦ chmod_files ids m names w
    ]
  ]
  chmod_args ids args w = (w, some wrong_args)

  unfoldable pub chmod_cmd : List Text → env.World → Result
  unfolding chmod_args
  chmod_cmd [] w = (w, some wrong_args)
  chmod_cmd (arg ∷ args) w =
      if text_eq arg (text "-fileid")
      then chmod_args true args w
      else chmod_args false (arg ∷ args) w
