-- ===== src/Examples/Chmod.antt =====
-- Symbolic modes at concrete inputs.
use tclx.Base.{◌≡◌, Text, text}
use tclx.Chmod.{zero_mode, conv_sym_mode}
use tclx.Chmod.Terms.{Ends, conv_sym_mode-Ends}
use tclx.Chmod.Assign.{with_plus, conv_sym_mode-with_plus}

abbrev two_terms : Text
two_terms = text "ug=rw,o-x"

conv_sym_mode-Ends_example : Ends (conv_sym_mode two_terms zero_mode)
conv_sym_mode-Ends_example = conv_sym_mode-Ends two_terms zero_mode

conv_sym_mode-with_plus_example :
    conv_sym_mode (with_plus two_terms) zero_mode ≡ conv_sym_mode two_terms zero_mode
conv_sym_mode-with_plus_example = conv_sym_mode-with_plus two_terms zero_mode
