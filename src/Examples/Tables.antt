-- ===== src/Examples/Tables.antt =====
-- Hash tables and list strings that fulfil what the models ask of the Tcl library.
use tclx.Base.{
  ℕ, zero, suc, ◌≡◌, refl, Option, none, some, List, [], ◌∷◌, Text, text_eq, if◌then◌else◌, ap,
}
use tclx.Tcl.{HashApi, ListApi, map_value}

abbrev pub TextTable : Type 0
TextTable = Text → Option ℕ

-- A table as a function from the key.
abbrev pub tables : HashApi
tables = record {
  Table = TextTable;
  empty = λ j. none;
  find = λ k t. t k;
  set = λ k v t j. if text_eq k j then some v else t j;
  delete = λ k t j. if text_eq k j then none else t j;
  update_all = λ f t j. map_value f (t j);
  find-empty = λ k. refl;
  find-set = λ k j v t. refl;
  find-delete = λ k j t. refl;
  find-update_all = λ f j t. refl;
}

-- A list string: each character of an element one up, and a 0 behind each element.
abbrev pub encode : Text → Text → Text
encode [] rest = 0 ∷ rest
encode (c ∷ s) rest = suc c ∷ encode s rest

abbrev pub format : List Text → Text
format [] = []
format (x ∷ xs) = encode x (format xs)

abbrev pub push : ℕ → Option (List Text) → Option (List Text)
push c (some (x ∷ xs)) = some ((c ∷ x) ∷ xs)
push c _ = none

abbrev pub open_element : Option (List Text) → Option (List Text)
open_element (some xs) = some ([] ∷ xs)
open_element none = none

abbrev pub elements : Text → Option (List Text)
elements [] = some []
elements (zero ∷ s) = open_element (elements s)
elements (suc c ∷ s) = push c (elements s)

elements-encode :
    (x rest : Text) (xs : List Text)
    → elements rest ≡ some xs
    → elements (encode x rest) ≡ some (x ∷ xs)
elements-encode [] rest xs h = ap open_element h
elements-encode (c ∷ x) rest xs h = ap (push c) (elements-encode x rest xs h)

pub elements-format : (xs : List Text) → elements (format xs) ≡ some xs
elements-format [] = refl
elements-format (x ∷ xs) = elements-encode x (format xs) xs (elements-format xs)

abbrev pub lists : ListApi
lists = record { elements = elements; format = format; elements-format = elements-format }
