-- ===== src/Strings/Translit.antt =====
-- generic/tclXstring.c: CheckForUniCode, ExpandString and translit. A string is its bytes; those
-- of a string that passed the check are ASCII characters.
use tclx.Base.{
  ℕ, zero, suc, ◌+◌, ◌-◌, ◌≡◌, ◌≤◌, refl, Bool, true, false, not, ◌&&◌, Option, none, some, [], ◌∷◌,
  ◌++◌, Text, ltb, leb, ◌==◌, if◌then◌else◌, length, has, arith, ap, length-append,
}
use tclx.Interp.{
  Interp, value, unicode_data, range_too_long, from_too_long, return, fail, ok, error, error,
}
use tclx.Strings.{Str}

abbrev pub max_expansion : ℕ
max_expansion = 255

-- Tcl_UtfToUniChar takes one byte exactly for ASCII, at the first byte that is not.
unfoldable pub check_for_unicode : Text → Bool
check_for_unicode [] = true
check_for_unicode (c ∷ s) = ltb c 128 && check_for_unicode s

-- The bytes `start`, ..., `start + n - 1`.
unfoldable pub byte_range : ℕ → ℕ → Text
byte_range start zero = []
byte_range start (suc n) = start ∷ byte_range (suc start) n

-- The bytes that the loop of ExpandString writes from index `i` on; a range `a-b` is written whole.
unfoldable pub expand_loop : ℕ → Text → Text
unfolding byte_range
expand_loop i [] = []
expand_loop i (a ∷ []) = if ltb i max_expansion then a ∷ [] else []
expand_loop i (a ∷ b ∷ []) =
    let rest = expand_loop (suc i) (b ∷ []) in if ltb i max_expansion then a ∷ rest else []
expand_loop i (a ∷ d ∷ b ∷ s) =
    let range = byte_range a (b - a + 1) ++ expand_loop (i + (b - a + 1)) s in
    let single = a ∷ expand_loop (suc i) (d ∷ b ∷ s) in
    if ltb i max_expansion then if d == b'-' && ltb a b then range else single else []

unfoldable pub expand_string : Text → Text
unfolding expand_loop
expand_string s = expand_loop 0 s

-- `map [c]`, of the assignments from the first on; `none` is -1.
unfoldable pub build_map : Text → Text → (ℕ → Option ℕ) → ℕ → Option ℕ
build_map [] to m c = m c
build_map (f ∷ from) [] m c = build_map from [] (λ x. if f == x then none else m x) c
build_map (f ∷ from) (t ∷ to) m c = build_map from to (λ x. if f == x then some t else m x) c

-- The pointer stays where the map says -1, so that all further rounds see the same byte.
unfoldable pub translate_loop : (ℕ → Option ℕ) → Text → Text
translate_loop m [] = []
translate_loop m (c ∷ s) =
    let rest = translate_loop m s in elim (m c) [ some d ↦ d ∷ rest | none ↦ c ∷ s ]

unfoldable pub translit : Text → Text → Text → Str
unfolding build_map translate_loop check_for_unicode
translit from to string =
    if ltb (length to) (length from)
    then fail from_too_long
    else if check_for_unicode string
    then return (value (translate_loop (build_map from to some) string))
    else fail unicode_data

-- translit inrange outrange string
unfoldable pub translit_cmd : Text → Text → Text → Str
unfolding translit expand_string
translit_cmd in_range out_range string =
    if not (check_for_unicode in_range)
    then fail unicode_data
    else if not (ltb (length (expand_string in_range)) max_expansion)
    then fail range_too_long
    else if not (check_for_unicode out_range)
    then fail unicode_data
    else if not (ltb (length (expand_string out_range)) max_expansion)
    then fail range_too_long
    else translit (expand_string in_range) (expand_string out_range) string

-- What a byte becomes: the partner of its last place in `from`, or itself.
unfoldable pub partner : Text → Text → ℕ → ℕ
partner [] to c = c
partner (f ∷ from) [] c = c
partner (f ∷ from) (t ∷ to) c = if has c from then partner from to c else if c == f then t else c

build_map-partner :
    (from to : Text) (m : ℕ → Option ℕ) (c : ℕ)
    → length from ≤ length to
    → build_map from to m c ≡ (if has c from then some (partner from to c) else m c)
unfolding build_map partner
build_map-partner [] to m c h = refl
build_map-partner (f ∷ from) [] m c h = absurd (omega arith)
build_map-partner (f ∷ from) (t ∷ to) m c h =
    ground (arith, build_map-partner from to (λ x. if f == x then some t else m x) c)

partner-absent : (from to : Text) (c : ℕ) → has c from ≡ false → partner from to c ≡ c
unfolding partner
partner-absent [] to c h = refl
partner-absent (f ∷ from) [] c h = refl
partner-absent (f ∷ from) (t ∷ to) c h = ground arith

map_partner :
    (from to : Text) (c : ℕ)
    → length from ≤ length to
    → build_map from to some c ≡ some (partner from to c)
map_partner from to c h = ground (arith, build_map-partner from to some c, partner-absent from to c)

-- Each byte of a string by its partner.
unfoldable pub partners : Text → Text → Text → Text
unfolding partner
partners from to [] = []
partners from to (c ∷ s) = partner from to c ∷ partners from to s

translate_loop-partners :
    (from to s : Text)
    → length from ≤ length to
    → translate_loop (build_map from to some) s ≡ partners from to s
unfolding translate_loop partners
translate_loop-partners from to [] h = refl
translate_loop-partners from to (c ∷ s) h =
    rw (map_partner from to c h, translate_loop)
      (ap (λ r. partner from to c ∷ r) (translate_loop-partners from to s h))

-- translit on expanded ranges answers on every input with the error for a longer inrange, else
-- with the error for a string that is not ASCII, else with each character replaced by its partner
-- in outrange.
pub translit_lem :
    (from to string : Text) (s : Interp Text)
    → translit from to string s ≡ (
        if leb (length from) (length to)
        then if check_for_unicode string
          then ok (value (partners from to string)) s
          else error unicode_data s
        else error from_too_long s)
unfolding translit
translit_lem from to string s = ground (arith, translate_loop-partners from to string)

byte_range-length : (a n : ℕ) → length (byte_range a n) ≡ n
unfolding byte_range
byte_range-length a zero = refl
byte_range-length a (suc n) = ap suc (byte_range-length (suc a) n)

-- From index `i` on, ASCII input fills at most up to index 382: one range of 128 bytes that starts
-- at index 254.
expand_loop-length :
    (i : ℕ) (s : Text) → check_for_unicode s ≡ true → length (expand_loop i s) ≤ 382 - i
unfolding expand_loop check_for_unicode
expand_loop-length i [] h = ground arith
expand_loop-length i (a ∷ []) h = ground arith
expand_loop-length i (a ∷ b ∷ []) h = ground (arith, expand_loop-length (suc i) (b ∷ []))
expand_loop-length i (a ∷ d ∷ b ∷ s) h = ground (
  arith,
  expand_loop-length (i + (b - a + 1)) s,
  expand_loop-length (suc i) (d ∷ b ∷ s),
  length-append (byte_range a (b - a + 1)) (expand_loop (i + (b - a + 1)) s),
  byte_range-length a (b - a + 1),
)

-- The expansion of an ASCII range writes at most 382 bytes.
expand_string-length : (s : Text) → check_for_unicode s ≡ true → length (expand_string s) ≤ 382
unfolding expand_string
expand_string-length s h = expand_loop-length 0 s h
