-- ===== src/Examples/KeyedLists.antt =====
-- The theorems on keyed lists, at a list with the keys `a` and `b`.
use tclx.Base.{ℕ, subst, zero, suc, arith, ◌≡◌, refl, true, false, some, [], ◌∷◌, ◌≢◌, Text}
use tclx.Examples.Tables.{tables, lists, format, TextTable}
use tclx.KeyedList.{
  Obj, plain, nil, cons, KeylInt, of_int, value_at, Status, ok, break, convert, find_index,
  entry_at, keyed_list_get, keyed_list_set, keyed_list_delete, split_key, keyed_list_get_keys,
}
use tclx.KeyedList.Sound.{IsSound}
use tclx.KeyedList.Sound.Operations.{keyed_list_set-IsSound}
use tclx.KeyedList.Paths.{keyed_list_get-set, here}
use tclx.KeyedList.Reach.{string, set, delete, Reach-IsSound}
use tclx.KeyedList.Deleted.Kept.{keyed_list_get-delete_ne}
use tclx.KeyedList.Deleted.Gone.{Distinct, DistinctAlong, level, keyed_list_get-delete}
use tclx.KeyedList.Frame.{keyed_list_get-set_ne}
use tclx.KeyedList.Total.{IsClear, keyed_list_set-IsClear}
use tclx.KeyedList.Fuel.{keyed_list-Ends, Ends}

abbrev key_a : Text
key_a = b'a' ∷ []

abbrev key_b : Text
key_b = b'b' ∷ []

-- The keypath a.b
abbrev key_ab : Text
key_ab = b'a' ∷ b'.' ∷ b'b' ∷ []

abbrev one : Text
one = b'1' ∷ []

abbrev two : Text
two = b'2' ∷ []

-- {b 1}
abbrev list_b : Obj TextTable
list_b = plain (format (format (key_b ∷ one ∷ []) ∷ []))

-- The object that an operation returns.
abbrev result : Status (Obj TextTable) → Obj TextTable
result (ok o) = o
result _ = plain []

unfoldable with_ab : Obj TextTable
unfolding keyed_list_set
with_ab = result (keyed_list_set tables lists (λ i. false) list_b key_ab (plain two))

set_ab : keyed_list_set tables lists (λ i. false) list_b key_ab (plain two) ≡ ok with_ab
unfolding with_ab keyed_list_set split_key
set_ab = refl

keyed_list_get-set_example : keyed_list_get tables lists with_ab key_ab ≡ ok (plain two)
keyed_list_get-set_example =
    keyed_list_get-set tables lists (λ i. false) list_b (plain two) key_ab tt set_ab

keys_differ : (split_key key_ab).0 ≢ (split_key key_b).0
unfolding split_key
keys_differ e = ground arith

keyed_list_get-set_ne_example :
    keyed_list_get tables lists with_ab key_b ≡ keyed_list_get tables lists list_b key_b
keyed_list_get-set_ne_example =
    keyed_list_get-set_ne tables lists list_b (plain two) key_ab key_b tt (here keys_differ) set_ab

-- The same, with the entry a deleted again.
unfoldable without_a : Obj TextTable
unfolding keyed_list_delete with_ab
without_a = result (keyed_list_delete tables lists (λ i. false) with_ab key_ab)

delete_ab : keyed_list_delete tables lists (λ i. false) with_ab key_ab ≡ ok without_a
unfolding without_a with_ab keyed_list_set keyed_list_delete split_key
delete_ab = refl

Reach-IsSound_example : IsSound tables lists without_a
Reach-IsSound_example =
    Reach-IsSound tables lists (
      delete (λ i. false) key_ab (set (λ i. false) key_ab (string _) (string two) set_ab) delete_ab)

got_b : keyed_list_get tables lists with_ab key_b ≡ ok (plain one)
unfolding keyed_list_get with_ab keyed_list_set split_key
got_b = refl

with_ab-IsSound : IsSound tables lists with_ab
with_ab-IsSound =
    keyed_list_set-IsSound tables lists (λ i. false) list_b (plain two) key_ab tt tt set_ab

keyed_list_get-delete_ne_example : keyed_list_get tables lists without_a key_b ≡ ok (plain one)
keyed_list_get-delete_ne_example =
    keyed_list_get-delete_ne tables lists with_ab key_ab key_b with_ab-IsSound (here keys_differ)
      delete_ab got_b

-- {b 2} and {b 1} {a {b 2}} as keyed lists.
abbrev int_child : KeylInt tables lists
int_child = record {
  array_size = 17;
  hash = some (tables.set key_b 0 tables.empty);
  entries = cons key_b (plain two) nil;
}

abbrev int_ab : KeylInt tables lists
int_ab = record {
  array_size = 17;
  hash = some (tables.set key_a 1 (tables.set key_b 0 tables.empty));
  entries = cons key_b (plain one) (cons key_a (of_int tables lists int_child) nil);
}

convert_ab : convert tables lists with_ab ≡ ok int_ab
unfolding convert with_ab keyed_list_set split_key
convert_ab = refl

convert_child : convert tables lists (of_int tables lists int_child) ≡ ok int_child
unfolding convert
convert_child = refl

int_child-Distinct : Distinct int_child.entries
unfolding entry_at
int_child-Distinct zero zero k v w h h' = refl
int_child-Distinct zero (suc j) k v w h h' = cc
int_child-Distinct (suc i) j k v w h h' = cc

int_ab-Distinct : Distinct int_ab.entries
unfolding entry_at
int_ab-Distinct zero zero k v w h h' = refl
int_ab-Distinct (suc zero) (suc zero) k v w h h' = refl
int_ab-Distinct zero (suc zero) k v w h h' = let e : key_b ≡ key_a = cc in ground arith
int_ab-Distinct (suc zero) zero k v w h h' = let e : key_b ≡ key_a = cc in ground arith
int_ab-Distinct zero (suc (suc j)) k v w h h' = cc
int_ab-Distinct (suc zero) (suc (suc j)) k v w h h' = cc
int_ab-Distinct (suc (suc i)) j k v w h h' = cc

child-DistinctAlong : DistinctAlong tables lists (of_int tables lists int_child) key_b
unfolding split_key
child-DistinctAlong = level int_child convert_child int_child-Distinct λ i v sub none_below. cc

found_child :
    (i : ℕ) (v : Obj TextTable)
    → find_index tables lists int_ab key_a ≡ some i
    → value_at tables lists int_ab i ≡ ok v
    → of_int tables lists int_child ≡ v
unfolding find_index value_at
found_child zero v e h = ground arith
found_child (suc zero) v e h = cc
found_child (suc (suc i)) v e h = ground arith

below_a :
    (i : ℕ) (v : Obj TextTable) (sub : Text)
    → (split_key key_ab).1 ≡ some sub
    → find_index tables lists int_ab (split_key key_ab).0 ≡ some i
    → value_at tables lists int_ab i ≡ ok v
    → DistinctAlong tables lists v sub
unfolding split_key
below_a i v sub below found at =
    let same : key_b ≡ sub = cc in
    subst (λ s. DistinctAlong tables lists v s) same
      (subst (λ o. DistinctAlong tables lists o key_b) (found_child i v found at)
        child-DistinctAlong)

with_ab-DistinctAlong : DistinctAlong tables lists with_ab key_ab
with_ab-DistinctAlong = level int_ab convert_ab int_ab-Distinct below_a

keyed_list_get-delete_example : keyed_list_get tables lists without_a key_ab ≡ break
keyed_list_get-delete_example =
    keyed_list_get-delete tables lists with_ab key_ab with_ab-IsSound with_ab-DistinctAlong
      delete_ab

keyed_list-Ends_example :
    Ends (keyed_list_get tables lists list_b key_ab)
    × Ends (keyed_list_set tables lists (λ i. true) list_b key_ab (plain two))
    × Ends (keyed_list_delete tables lists (λ i. true) list_b key_ab)
    × Ends (keyed_list_get_keys tables lists list_b (some key_ab))
keyed_list-Ends_example = keyed_list-Ends tables lists (λ i. true) list_b (plain two) key_ab

-- What {b 1} is converted to.
abbrev int_b : KeylInt tables lists
int_b = record {
  array_size = 17;
  hash = some (tables.set key_b 0 tables.empty);
  entries = cons key_b (plain one) nil;
}

convert_b : convert tables lists list_b ≡ ok int_b
unfolding convert
convert_b = refl

-- No entry a is there.
get_ab : IsClear (keyed_list_get tables lists list_b key_ab)
unfolding keyed_list_get split_key
get_ab = tt

keyed_list_set-IsClear_example :
    (o' : Obj TextTable) × (keyed_list_set tables lists (λ i. false) list_b key_ab (plain two)
      ≡ ok o')
    × (keyed_list_get tables lists o' key_ab ≡ ok (plain two))
keyed_list_set-IsClear_example =
    keyed_list_set-IsClear tables lists list_b (plain two) key_ab tt get_ab
