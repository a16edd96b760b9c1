-- ===== src/Examples/Handles.antt =====
-- The theorems on handle tables, at tables of two and four entries.
use tclx.Base.{
  ℕ, zero, suc, ◌*◌, ◌^◌, none, ◌≡◌, ◌<◌, refl, false, some, List, [], ◌∷◌, Text, arith, has,
}
use tclx.Base.Int.{pos, negsuc}
use tclx.Handles.{
  Table, alloc_entry, grow_if_full, expand_table, num_new_entries, handle_alloc, handle_free,
  handle_of, user_area, handle_xlate, entry_ptr, null_idx, allocated_idx, index,
}
use tclx.Handles.FreeList.{nil, cons, link_at}
use tclx.Handles.Valid.{IsValid}
use tclx.Handles.Xlate.{handle_xlate-handle_of}
use tclx.Handles.Walk.{walk_all, walk_all_complete, allocated_from}
use tclx.Handles.Lifecycle.{
  Opens, Closes, handle_alloc-Opens, handle_free-Closes, handle_alloc-free, free_alloc,
}

abbrev base : Text
base = b'f' ∷ []

-- Entry 0 is allocated, entry 1 is free.
abbrev half : Table ℕ
half = record {
  use_count = pos 1;
  entry_size = 24;
  table_size = 2;
  free_head_idx = index 1;
  body =
      record { free_link = allocated_idx; user = 7 }
      ∷ record { free_link = null_idx; user = 8 }
      ∷ [];
  handle_base = base;
}

half-rest : (i : ℕ) → i < 2 → has i (1 ∷ []) ≡ false → link_at half.body i ≡ some allocated_idx
half-rest zero h out = refl
half-rest (suc zero) h out = ground arith
half-rest (suc (suc i)) h out = absurd (omega arith)

half-IsValid : IsValid half (1 ∷ [])
half-IsValid = record {
  sized = refl;
  chain = cons refl refl nil;
  bounded = λ i h. ground arith;
  rest = half-rest;
}

-- Both entries are allocated.
abbrev full : Table ℕ
full = record half {
  free_head_idx = null_idx;
  body =
      record { free_link = allocated_idx; user = 7 }
      ∷ record { free_link = allocated_idx; user = 8 }
      ∷ [];
}

full-rest : (i : ℕ) → i < 2 → has i [] ≡ false → link_at full.body i ≡ some allocated_idx
full-rest zero h out = refl
full-rest (suc zero) h out = refl
full-rest (suc (suc i)) h out = absurd (omega arith)

full-IsValid : IsValid full []
full-IsValid = record { sized = refl; chain = nil; bounded = λ i h. ground arith; rest = full-rest }

handle_alloc-Opens_example :
    (t' : Table ℕ) × (i : ℕ) × (fs' : List ℕ) × (handle_alloc 0 full
      ≡ some (t', handle_of full i, user_area full i))
    × IsValid t' fs'
    × (full.entry_size * i < 2 ^ 31)
    × (t'.table_size * t'.entry_size < 2 ^ 31)
    × Opens full t' i
handle_alloc-Opens_example =
    handle_alloc-Opens 0 full [] full-IsValid (omega arith) (omega arith) (omega arith)

-- Entries of 16 bytes: an expansion to 2 ^ 27 of them has a size that is no int.
abbrev large : Table ℕ
large = record half { entry_size = 16; table_size = 2 ^ 26; free_head_idx = null_idx }

too_large : handle_alloc 0 large ≡ none
unfolding handle_alloc alloc_entry grow_if_full expand_table num_new_entries
too_large = refl

open_0 : handle_xlate half (handle_of half 0) ≡ entry_ptr (user_area half 0)
open_0 = ground (arith, handle_xlate-handle_of 0 half-IsValid)

handle_free-Closes_example :
    (t' : Table ℕ) × (handle_free half (user_area half 0) ≡ some t')
    × IsValid t' (0 ∷ 1 ∷ [])
    × Closes half t' 0
handle_free-Closes_example =
    handle_free-Closes half (1 ∷ []) 0 (user_area half 0) half-IsValid (omega arith) (omega arith)
      open_0

handle_alloc-free_example :
    free_alloc 0 half (user_area half 0) ≡ some (handle_of half 0, user_area half 0)
handle_alloc-free_example =
    handle_alloc-free 0 half (1 ∷ []) 0 (user_area half 0) half-IsValid (omega arith) (omega arith)
      open_0

walk_all_complete_example : walk_all 3 half (negsuc 0) ≡ allocated_from half.body 2 0
walk_all_complete_example = walk_all_complete 3 half (omega arith)
