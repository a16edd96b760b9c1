-- ===== src/Filescan/Store/Entries.antt =====
-- The user area of an entry, read and written through the pointer that the table hands out.
use tclx.Base.{
  ℕ, ◌<◌, ◌≡◌, refl, ◌∙◌, true, some, List, ◌==◌, if◌then◌else◌, get_elem?, set, length-set,
  get_elem?-set, get_elem?-lt, arith, Option-cases, inl, inr,
}
use tclx.Handles.{Table, Entry, is_allocated, handle_of, user_area, handle_alloc, ◌>>=◌}
use tclx.Handles.FreeList.{user_at, link_at-set, user_at-set, Chain-frame}
use tclx.Handles.Valid.{IsValid, Room}
use tclx.Handles.Alloc.{allocated_at, Allocates, alloc_entry-Allocates}
use tclx.Handles.Xlate.{offset_facts}
use tclx.Filescan.Contexts.{entry_index, read_entry, write_entry}

pub entry_index-user_area :
    (t : Table ℕ) (i : ℕ) → 0 < t.entry_size → entry_index t (user_area t i) ≡ some i
unfolding entry_index user_area
entry_index-user_area t i h =
    let (above, back, rest, quotient) = offset_facts t.entry_size i h in
    rw (above, back, rest, quotient)

pub read_entry-user_area :
    (t : Table ℕ) (i : ℕ) → 0 < t.entry_size → read_entry t (user_area t i) ≡ user_at t.body i
unfolding read_entry
read_entry-user_area t i h = rw (read_entry, entry_index-user_area t i h) (ground arith)

-- What a write of an open entry's user area does to a valid table.
pub record Writes (t : Table ℕ) (fs : List ℕ) (i a : ℕ) (t' : Table ℕ) : Type 0 where
  pub runs : write_entry t (user_area t i) a ≡ some t'
  pub valid : IsValid t' fs
  pub allocated : (j : ℕ) → allocated_at t' j ≡ allocated_at t j
  pub users : (j : ℕ) → user_at t'.body j ≡ (if i == j then some a else user_at t.body j)
  pub size : t'.table_size ≡ t.table_size
  pub entry_size : t'.entry_size ≡ t.entry_size
  pub handle_base : t'.handle_base ≡ t.handle_base

is_allocated-set :
    (b : List (Entry ℕ)) (i j a : ℕ) (e : Entry ℕ)
    → get_elem? b i ≡ some e
    → is_allocated (get_elem? (set b i (record e { user = a })) j) ≡ is_allocated (get_elem? b j)
is_allocated-set b i j a e at =
    ground (arith, get_elem?-set b i j (record e { user = a }) (get_elem?-lt b i at), at)

pub write_entry-Writes :
    (t : Table ℕ) (fs : List ℕ) (i a : ℕ)
    → IsValid t fs
    → 0 < t.entry_size
    → allocated_at t i ≡ true
    → (t' : Table ℕ) × Writes t fs i a t'
unfolding write_entry
write_entry-Writes t fs i a v h open_entry = elim (Option-cases (get_elem? t.body i)) [
  | inl e ↦ ground (arith, e)
  | inr (e, at) ↦
      let e' : Entry ℕ = record e { user = a } in
      let lt = get_elem?-lt t.body i at in
      let links = λ (j : ℕ). link_at-set t.body i j e' lt in
      (
        record t { body = set t.body i e' },
        record {
          runs = rw (write_entry, entry_index-user_area t i h, at);
          valid = record {
            sized = length-set t.body i e' ∙ v.sized;
            chain = Chain-frame v.chain (λ j m. ground (arith, links j, at));
            bounded = v.bounded;
            rest = λ j l o. ground (arith, links j, at, v.rest j);
          };
          allocated = λ j. is_allocated-set t.body i j a e at;
          users = λ j. user_at-set t.body i j e' lt;
          size = refl;
          entry_size = refl;
          handle_base = refl;
        },
      )
]

-- TclX_HandleAlloc with all that it does to the table.
pub handle_alloc-Allocates :
    (junk : ℕ) (t : Table ℕ) (fs : List ℕ)
    → 0 < t.table_size
    → Room t fs
    → IsValid t fs
    → (t' : Table ℕ) × (i : ℕ) × (fs' : List ℕ) × (handle_alloc junk t
        ≡ some (t', handle_of t' i, user_area t' i))
      × Allocates t fs t' i fs'
unfolding handle_alloc
handle_alloc-Allocates junk t fs pos room v =
    let (t', i, fs', runs, a) = alloc_entry-Allocates junk t fs pos room v in
    (t', i, fs', rw (runs, ◌>>=◌), a)
