-- ===== src/Handles/Valid.antt =====
-- The invariant of a handle table, kept by TclX_HandleTblInit, AllocEntry and TclX_HandleFree.
use tclx.Base.{
  ℕ, zero, suc, ◌+◌, ◌-◌, ◌*◌, ◌^◌, ◌≤◌, ◌<◌, ◌≡◌, refl, true, false, ◌||◌, ◌&&◌, Option, none,
  some, List, [], ◌∷◌, ◌++◌, Text, ltb, leb, ◌==◌, length, get_elem?, set, has, arith, replicate,
  take, length-append, length-replicate, length-set, get_elem?-append_left, get_elem?-some, ap, ◌∙◌,
}
use mathlib.Core.List.{append-nil}
use tclx.Base.Int.{pos}
use tclx.Handles.{
  Link, null_idx, allocated_idx, index, Entry, Table, set_link, link_loop, ◌>>=◌,
  link_in_new_entries, expand_table, num_new_entries, take_head, grow_if_full, handle_tbl_init,
  entry_header_size, round_entry_size, fits_int,
}
use tclx.Handles.FreeList.{
  range_from, link_at, user_at, user_of, Chain, nil, cons, Chain-frame, Chain-range, link_at-set,
  user_at-set, set_link-LinkSet, link_loop-Linked,
}

-- `fs` are the free entries, in the order of the free list.
pub record IsValid {A : Type 0} (t : Table A) (fs : List ℕ) : Type 0 where
  pub sized : length t.body ≡ t.table_size
  pub chain : Chain t.body t.free_head_idx fs
  pub bounded : (i : ℕ) → has i fs ≡ true → i < t.table_size
  pub rest : (i : ℕ) → i < t.table_size → has i fs ≡ false → link_at t.body i ≡ some allocated_idx

-- The fields that only the initialisation sets, and the user areas.
pub record SameData {A : Type 0} (t t' : Table A) : Type 0 where
  pub entry_size : t'.entry_size ≡ t.entry_size
  pub handle_base : t'.handle_base ≡ t.handle_base
  pub users : (j : ℕ) → j < t.table_size → user_at t'.body j ≡ user_at t.body j

has-append : (j : ℕ) (xs ys : List ℕ) → has j (xs ++ ys) ≡ (has j xs || has j ys)
has-append j [] ys = refl
has-append j (x ∷ xs) ys = ground (arith, has-append j xs ys)

pub has-range_from : (j lo n : ℕ) → has j (range_from lo n) ≡ (leb lo j && ltb j (lo + n))
has-range_from j lo zero = ground arith
has-range_from j lo (suc n) = ground (arith, has-range_from j (suc lo) n)

take_all {ℓ} : {B : Type ℓ} (xs : List B) (n : ℕ) → length xs ≡ n → take n xs ≡ xs
take_all [] zero h = refl
take_all [] (suc n) h = refl
take_all (x ∷ xs) zero h = absurd (omega arith)
take_all (x ∷ xs) (suc n) h = ap (λ r. x ∷ r) (take_all xs n (omega arith))

factor_lt : (n e : ℕ) → 0 < n → n * e < 2 ^ 31 → e < 2 ^ 31
factor_lt n e h fits = let le : 1 * e ≤ n * e = grind arith in omega (arith, le)

both_fit : {m n : ℕ} → m < 2 ^ 31 → n < 2 ^ 31 → (fits_int m && fits_int n) ≡ true
both_fit h h' = ground arith

sizes_fit : (n e : ℕ) → 0 < n → n * e < 2 ^ 31 → (fits_int e && fits_int (n * e)) ≡ true
sizes_fit n e h fits = both_fit (factor_lt n e h fits) fits

module _ {A : Type 0} where
  -- `t` has `n` unlinked entries behind `m` entries that are already in order.
  pub record Fresh (t : Table A) (fs : List ℕ) (m n : ℕ) : Type 0 where
    pub sized : length t.body ≡ m + n
    pub chain : Chain t.body t.free_head_idx fs
    pub bounded : (i : ℕ) → has i fs ≡ true → i < m
    pub rest : (i : ℕ) → i < m → has i fs ≡ false → link_at t.body i ≡ some allocated_idx

  link_in_runs :
      (t : Table A) (m k : ℕ) {b₁ b₂ : List (Entry A)}
      → link_loop k m t.body ≡ some b₁
      → set_link b₁ (m + k) t.free_head_idx ≡ some b₂
      → link_in_new_entries t m (suc k) ≡ some (record t { body = b₂; free_head_idx = index m })
  unfolding link_in_new_entries
  link_in_runs t m k r s =
      let e₀ : (m + suc k == 0) ≡ false = ground arith in
      let e₁ : m + suc k - 1 ≡ m + k = omega arith in
      let e₂ : m + k - m ≡ k = omega arith in rw (e₀, e₁, e₂, r, s)

  pub link_in-IsValid :
      (t : Table A) (fs : List ℕ) (m n size : ℕ)
      → Fresh t fs m n
      → 0 < n
      → size ≡ m + n
      → (b : List (Entry A)) × (link_in_new_entries t m n
          ≡ some (record t { body = b; free_head_idx = index m }))
        × (IsValid
            (record t { body = b; free_head_idx = index m; table_size = size })
            (range_from m n ++ fs))
        × ((j : ℕ) → user_at b j ≡ user_at t.body j)
  link_in-IsValid t fs m zero size f h e = absurd (omega arith)
  link_in-IsValid t fs m (suc k) size f h e =
      let (b₁, l) = link_loop-Linked k m t.body (omega (arith, f.sized)) in
      let (b₂, w) =
        set_link-LinkSet b₁ (m + k) t.free_head_idx (omega (arith, f.sized, l.same_length)) in
      (
        b₂,
        link_in_runs t m k l.runs w.runs,
        record {
          sized = omega (arith, f.sized, l.same_length, w.same_length);
          chain =
              Chain-range k m (λ j lo hi. ground (arith, w.links j, l.links j))
                (ground (arith, w.links (m + k))) (λ j lo. ground (arith, f.bounded j))
                (Chain-frame f.chain (λ j h. ground (arith, f.bounded j, w.links j, l.links j)));
          bounded = λ i h. ground (
            arith,
            has-append i (range_from m (suc k)) fs,
            has-range_from i m (suc k),
            f.bounded i,
          );
          rest = λ i lt h. ground (
            arith,
            has-append i (range_from m (suc k)) fs,
            has-range_from i m (suc k),
            f.rest i,
            w.links i,
            l.links i,
          );
        },
        λ j. ground (arith, w.users j, l.users j),
      )

  -- With at least one entry and sizes that fit, TclX_HandleTblInit returns a valid table of that many entries, all
  -- free in order, with the base and the rounded entry size.
  handle_tbl_init-IsValid :
      (junk : A) (handle_base : Text) (entry_size init_entries : ℕ)
      → 0 < init_entries
      → init_entries * (entry_header_size + round_entry_size entry_size) < 2 ^ 31
      → (t : Table A) × (handle_tbl_init junk handle_base entry_size init_entries ≡ some t)
        × IsValid t (range_from 0 init_entries)
        × (t.handle_base ≡ handle_base)
        × (t.table_size ≡ init_entries)
        × (t.entry_size ≡ entry_header_size + round_entry_size entry_size)
  unfolding handle_tbl_init
  handle_tbl_init-IsValid junk handle_base entry_size init_entries h fits =
      let fresh : Entry A = record { free_link = null_idx; user = junk } in
      let (b, runs, v, u) =
        link_in-IsValid
          (record {
            use_count = pos 1;
            entry_size = entry_header_size + round_entry_size entry_size;
            table_size = init_entries;
            free_head_idx = null_idx;
            body = replicate init_entries fresh;
            handle_base = handle_base;
          })
          [] 0 init_entries init_entries
          (record {
            sized = omega (arith, length-replicate init_entries fresh);
            chain = nil;
            bounded = λ i. cc;
            rest = λ i lt. absurd (omega arith);
          })
          h (omega arith) in
      let size = entry_header_size + round_entry_size entry_size in
      (_, rw (sizes_fit init_entries size h fits) runs, rw append-nil at v, refl, refl, refl)

  -- The entries that can be handed out are there, or an expansion has a size that is an `int`.
  abbrev pub Room : Table A → List ℕ → Type 0
  Room t [] =
      (t.table_size + t.table_size < 2 ^ 31)
      × ((t.table_size + t.table_size) * t.entry_size < 2 ^ 31)
  Room t (i ∷ fs) = Unit {0}

  -- Expanding a nonempty valid table with no free entry succeeds, doubles it, links the new
  -- entries as free in order and keeps the old user areas.
  pub expand_table-IsValid :
      (junk : A) (t : Table A)
      → 0 < t.table_size
      → Room t []
      → IsValid t []
      → (t' : Table A) × (expand_table junk t none ≡ some t')
        × IsValid t' (range_from t.table_size t.table_size)
        × SameData t t'
        × (t'.table_size ≡ t.table_size + t.table_size)
  unfolding expand_table num_new_entries
  expand_table-IsValid junk t h room v =
      let fresh : Entry A = record { free_link = null_idx; user = junk } in
      let new = replicate t.table_size fresh in
      let old = t.body in
      let same = take_all old t.table_size v.sized in
      let sizes = length-append old new in
      let add = λ (o : Option (Table A)).
        o >>= λ t'. some (record t' { table_size = t'.table_size + t.table_size }) in
      let keeps : (j : ℕ) → j < t.table_size → get_elem? (old ++ new) j ≡ get_elem? old j =
        λ j lt. get_elem?-append_left old new j (omega (arith, v.sized)) in
      let (b, runs, w, users) =
        link_in-IsValid (record t { body = old ++ new }) [] t.table_size t.table_size
          (t.table_size + t.table_size)
          (record {
            sized = omega (arith, sizes, v.sized, length-replicate t.table_size fresh);
            chain = Chain-frame v.chain (λ j. cc);
            bounded = λ i. cc;
            rest = λ i lt out. rw (keeps i lt) (v.rest i lt out);
          })
          h refl in
      (
        _,
        rw (both_fit room.0 room.1, same) (ap add runs),
        rw append-nil at w,
        record {
          entry_size = refl;
          handle_base = refl;
          users = λ j lt. users j ∙ ap user_of (keeps j lt);
        },
        refl,
      )

  take_head-cons :
      (t : Table A) {i : ℕ} {next : Link} {fs : List ℕ}
      → length t.body ≡ t.table_size
      → link_at t.body i ≡ some next
      → has i fs ≡ false
      → Chain t.body next fs
      → ((j : ℕ) → has j (i ∷ fs) ≡ true → j < t.table_size)
      → ((j : ℕ)
          → j < t.table_size
          → has j (i ∷ fs) ≡ false
          → link_at t.body j ≡ some allocated_idx)
      → (t' : Table A) × (take_head t (index i) ≡ some (t', i))
        × IsValid t' fs
        × SameData t t'
        × (t'.table_size ≡ t.table_size)
  unfolding take_head
  take_head-cons t {i} {next} {fs} sized at out c bounded rest =
      let lt : i < length t.body = ground (arith, bounded i) in
      let (e, here) = get_elem?-some t.body i lt in
      let e' : Entry A = record e { free_link = allocated_idx } in
      let links = λ (j : ℕ). link_at-set t.body i j e' lt in
      let head : e.free_link ≡ next = ground arith in
      (
        record t { free_head_idx = e.free_link; body = set t.body i e' },
        rw (here, take_head),
        record {
          sized = length-set t.body i e' ∙ sized;
          chain = rw head (Chain-frame c (λ j h. ground (arith, links j)));
          bounded = λ j h. bounded j (ground arith);
          rest = λ j h o. ground (arith, links j, rest j);
        },
        record {
          entry_size = refl;
          handle_base = refl;
          users = λ j h. ground (arith, user_at-set t.body i j e' lt);
        },
        refl,
      )

  pub Chain-uncons :
      {b : List (Entry A)} {l : Link} {i : ℕ} {fs : List ℕ}
      → Chain b l (i ∷ fs)
      → (next : Link) × (l ≡ index i)
        × (link_at b i ≡ some next)
        × (has i fs ≡ false)
        × Chain b next fs
  Chain-uncons (cons e out c) = (_, refl, e, out, c)

  -- Unlinking the head of the free list.
  pub take_head-IsValid :
      {t : Table A} {i : ℕ} {fs : List ℕ}
      → IsValid t (i ∷ fs)
      → (t' : Table A) × (take_head t t.free_head_idx ≡ some (t', i))
        × IsValid t' fs
        × SameData t t'
        × (t'.table_size ≡ t.table_size)
  take_head-IsValid {t} v =
      let (next, head, at, out, c) = Chain-uncons v.chain in
      let (t', runs, w, same, size) = take_head-cons t v.sized at out c v.bounded v.rest in
      (t', ap (take_head t) head ∙ runs, w, same, size)

  head_nil : {b : List (Entry A)} {l : Link} → Chain b l [] → l ≡ null_idx
  head_nil nil = refl

  -- The entries that can be handed out next: the free ones, or those of an expansion.
  unfoldable pub available : Table A → List ℕ → List ℕ
  available t [] = range_from t.table_size t.table_size
  available t (i ∷ fs) = i ∷ fs

  abbrev pub grown_size : Table A → List ℕ → ℕ
  grown_size t [] = t.table_size + t.table_size
  grown_size t (i ∷ fs) = t.table_size

  pub grow_if_full-IsValid :
      (junk : A) (t : Table A) (fs : List ℕ)
      → 0 < t.table_size
      → Room t fs
      → IsValid t fs
      → (t' : Table A) × (grow_if_full junk t t.free_head_idx ≡ some t')
        × IsValid t' (available t fs)
        × SameData t t'
        × (t'.table_size ≡ grown_size t fs)
  unfolding grow_if_full available
  grow_if_full-IsValid junk t [] h room v =
      let (t', runs, w, same, size) = expand_table-IsValid junk t h room v in
      (t', ap (grow_if_full junk t) (head_nil v.chain) ∙ runs, w, same, size)
  grow_if_full-IsValid junk t (i ∷ fs) h room v =
      let (next, head, at, out, c) = Chain-uncons v.chain in
      (
        t,
        ap (grow_if_full junk t) head,
        v,
        record { entry_size = refl; handle_base = refl; users = λ j lt. refl },
        refl,
      )
