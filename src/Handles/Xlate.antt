-- ===== src/Handles/Xlate.antt =====
-- TclX_HandleXlate and TclX_HandleFree at the handles and pointers of a valid table.
use native.Mathlib.Nat.{mul-div_cancel_left, mod-eq-sub-mul-div}
use tclx.Base.{
  ℕ, ◌+◌, ◌-◌, ◌*◌, ◌/◌, ◌%◌, ◌^◌, ◌<◌, ◌≡◌, refl, true, false, not, ◌&&◌, Option, none, some, List,
  [], ◌∷◌, ◌++◌, Text, ltb, leb, ◌==◌, if◌then◌else◌, get_elem?, set, has, arith, length-set,
  get_elem?-none, get_elem?-lt, ap, ◌∙◌,
}
use tclx.Base.Int.{pos}
use tclx.Libc.{decimal, strtoul}
use tclx.Libc.Decimal.{decimal-StartsDigit, skip_space-StartsDigit, strtoul-decimal}
use tclx.Util.{str_to_unsigned, finish_unsigned}
use tclx.Handles.{
  allocated_idx, index, Entry, Table, is_allocated, user_area, handle_free, free_entry, handle_of,
  handle_decode, handle_xlate, xlate_idx, strip_base, to_int, entry_ptr, not_open,
}
use tclx.Handles.FreeList.{cons, Chain-frame, link_at-set, user_at-set}
use tclx.Handles.Valid.{IsValid, SameData}
use tclx.Handles.Alloc.{allocated_at, allocated_at-free}

strip_base-append : (b s : Text) → strip_base b (b ++ s) ≡ some s
unfolding strip_base
strip_base-append [] s = refl
strip_base-append (c ∷ b) s = ground (arith, strip_base-append b s)

str_to_unsigned-decimal : (n : ℕ) → n < 2 ^ 32 → str_to_unsigned (decimal n) ≡ some n
unfolding str_to_unsigned
str_to_unsigned-decimal n h =
    ap (λ s. finish_unsigned (strtoul s))
      (skip_space-StartsDigit (decimal n) (decimal-StartsDigit n))
    ∙ ap finish_unsigned (strtoul-decimal n (omega arith))
    ∙ ap (λ (k : ℕ). some k) (omega arith)

pub offset_facts :
    (e i : ℕ)
    → 0 < e
    → (leb 8 (e * i + 8) ≡ true) × (e * i + 8 - 8 ≡ e * i) × (e * i % e ≡ 0) × (e * i / e ≡ i)
offset_facts e i h =
    let quotient = mul-div_cancel_left i h in
    let rest : e * i % e ≡ 0 =
      mod-eq-sub-mul-div (e * i) e ∙ ap (λ (q : ℕ). e * i - e * q) quotient ∙ omega arith in
    (ground arith, omega arith, rest, quotient)

module _ {A : Type 0} where
  -- The handle that is made for an index below 2 ^ 31 decodes to that index.
  handle_decode-handle_of :
      (t : Table A) (i : ℕ) → i < 2 ^ 31 → handle_decode t (handle_of t i) ≡ some (pos i)
  unfolding handle_decode handle_of
  handle_decode-handle_of t i h =
      let small : ltb i (2 ^ 31) ≡ true = ground arith in
      rw (
        strip_base-append t.handle_base (decimal i),
        str_to_unsigned-decimal i (omega arith),
        to_int,
        small,
      )

  pub handle_xlate-handle_of :
      {t : Table A} {fs : List ℕ} (i : ℕ)
      → IsValid t fs
      → i < 2 ^ 31
      → handle_xlate t (handle_of t i)
        ≡ (if allocated_at t i then entry_ptr (user_area t i) else not_open)
  unfolding handle_xlate xlate_idx
  handle_xlate-handle_of {t} i v h =
      rw (handle_decode-handle_of t i h) (ground (arith, get_elem?-none t.body i, v.sized))

  -- A pointer leads back to its entry.
  pub handle_free-user_area :
      (t : Table A) (i : ℕ)
      → 0 < t.entry_size
      → handle_free t (user_area t i) ≡ free_entry t i (get_elem? t.body i)
  unfolding handle_free user_area
  handle_free-user_area t i h =
      let (above, back, rest, quotient) = offset_facts t.entry_size i h in
      rw (above, back, rest, quotient)

  -- What TclX_HandleFree does at the pointer of an allocated entry.
  pub record Frees (t : Table A) (fs : List ℕ) (i : ℕ) (t' : Table A) : Type 0 where
    pub runs : handle_free t (user_area t i) ≡ some t'
    pub valid : IsValid t' (i ∷ fs)
    pub same : SameData t t'
    pub size : t'.table_size ≡ t.table_size
    pub allocated : (j : ℕ) → allocated_at t' j ≡ (not (j == i) && allocated_at t j)

  is_allocated-some :
      (o : Option (Entry A))
      → is_allocated o ≡ true
      → (e : Entry A) × (o ≡ some e) × (e.free_link ≡ allocated_idx)
  is_allocated-some none h = cc
  is_allocated-some (some e) h = (e, refl, ground arith)

  pub free_entry-some :
      (t : Table A) (i : ℕ) (o : Option (Entry A)) (e : Entry A)
      → o ≡ some e
      → e.free_link ≡ allocated_idx
      → free_entry t i o
        ≡ some (record t {
          body = set t.body i (record e { free_link = t.free_head_idx });
          free_head_idx = index i;
        })
  unfolding free_entry
  free_entry-some t i none e at link = cc
  free_entry-some t i (some e₁) e at link = ground arith

  pub handle_free-Frees :
      {t : Table A} {fs : List ℕ} (i : ℕ)
      → IsValid t fs
      → 0 < t.entry_size
      → allocated_at t i ≡ true
      → (t' : Table A) × Frees t fs i t'
  handle_free-Frees {t} {fs} i v h open_entry =
      let (e, at, link) = is_allocated-some (get_elem? t.body i) open_entry in
      let lt = get_elem?-lt t.body i at in
      let e' : Entry A = record e { free_link = t.free_head_idx } in
      let links = λ (j : ℕ). link_at-set t.body i j e' lt in
      let fresh : has i fs ≡ false = ground (arith, allocated_at-free {t = t} {fs = fs} i v) in
      let t' : Table A = record t { body = set t.body i e'; free_head_idx = index i } in
      let valid : IsValid t' (i ∷ fs) = record {
        sized = length-set t.body i e' ∙ v.sized;
        chain =
            cons (ground (arith, links i)) fresh
              (Chain-frame v.chain (λ j h. ground (arith, links j)));
        bounded = λ j h. ground (arith, v.bounded j, v.sized);
        rest = λ j h o. ground (arith, links j, v.rest j);
      } in
      (
        t',
        record {
          runs = handle_free-user_area t i h ∙ free_entry-some t i (get_elem? t.body i) e at link;
          valid = valid;
          same = record {
            entry_size = refl;
            handle_base = refl;
            users = λ j l. ground (arith, user_at-set t.body i j e' lt);
          };
          size = refl;
          allocated = λ j. ground (
            arith,
            allocated_at-free {t = t} {fs = fs} j v,
            allocated_at-free {t = t'} {fs = i ∷ fs} j valid,
          );
        },
      )
