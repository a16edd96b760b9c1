-- ===== src/Bsearch/Loop.antt =====
-- BinSearch ends, and the line that it finds is a line of the file with the key.
use tclx.Base.{
  ℕ, zero, suc, ◌+◌, ◌-◌, ◌/◌, ◌≤◌, ◌<◌, ◌≡◌, refl, ◌⊎◌, inl, inr, Option, none, some, Text, leb,
  ◌==◌, length, drop, arith, Bool-cases, Option-cases, ap, ◌∙◌, subst,
}
use tclx.Bsearch.{
  Cmp, below, equal, above, gets, Search, Read, next_line, is_last, read_line, read_next,
  read_and_compare, Found, found, failure, read_error, out_of_fuel, unexpected_eof, compare_error,
  done, close_window, search_next, search_loop, bin_search, start_search,
}

abbrev pub Ends : Found → Type 0
Ends r = ((line : Text) × (r ≡ found line)) ⊎ ((r ≡ failure) ⊎ (r ≡ read_error))

module _ (compare : Text → Option Cmp) where
  -- One turn of the loop, when every smaller window ends.
  close_window-Ends :
      (low middle high : ℕ) (cb : Search) (c : Cmp) (rest : ℕ → ℕ → Search → Found)
      → low ≤ middle
      → middle ≤ high
      → ((l h : ℕ) (cb' : Search) → l ≤ h → h + low < high + l → Ends (rest l h cb'))
      → Ends (close_window compare low middle high cb c rest)
  close_window-Ends low middle high cb equal rest le le' ends = inl (cb.line_buf, refl)
  close_window-Ends low middle high cb above rest le le' ends = elim (Bool-cases (leb middle low)) [
    | inl h ↦ rw h (inr (inl refl))
    | inr h ↦ rw h (ends middle high cb le' (ground arith))
  ]
  close_window-Ends low middle high cb below rest le le' ends = elim (Bool-cases (leb middle low)) [
    | inl h ↦ rw h (inr (inl refl))
    | inr h ↦ rw h (ends low (middle - 1) cb (ground arith) (ground arith))
  ]

  search_next-Ends :
      (low middle high : ℕ) (r : Read) (rest : ℕ → ℕ → Search → Found)
      → low ≤ middle
      → middle ≤ high
      → ((l h : ℕ) (cb' : Search) → l ≤ h → h + low < high + l → Ends (rest l h cb'))
      → Ends (search_next compare low middle high r rest)
  search_next-Ends low middle high unexpected_eof rest le le' ends = inr (inr refl)
  search_next-Ends low middle high compare_error rest le le' ends = inr (inr refl)
  search_next-Ends low middle high (done cb) rest le le' ends =
      close_window-Ends low middle high cb cb.cmp_result rest le le' ends

  search_loop-Ends :
      (file : Text) (f low high : ℕ) (cb : Search)
      → low ≤ high
      → high < f + low
      → Ends (search_loop compare file f low high cb)
  unfolding search_loop
  search_loop-Ends file zero low high cb le fuel = absurd (omega arith)
  search_loop-Ends file (suc f) low high cb le fuel =
      search_next-Ends low ((high + low + 1) / 2) high
        (read_and_compare compare file ((high + low + 1) / 2) cb) (search_loop compare file f)
        (omega arith) (omega arith)
        (λ l h cb' le' less. search_loop-Ends file f l h cb' le' (omega arith))

  -- BinSearch, on fuel one above the size of the file, ends for every file and every comparison
  -- with a line, with a failure or with an error of reading or comparing.
  pub bin_search-Ends : (file : Text) → Ends (bin_search compare file)
  unfolding bin_search
  bin_search-Ends file =
      search_loop-Ends file (suc (length file)) 0 (length file) start_search (omega arith)
        (omega arith)

  -- The start of the file, or of what is behind a line that is read from somewhere on.
  abbrev IsLineStart : Text → Text → Type 0
  IsLineStart file r =
      (r ≡ file) ⊎ ((offset : ℕ) × (skipped : Text) × (gets (drop offset file) ≡ some (skipped, r)))

  -- A line of the file that compares equal.
  pub record IsMatch (file line : Text) : Type 0 where
    pub start : Text
    pub rest : Text
    pub starts : IsLineStart file start
    pub reads : gets start ≡ some (line, rest)
    pub compares : compare line ≡ some equal

  abbrev pub Matches : Text → Found → Type 0
  Matches file (found line) = IsMatch file line
  Matches file failure = Unit {0}
  Matches file read_error = Unit {0}
  Matches file out_of_fuel = Unit {0}

  abbrev GoodRead : Text → Read → Type 0
  GoodRead file (done cb) = cb.cmp_result ≡ equal → IsMatch file cb.line_buf
  GoodRead file unexpected_eof = Unit {0}
  GoodRead file compare_error = Unit {0}

  read_line-GoodRead :
      (file start : Text) (at : ℕ)
      → IsLineStart file start
      → GoodRead file (read_line compare at (gets start))
  read_line-GoodRead file start at s = elim (Option-cases (gets start)) [
    | inl e ↦ rw e (λ h. absurd (ground arith))
    | inr ((line, rest), e) ↦ elim (Option-cases (compare line)) [
      | inl e' ↦ rw (e, e') tt
      | inr (c, e') ↦
          rw (e, e')
            (λ h. record {
              start = start;
              rest = rest;
              starts = s;
              reads = e;
              compares = e' ∙ ap some h;
            })
    ]
  ]

  read_next-GoodRead :
      (file : Text) (cb : Search) (o : Option (Text × Text))
      → ¬ (cb.cmp_result ≡ equal)
      → ((skipped start : Text) → o ≡ some (skipped, start) → IsLineStart file start)
      → GoodRead file (read_next compare file cb o)
  read_next-GoodRead file cb none other starts = tt
  read_next-GoodRead file cb (some (skipped, start)) other starts =
      elim (Bool-cases (is_last cb.last_rec_offset (length file - length start))) [
        | inl h ↦ rw h (λ e. absurd (other e))
        | inr h ↦
            rw h (
              read_line-GoodRead file start (length file - length start)
                (starts skipped start refl))
      ]

  abbrev StartsLine : Text → Option (Text × Text) → Type 0
  StartsLine file none = Unit {0}
  StartsLine file (some r) = IsLineStart file r.1

  next_line-StartsLine : (file : Text) (offset : ℕ) → StartsLine file (next_line file offset)
  unfolding next_line
  next_line-StartsLine file offset = elim (Bool-cases (offset == 0)) [
    | inl h ↦ rw h (inl refl)
    | inr h ↦ elim (Option-cases (gets (drop offset file))) [
      | inl e ↦ rw (h, e) tt
      | inr ((skipped, start), e) ↦ rw (h, e) (inr (offset, skipped, e))
    ]
  ]

  read_and_compare-GoodRead :
      (file : Text) (offset : ℕ) (cb : Search)
      → ¬ (cb.cmp_result ≡ equal)
      → GoodRead file (read_and_compare compare file offset cb)
  unfolding read_and_compare
  read_and_compare-GoodRead file offset cb other =
      read_next-GoodRead file cb (next_line file offset) other
        (λ skipped start e. subst (StartsLine file) e (next_line-StartsLine file offset))

  close_window-Matches :
      (file : Text) (low middle high : ℕ) (cb : Search) (c : Cmp)
      → (rest : ℕ → ℕ → Search → Found) → cb.cmp_result ≡ c
      → (c ≡ equal → IsMatch file cb.line_buf)
      → ((l h : ℕ) → ¬ (cb.cmp_result ≡ equal) → Matches file (rest l h cb))
      → Matches file (close_window compare low middle high cb c rest)
  close_window-Matches file low middle high cb equal rest e good later = good refl
  close_window-Matches file low middle high cb above rest e good later =
      elim (Bool-cases (leb middle low)) [
        | inl h ↦ rw h tt
        | inr h ↦ rw h (later middle high (λ e'. ground (arith, e, e')))
      ]
  close_window-Matches file low middle high cb below rest e good later =
      elim (Bool-cases (leb middle low)) [
        | inl h ↦ rw h tt
        | inr h ↦ rw h (later low (middle - 1) (λ e'. ground (arith, e, e')))
      ]

  search_next-Matches :
      (file : Text) (low middle high : ℕ) (r : Read) (rest : ℕ → ℕ → Search → Found)
      → GoodRead file r
      → ((l h : ℕ) (cb : Search) → ¬ (cb.cmp_result ≡ equal) → Matches file (rest l h cb))
      → Matches file (search_next compare low middle high r rest)
  search_next-Matches file low middle high unexpected_eof rest good later = tt
  search_next-Matches file low middle high compare_error rest good later = tt
  search_next-Matches file low middle high (done cb) rest good later =
      close_window-Matches file low middle high cb cb.cmp_result rest refl good
        (λ l h other. later l h cb other)

  search_loop-Matches :
      (file : Text) (f low high : ℕ) (cb : Search)
      → ¬ (cb.cmp_result ≡ equal)
      → Matches file (search_loop compare file f low high cb)
  unfolding search_loop
  search_loop-Matches file zero low high cb other = tt
  search_loop-Matches file (suc f) low high cb other =
      search_next-Matches file low ((high + low + 1) / 2) high
        (read_and_compare compare file ((high + low + 1) / 2) cb) (search_loop compare file f)
        (read_and_compare-GoodRead file ((high + low + 1) / 2) cb other)
        (λ l h cb' other'. search_loop-Matches file f l h cb' other')

  -- A line that BinSearch finds, in any file and with any comparison, is read from the start of
  -- the file or from what is behind a line, and compares equal to the key.
  pub bin_search-Matches : (file : Text) → Matches file (bin_search compare file)
  unfolding bin_search
  bin_search-Matches file =
      search_loop-Matches file (suc (length file)) 0 (length file) start_search
        (λ e. ground (arith, e))
