-- ===== src/Filescan/Registered.antt =====
-- The close handlers of copy files: each context that copies to a channel has one on it, and no
-- other stands.
pub mod Keep
pub mod Reach
use tclx.Base.{
  ℕ, zero, suc, ◌+◌, ◌-◌, ◌≤◌, ◌<◌, ◌≡◌, ◌≢◌, refl, sym, ap, ◌∙◌, Bool, true, false, ◌&&◌, Option,
  none, some, List, [], ◌∷◌, ◌++◌, Text, text, text_eq, ◌==◌, leb, ltb, ==_refl, if◌then◌else◌,
  arith, Bool-cases, Option-cases, inl, inr,
}
use tclx.Filescan.{Context, Match, Handler, copy_file_close, scan_file_close, World, ScanApi}
use tclx.Filescan.Contexts.{
  change, create_handler, delete_handler, drop_copy, remove_handler, same_handler, run_handler,
  close_handlers, close_channel, clear_copy_file, clean_up_context, context_create, context_delete,
  delete_context,
}
use tclx.Filescan.Commands.{set_copy_channel}

abbrev pub is_chan : ℕ → Option ℕ → Bool
is_chan c none = false
is_chan c (some d) = d == c

abbrev pub copies : ℕ → Option Context → Bool
copies c none = false
copies c (some ctx) = is_chan c ctx.copy_file

-- How many handlers of the channel are the copy file's of the context at `a`.
abbrev pub count : ℕ → ℕ → List (ℕ × Handler) → ℕ
count c a [] = 0
count c a ((d, h) ∷ hs) =
    if d == c && same_handler h (copy_file_close a) then suc (count c a hs) else count c a hs

counted_hit :
    (x y : Bool) (n : ℕ)
    → x ≡ y
    → n ≡ (if y then (if x then suc n else n) - 1 else (if x then suc n else n))
counted_hit true true n e = omega arith
counted_hit true false n e = cc
counted_hit false true n e = cc
counted_hit false false n e = refl

counted_miss :
    (x y : Bool) (n m : ℕ)
    → x && y ≡ false
    → m ≡ (if y then n - 1 else n)
    → (if x then suc m else m)
      ≡ (if y then (if x then suc n else n) - 1 else (if x then suc n else n))
counted_miss true true n m e h = cc
counted_miss true false n m e h = ap suc h
counted_miss false true n m e h = h
counted_miss false false n m e h = h

count-remove_copy :
    (c a d b : ℕ) (hs : List (ℕ × Handler))
    → count c a (remove_handler d (copy_file_close b) hs)
      ≡ (if d == c && b == a then count c a hs - 1 else count c a hs)
unfolding remove_handler
count-remove_copy c a d b [] = ground arith
count-remove_copy c a d b ((e, scan_file_close b') ∷ hs) =
    ground (arith, count-remove_copy c a d b hs)
count-remove_copy c a d b ((e, copy_file_close b') ∷ hs) = elim (Bool-cases (e == d && b' == b)) [
  | inl hit ↦
      rw hit (counted_hit (e == c && b' == a) (d == c && b == a) (count c a hs) (ground arith))
  | inr miss ↦ rw miss (
      counted_miss (e == c && b' == a) (d == c && b == a) (count c a hs)
        (count c a (remove_handler d (copy_file_close b) hs)) (ground arith)
        (count-remove_copy c a d b hs))
]

module _ {I : Type 0} where
  -- No address is used before its context is made.
  pub record IsRegistered (w : World I) : Type 0 where
    pub registered : (c a : ℕ) → count c a w.handlers ≡ (if copies c (w.heap a) then 1 else 0)
    pub unused : (a : ℕ) → w.next_address ≤ a → w.heap a ≡ none

  pub close_handlers-count :
      (chan : ℕ) (hs : List (ℕ × Handler)) (w : World I) (c a : ℕ)
      → count c a (close_handlers chan hs w).handlers ≡ (if c == chan then 0 else count c a hs)
  unfolding close_handlers
  close_handlers-count chan [] w c a = ground arith
  close_handlers-count chan ((d, copy_file_close b) ∷ hs) w c a =
      ground (arith, close_handlers-count chan hs w c a)
  close_handlers-count chan ((d, scan_file_close b) ∷ hs) w c a =
      ground (arith, close_handlers-count chan hs w c a)

  pub close_handlers-copies :
      (chan : ℕ) (hs : List (ℕ × Handler)) (w : World I) (c a : ℕ)
      → copies c ((close_handlers chan hs w).heap a)
        ≡ (if count chan a hs == 0 then copies c (w.heap a) else false)
  unfolding close_handlers
  close_handlers-copies chan [] w c a = ground arith
  close_handlers-copies chan ((d, copy_file_close b) ∷ hs) w c a =
      ground (arith, close_handlers-copies chan hs w c a)
  close_handlers-copies chan ((d, scan_file_close b) ∷ hs) w c a =
      ground (arith, close_handlers-copies chan hs w c a)

  abbrev pub with_copy : ℕ → ℕ → Option ℕ → World I → World I
  with_copy address chan old w =
      change address (λ ctx. record ctx { copy_file = some chan })
        (create_handler chan (copy_file_close address) (drop_copy address old w))

  abbrev pub without_copy : ℕ → ℕ → World I → World I
  without_copy address d w =
      change address (λ ctx. record ctx { copy_file = none })
        (delete_handler d (copy_file_close address) w)

  -- The two writes to the copy file of a context, at one channel and address.
  module _ {w : World I} (v : IsRegistered w) {address : ℕ} {ctx : Context}
      (at : w.heap address ≡ some ctx) where
    pub with_copy-registered :
        (chan : ℕ) (old : Option ℕ)
        → ctx.copy_file ≡ old
        → (c a : ℕ)
        → count c a (with_copy address chan old w).handlers
          ≡ (if copies c ((with_copy address chan old w).heap a) then 1 else 0)
    with_copy-registered chan none e c a = elim (Bool-cases (a == address)) [
      | inl here ↦ rw here (ground (arith, v.registered c a))
      | inr there ↦ rw there (ground (arith, v.registered c a))
    ]
    with_copy-registered chan (some d) e c a = elim (Bool-cases (a == address)) [
      | inl here ↦
          rw here (ground (arith, v.registered c a, count-remove_copy c a d address w.handlers))
      | inr there ↦
          rw there (ground (arith, v.registered c a, count-remove_copy c a d address w.handlers))
    ]

    pub without_copy-registered :
        (d : ℕ)
        → ctx.copy_file ≡ some d
        → (c a : ℕ)
        → count c a (without_copy address d w).handlers
          ≡ (if copies c ((without_copy address d w).heap a) then 1 else 0)
    without_copy-registered d e c a = elim (Bool-cases (a == address)) [
      | inl here ↦
          rw here (ground (arith, v.registered c a, count-remove_copy c a d address w.handlers))
      | inr there ↦
          rw there (ground (arith, v.registered c a, count-remove_copy c a d address w.handlers))
    ]
