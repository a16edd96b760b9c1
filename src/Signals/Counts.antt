-- ===== src/Signals/Counts.antt =====
-- The total of the counters of a range of signals, and what a write does to it.
use tclx.Base.{
  ℕ, zero, suc, ◌+◌, ◌≤◌, ◌<◌, ◌≡◌, refl, ◌==◌, arith, Bool-cases, inl, inr, ==→eq, List, [], ◌∷◌,
  length, ◌%◌, ◌^◌,
}
use tclx.Signals.{Signals, update, signal_trap, arrive_all}

-- The counters of the `left` signals from `n` on.
unfoldable pub sum_from : ℕ → ℕ → (ℕ → ℕ) → ℕ
sum_from zero n f = 0
sum_from (suc left) n f = f n + sum_from left (suc n) f

update_other : (f : ℕ → ℕ) (n v i : ℕ) → n < i → update f n v i ≡ f i
update_other f n v i h = ground arith

sum_from-update_below :
    (left m n : ℕ) (f : ℕ → ℕ) (v : ℕ) → n < m → sum_from left m (update f n v) ≡ sum_from left m f
unfolding sum_from
sum_from-update_below zero m n f v h = refl
sum_from-update_below (suc left) m n f v h =
    omega (arith, update_other f n v m h, sum_from-update_below left (suc m) n f v (omega arith))

-- A write in the range replaces its own counter in the total.
pub sum_from-update :
    (left m n : ℕ) (f : ℕ → ℕ) (v : ℕ)
    → m ≤ n
    → n < m + left
    → sum_from left m (update f n v) + f n ≡ sum_from left m f + v
unfolding sum_from
sum_from-update zero m n f v low high = absurd (omega arith)
sum_from-update (suc left) m n f v low high = elim (Bool-cases (n == m)) [
  | inl same ↦
      let e = ==→eq n m same in
      let below = sum_from-update_below left (suc m) n f v (omega arith) in ground (arith, below, e)
  | inr other ↦
      let tail = sum_from-update left (suc m) n f v (ground arith) (omega arith) in
      ground (arith, tail)
]

sum_from-update_le :
    (left m n : ℕ) (f : ℕ → ℕ) (v : ℕ)
    → v ≤ f n + 1
    → sum_from left m (update f n v) ≤ sum_from left m f + 1
unfolding sum_from
sum_from-update_le zero m n f v h = omega arith
sum_from-update_le (suc left) m n f v h = elim (Bool-cases (n == m)) [
  | inl same ↦
      let e = ==→eq n m same in
      let below = sum_from-update_below left (suc m) n f v (omega arith) in ground (arith, below, e)
  | inr other ↦ let tail = sum_from-update_le left (suc m) n f v h in ground (arith, tail)
]

abbrev pub pending : ℕ → Signals → ℕ
pending left s = sum_from left 1 s.received

wrap_le : (a : ℕ) → a % 2 ^ 32 ≤ a
wrap_le a = omega arith

pub pending-signal_trap :
    (left n : ℕ) (s : Signals) → pending left (signal_trap n s) ≤ pending left s + 1
unfolding signal_trap
pending-signal_trap left n s = elim (Bool-cases s.has_handler) [
  | inl h ↦ rw h (
      sum_from-update_le left 1 n s.received ((s.received n + 1) % 2 ^ 32)
        (wrap_le (s.received n + 1)))
  | inr h ↦ rw h (omega arith)
]

pub pending-arrive_all :
    (left : ℕ) (ns : List ℕ) (s : Signals)
    → pending left (arrive_all ns s) ≤ pending left s + length ns
unfolding arrive_all
pending-arrive_all left [] s = omega arith
pending-arrive_all left (n ∷ ns) s =
    omega (arith, pending-signal_trap left n s, pending-arrive_all left ns (signal_trap n s))
