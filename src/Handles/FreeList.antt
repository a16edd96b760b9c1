-- ===== src/Handles/FreeList.antt =====
-- The free list of a handle table: the links from the head run through distinct free entries to
-- NULL_IDX, and every other entry is marked as allocated.
use tclx.Base.{
  ℕ, zero, suc, ◌+◌, ◌≤◌, ◌<◌, ◌≡◌, refl, true, false, ◌&&◌, Option, none, some, List, [], ◌∷◌,
  ◌++◌, ltb, leb, ◌==◌, if◌then◌else◌, length, get_elem?, set, has, arith, get_elem?-set,
  length-set, get_elem?-some,
}
use tclx.Handles.{Link, null_idx, index, Entry, set_link, link_loop}

-- The entries `start`, ..., `start + n - 1`.
abbrev pub range_from : ℕ → ℕ → List ℕ
range_from start zero = []
range_from start (suc n) = start ∷ range_from (suc start) n

module _ {A : Type 0} where
  abbrev pub link_of : Option (Entry A) → Option Link
  link_of none = none
  link_of (some e) = some e.free_link

  abbrev pub user_of : Option (Entry A) → Option A
  user_of none = none
  user_of (some e) = some e.user

  abbrev pub link_at : List (Entry A) → ℕ → Option Link
  link_at b i = link_of (get_elem? b i)

  abbrev pub user_at : List (Entry A) → ℕ → Option A
  user_at b i = user_of (get_elem? b i)

  pub data Chain (b : List (Entry A)) : Link → List ℕ → Type 0 where
    nil : Chain b null_idx []
    cons :
        {i : ℕ} {l : Link} {fs : List ℕ}
        → link_at b i ≡ some l
        → has i fs ≡ false
        → Chain b l fs
        → Chain b (index i) (i ∷ fs)

  -- A chain survives writes that spare its own links.
  pub Chain-frame :
      {b b' : List (Entry A)} {l : Link} {fs : List ℕ}
      → Chain b l fs
      → ((j : ℕ) → has j fs ≡ true → link_at b' j ≡ link_at b j)
      → Chain b' l fs
  Chain-frame nil same = nil
  Chain-frame (cons {i} e out c) same =
      cons (ground (arith, same i)) out (Chain-frame c (λ j h. same j (ground arith)))

  pub link_at-set :
      (b : List (Entry A)) (i j : ℕ) (e : Entry A)
      → i < length b
      → link_at (set b i e) j ≡ (if i == j then some e.free_link else link_at b j)
  link_at-set b i j e h = ground (arith, get_elem?-set b i j e)

  pub user_at-set :
      (b : List (Entry A)) (i j : ℕ) (e : Entry A)
      → i < length b
      → user_at (set b i e) j ≡ (if i == j then some e.user else user_at b j)
  user_at-set b i j e h = ground (arith, get_elem?-set b i j e)

  -- what a write of one link does
  pub record LinkSet (b : List (Entry A)) (i : ℕ) (l : Link) (b' : List (Entry A)) : Type 0 where
    pub runs : set_link b i l ≡ some b'
    pub same_length : length b' ≡ length b
    pub links : (j : ℕ) → link_at b' j ≡ (if i == j then some l else link_at b j)
    pub users : (j : ℕ) → user_at b' j ≡ user_at b j

  pub set_link-LinkSet :
      (b : List (Entry A)) (i : ℕ) (l : Link)
      → i < length b
      → (b' : List (Entry A)) × LinkSet b i l b'
  unfolding set_link
  set_link-LinkSet b i l h =
      let (e, at) = get_elem?-some b i h in
      let e' : Entry A = record e { free_link = l } in
      (
        set b i e',
        record {
          runs = rw (at, set_link);
          same_length = length-set b i e';
          links = λ j. link_at-set b i j e' h;
          users = λ j. ground (arith, user_at-set b i j e' h, at);
        },
      )

  -- what the loop over new entries does
  pub record Linked (b : List (Entry A)) (i n : ℕ) (b' : List (Entry A)) : Type 0 where
    pub runs : link_loop n i b ≡ some b'
    pub same_length : length b' ≡ length b
    pub links :
        (j : ℕ)
        → link_at b' j ≡ (if leb i j && ltb j (i + n) then some (index (suc j)) else link_at b j)
    pub users : (j : ℕ) → user_at b' j ≡ user_at b j

  pub link_loop-Linked :
      (n i : ℕ) (b : List (Entry A)) → i + n ≤ length b → (b' : List (Entry A)) × Linked b i n b'
  unfolding link_loop
  link_loop-Linked zero i b h =
      (b, record { runs = refl; same_length = refl; links = λ j. ground arith; users = λ j. refl })
  link_loop-Linked (suc n) i b h =
      let (b₁, w) = set_link-LinkSet b i (index (suc i)) (omega arith) in
      let (b₂, r) = link_loop-Linked n (suc i) b₁ (omega (arith, w.same_length)) in
      (
        b₂,
        record {
          runs = rw w.runs r.runs;
          same_length = omega (arith, r.same_length, w.same_length);
          links = λ j. ground (arith, r.links j, w.links j);
          users = λ j. ground (arith, r.users j, w.users j);
        },
      )

  -- New entries linked in order come in front of the chain of their last link.
  pub Chain-range :
      (n start : ℕ) {b : List (Entry A)} {l : Link} {fs : List ℕ}
      → ((j : ℕ) → start ≤ j → j < start + n → link_at b j ≡ some (index (suc j)))
      → link_at b (start + n) ≡ some l
      → ((j : ℕ) → start ≤ j → has j fs ≡ false)
      → Chain b l fs
      → Chain b (index start) (range_from start (suc n) ++ fs)
  Chain-range zero start {b} inner last above c = cons (ground arith) (above start (omega arith)) c
  Chain-range (suc n) start {fs} inner last above c =
      cons (inner start (omega arith) (omega arith))
        (range_fresh (suc n) (suc start) start fs (omega arith) (above start (omega arith)))
        (Chain-range n (suc start) (λ j lo hi. inner j (omega arith) (omega arith)) (ground arith)
          (λ j lo. above j (omega arith)) c)
    where
      range_fresh :
          (n lo j : ℕ) (fs : List ℕ)
          → j < lo
          → has j fs ≡ false
          → has j (range_from lo n ++ fs) ≡ false
      range_fresh zero lo j fs h out = out
      range_fresh (suc n) lo j fs h out = ground (arith, range_fresh n (suc lo) j fs)
