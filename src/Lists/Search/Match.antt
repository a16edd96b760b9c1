-- ===== src/Lists/Search/Match.antt =====
-- lmatch -exact and lcontain look for the same element.
use tclx.Base.{
  ℕ, suc, ◌≡◌, refl, some, List, [], ◌∷◌, Text, text, text_eq, text_eq→eq, ltb, replicate, inr, inl,
  arith, Bool-cases, ap, if◌then◌else◌,
}
use tclx.Tcl.{ListApi}
use tclx.Interp.{Interp, bool, ok}
use tclx.Lists.Search.{
  MatchApi, exact, match_one, match_loop, match_reply, match_mode, lcontain_loop, lcontain_cmd,
  lmatch_cmd,
}

unfoldable occurrences : Text → List Text → ℕ
occurrences e [] = 0
occurrences e (v ∷ vs) = let rest = occurrences e vs in if text_eq v e then suc rest else rest

match_loop-exact :
    (api : MatchApi) (e : Text) (vs : List Text)
    → match_loop api exact e vs ≡ inr (replicate (occurrences e vs) e)
unfolding match_loop match_one occurrences
match_loop-exact api e [] = refl
match_loop-exact api e (v ∷ vs) = elim (Bool-cases (text_eq v e)) [
  | inl h ↦
      rw (h, match_loop-exact api e vs)
        (ap (λ u. inr (u ∷ replicate (occurrences e vs) e)) (text_eq→eq v e h))
  | inr h ↦ rw (h, match_loop-exact api e vs) refl
]

lcontain_loop-occurrences :
    (e : Text) (vs : List Text) → lcontain_loop e vs ≡ ltb 0 (occurrences e vs)
unfolding lcontain_loop occurrences
lcontain_loop-occurrences e [] = refl
lcontain_loop-occurrences e (v ∷ vs) = elim (Bool-cases (text_eq v e)) [
  | inl h ↦ rw h (ground arith)
  | inr h ↦ rw h (lcontain_loop-occurrences e vs)
]

-- On a list, lmatch -exact returns some number of copies of the element, and lcontain answers
-- whether the number is above 0.
lmatch_cmd-lcontain_cmd :
    (L : ListApi) (api : MatchApi) (list e : Text) (vs : List Text) (s : Interp Text)
    → L.elements list ≡ some vs
    → (n : ℕ) × (lmatch_cmd L api (some (text "-exact")) list e s
        ≡ match_reply (inr (replicate n e)) s)
      × (lcontain_cmd L list e s ≡ ok (bool (ltb 0 n)) s)
unfolding lmatch_cmd match_mode lcontain_cmd
lmatch_cmd-lcontain_cmd L api list e vs s h = (
  occurrences e vs,
  rw h (ap (λ r. match_reply r s) (match_loop-exact api e vs)),
  rw h (ap (λ b. ok (bool b) s) (lcontain_loop-occurrences e vs)),
)
