-- ===== src/Signals/Format.antt =====
-- FormatTrapCode against the substitution that it makes. doc/TclX.n wants a single % for %%, where
-- the code keeps both characters.
use tclx.Base.{
  ◌≡◌, refl, sym, Option, none, some, [], ◌∷◌, ◌++◌, Text, ◌==◌, if◌then◌else◌, ap, ◌∙◌, Bool-cases,
  inl, inr,
}
use mathlib.Core.List.{append_assoc, append-nil}
use tclx.Signals.{format_loop, format_trap_code}

abbrev behind : Text → Option Text → Option Text
behind p none = none
behind p (some s) = some (p ++ s)

-- The command with `%S` replaced and `%%` left; `none` for any other use of `%`.
unfoldable pub substitute : Text → Text → Option Text
substitute name [] = some []
substitute name (c ∷ []) = if c == b'%' then none else some (c ∷ [])
substitute name (c ∷ d ∷ s) =
    let plain = behind (c ∷ []) (substitute name (d ∷ s)) in
    let percent = behind (c ∷ d ∷ []) (substitute name s) in
    let substituted = behind name (substitute name s) in
    if c == b'%'
    then if d == b'%' then percent else if d == b'S' then substituted else none
    else plain

behind-behind : (p q : Text) (o : Option Text) → behind (p ++ q) o ≡ behind p (behind q o)
behind-behind p q none = refl
behind-behind p q (some s) = ap some (append_assoc p q s)

format_loop-substitute :
    (name command copied s : Text)
    → format_loop name command copied s ≡ behind (command ++ copied) (substitute name s)
unfolding format_loop substitute
format_loop-substitute name command copied [] = ap some (sym (append-nil (command ++ copied)))
format_loop-substitute name command copied (c ∷ []) = elim (Bool-cases (c == b'%')) [
  | inl percent ↦ rw percent
  | inr plain ↦ rw plain (ap some (sym (append_assoc command copied (c ∷ []))))
]
format_loop-substitute name command copied (c ∷ d ∷ s) = elim (Bool-cases (c == b'%')) [
  | inr plain ↦ rw plain (
      format_loop-substitute name command (copied ++ c ∷ []) (d ∷ s)
      ∙ ap (λ p. behind p (substitute name (d ∷ s))) (sym (append_assoc command copied (c ∷ [])))
      ∙ behind-behind (command ++ copied) (c ∷ []) (substitute name (d ∷ s)))
  | inl percent ↦ elim (Bool-cases (d == b'%')) [
    | inl doubled ↦
        rw (percent, doubled)
          (format_loop-substitute name command (copied ++ c ∷ d ∷ []) s
            ∙ ap (λ p. behind p (substitute name s))
                (sym (append_assoc command copied (c ∷ d ∷ [])))
            ∙ behind-behind (command ++ copied) (c ∷ d ∷ []) (substitute name s))
    | inr other ↦ elim (Bool-cases (d == b'S')) [
      | inr bad ↦ rw (percent, other, bad)
      | inl named ↦
          rw (percent, other, named)
            (format_loop-substitute name (command ++ (copied ++ name)) [] s
              ∙ ap (λ p. behind p (substitute name s))
                  (append-nil (command ++ (copied ++ name))
                    ∙ sym (append_assoc command copied name))
              ∙ behind-behind (command ++ copied) name (substitute name s))
    ]
  ]
]

behind-nil : (o : Option Text) → behind [] o ≡ o
behind-nil none = refl
behind-nil (some s) = refl

-- FormatTrapCode writes the command with each %S replaced by the name and each %% kept as it is,
-- and fails on every other use of %.
pub format_trap_code-substitute :
    (name cmd : Text) → format_trap_code name cmd ≡ substitute name cmd
unfolding format_trap_code
format_trap_code-substitute name cmd =
    format_loop-substitute name [] [] cmd ∙ behind-nil (substitute name cmd)
