-- ===== src/Upgrades/Shell.antt =====
-- Bash literals (backend/internal/api/updates.go, `shellEscape` and `shellEscapeValues`).
use Prim.Native.Char.{code}
use yuchen_panel.Common.{
  ℕ, suc, String, Bool, false, ◌||◌, List, [], ◌∷◌, pos, append, itoa, eqb, if◌then◌else◌, Outcome,
  ok, err,
}

-- strings.ContainsAny(s, "\n\r\x00")
unfoldable pub has_forbidden : String → Bool
has_forbidden String.[] = false
has_forbidden (String.◌∷◌ c s) =
    eqb (code c) 10 || eqb (code c) 13 || eqb (code c) 0 || has_forbidden s

-- the text with every quote c as c\cc (strings.ReplaceAll), and the closing quote
unfoldable pub quoted_rest : String → String
quoted_rest String.[] = "'"
quoted_rest (String.◌∷◌ c s) =
    let rest = quoted_rest s in
    if eqb (code c) 39
    then String.◌∷◌ c (String.◌∷◌ "\\" (String.◌∷◌ c (String.◌∷◌ c rest)))
    else String.◌∷◌ c rest

unfoldable pub shell_escape : String → Outcome String
unfolding has_forbidden quoted_rest
shell_escape s =
    if has_forbidden s
    then err "shell literal contains a forbidden control character"
    else ok (String.◌∷◌ "'" (quoted_rest s))

abbrev pub field_error : ℕ → String → String
field_error i e = append "unsafe manifest field " (append (itoa (pos i)) (append ": " e))

abbrev pub cons_escaped : ℕ → Outcome String → Outcome (List String) → Outcome (List String)
cons_escaped i (err e) rest = err (field_error i e)
cons_escaped i (ok v) (err e) = err e
cons_escaped i (ok v) (ok vs) = ok (v ∷ vs)

-- from the field `i` on
unfoldable pub escape_from : ℕ → List String → Outcome (List String)
unfolding shell_escape
escape_from i [] = ok []
escape_from i (v ∷ vs) = cons_escaped i (shell_escape v) (escape_from (suc i) vs)

unfoldable pub shell_escape_values : List String → Outcome (List String)
unfolding escape_from
shell_escape_values values = escape_from 0 values
