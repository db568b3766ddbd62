-- ===== src/Upgrades/Words.antt =====
-- Reading the literals back, as Bash does.
use Prim.Native.Char.{Char, code}
use yuchen_panel.Common.{
  ℕ, suc, String, false, ◌≡◌, ◌≢◌, sym, arith, refl, ◌∙◌, List, [], ◌∷◌, map, any, All, Option,
  none, some, eqb, if◌then◌else◌, Outcome, ok, err, inl, inr, Bool-cases,
}
use yuchen_panel.Places.{true_is_not_false}
use yuchen_panel.Upgrades.Shell.{
  has_forbidden, quoted_rest, shell_escape, shell_escape_values, escape_from, cons_escaped,
}

-- where the reader of a Bash word stands: outside of quotes, in a quoted part, or after a backslash
pub data Reading : Type 0 where
  outside : Reading
  quoted : Reading
  escaped : Reading

abbrev put_char : Char → Option String → Option String
put_char c none = none
put_char c (some s) = some (String.◌∷◌ c s)

-- the text that a Bash word of quoted parts and of escaped characters stands for; what Bash would
-- split or expand, and a quote that is not closed, is `none`
unfoldable pub bash_word : Reading → String → Option String
bash_word outside String.[] = some String.[]
bash_word quoted String.[] = none
bash_word escaped String.[] = none
bash_word outside (String.◌∷◌ c s) =
    let in_quotes = bash_word quoted s in
    let after_backslash = bash_word escaped s in
    if eqb (code c) 39 then in_quotes else if eqb (code c) 92 then after_backslash else none
bash_word quoted (String.◌∷◌ c s) =
    let closed = bash_word outside s in
    let rest = bash_word quoted s in if eqb (code c) 39 then closed else put_char c rest
bash_word escaped (String.◌∷◌ c s) = put_char c (bash_word outside s)

-- the rest of a literal reads as the text
bash_word-quoted_rest : (s : String) → bash_word quoted (quoted_rest s) ≡ some s
unfolding bash_word quoted_rest
bash_word-quoted_rest String.[] = refl
bash_word-quoted_rest (String.◌∷◌ c s) = elim (Bool-cases (eqb (code c) 39)) [
  | inl quote ↦ rw (quote, if◌then◌else◌, quote, bash_word-quoted_rest s) refl
  | inr plain ↦ rw (plain, if◌then◌else◌, plain, bash_word-quoted_rest s) refl
]

-- a text without a newline, a carriage return and a NUL
abbrev pub IsOneLine : String → Type 0
IsOneLine String.[] = Unit
IsOneLine (String.◌∷◌ c s) = (code c ≢ 10) × (code c ≢ 13) × (code c ≢ 0) × IsOneLine s

allowed-IsOneLine : (s : String) → has_forbidden s ≡ false → IsOneLine s
unfolding has_forbidden
allowed-IsOneLine String.[] h = tt
allowed-IsOneLine (String.◌∷◌ c s) h =
    (λ e. ground arith, λ e. ground arith, λ e. ground arith, allowed-IsOneLine s (ground arith))

IsOneLine-allowed : (s : String) → IsOneLine s → has_forbidden s ≡ false
unfolding has_forbidden
IsOneLine-allowed String.[] h = refl
IsOneLine-allowed (String.◌∷◌ c s) (no_newline, no_return, no_null, rest) =
    let allowed = IsOneLine-allowed s rest in ground arith

pub All-allowed-IsOneLine :
    (values : List String) → any has_forbidden values ≡ false → All IsOneLine values
unfolding any
All-allowed-IsOneLine [] h = tt
All-allowed-IsOneLine (v ∷ values) h =
    (allowed-IsOneLine v (ground arith), All-allowed-IsOneLine values (ground arith))

-- What the literals of some texts are to be: Bash reads the texts back from them, and each is one
-- line; an error means that one is not.
abbrev pub Quotes : List String → Outcome (List String) → Type 0
Quotes values (ok words) = (map (bash_word outside) words ≡ map some values) × All IsOneLine values
Quotes values (err e) = ¬ All IsOneLine values

-- one more text in front of them
cons-Quotes :
    (i : ℕ) (v : String) (values : List String) (rest : Outcome (List String))
    → Quotes values rest
    → Quotes (v ∷ values) (cons_escaped i (shell_escape v) rest)
unfolding shell_escape bash_word
cons-Quotes i v values (ok words) (read, all_plain) = elim (Bool-cases (has_forbidden v)) [
  | inl bad ↦
      rw (bad, if◌then◌else◌)
        (λ all. absurd (true_is_not_false (sym bad ∙ IsOneLine-allowed v all.0)))
  | inr plain ↦
      rw (plain, if◌then◌else◌, bash_word-quoted_rest v, read)
        (refl, (allowed-IsOneLine v plain, all_plain))
]
cons-Quotes i v values (err e) later = elim (Bool-cases (has_forbidden v)) [
  | inl bad ↦ rw (bad, if◌then◌else◌) (λ all. later all.1)
  | inr plain ↦ rw (plain, if◌then◌else◌) (λ all. later all.1)
]

escape_from-Quotes : (i : ℕ) (values : List String) → Quotes values (escape_from i values)
unfolding escape_from
escape_from-Quotes i [] = (refl, tt)
escape_from-Quotes i (v ∷ values) =
    cons-Quotes i v values (escape_from (suc i) values) (escape_from-Quotes (suc i) values)

-- Bash reads every escaped value back as it was, whatever quotes and other characters it has; the
-- values are refused as a whole exactly when one of them has a newline, a carriage return or a NUL.
pub shell_escape_values-Quotes : (values : List String) → Quotes values (shell_escape_values values)
unfolding shell_escape_values
shell_escape_values-Quotes values = escape_from-Quotes 0 values
