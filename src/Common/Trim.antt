-- ===== src/Common/Trim.antt =====
-- Trimming twice is trimming once.
use Prim.Native.Char.{code}
use Prim.Native.Nat.{ℕ}
use Prim.Native.String.{String}
use mathlib.Core.Path.{◌≡◌, refl}
use mathlib.Core.Bool.{Bool, false, ◌&&◌}
use mathlib.Core.Logic.{inl, inr}
use yuchen_panel.Common.Tests.{if◌then◌else◌, Bool-cases}
use yuchen_panel.Common.Text.{◌==◌, is_space, trim_left, trim_right, trim_func, trim_space}

module _ (p : ℕ → Bool) where
  -- the text does not start with what is trimmed
  abbrev StartsKept : String → Type 0
  StartsKept String.[] = Unit
  StartsKept (String.◌∷◌ c s) = p (code c) ≡ false

  trim_left-StartsKept : (s : String) → StartsKept (trim_left p s)
  unfolding trim_left
  trim_left-StartsKept String.[] = tt
  trim_left-StartsKept (String.◌∷◌ c s) = elim (Bool-cases (p (code c))) [
    | inl e ↦ rw (e, if◌then◌else◌) (trim_left-StartsKept s)
    | inr e ↦ rw (e, if◌then◌else◌) e
  ]

  trim_left_kept : (s : String) → StartsKept s → trim_left p s ≡ s
  unfolding trim_left
  trim_left_kept String.[] h = refl
  trim_left_kept (String.◌∷◌ c s) h = rw (h, if◌then◌else◌) refl

  trim_right-StartsKept : (s : String) → StartsKept s → StartsKept (trim_right p s)
  unfolding trim_right
  trim_right-StartsKept String.[] h = tt
  trim_right-StartsKept (String.◌∷◌ c s) h =
      elim (Bool-cases (trim_right p s == String.[] && p (code c))) [
        | inl e ↦ rw (e, if◌then◌else◌) tt
        | inr e ↦ rw (e, if◌then◌else◌) h
      ]

  trim_right_idem : (s : String) → trim_right p (trim_right p s) ≡ trim_right p s
  unfolding trim_right
  trim_right_idem String.[] = refl
  trim_right_idem (String.◌∷◌ c s) = elim (Bool-cases (trim_right p s == String.[] && p (code c))) [
    | inl e ↦ rw (e, if◌then◌else◌) refl
    | inr e ↦ rw (e, if◌then◌else◌, trim_right_idem s, e, if◌then◌else◌) refl
  ]

  pub trim_func_idem : (s : String) → trim_func p (trim_func p s) ≡ trim_func p s
  unfolding trim_func
  trim_func_idem s =
      rw
        (
          trim_left_kept (trim_right p (trim_left p s))
              (trim_right-StartsKept (trim_left p s) (trim_left-StartsKept s)),
          trim_right_idem (trim_left p s),
        )
        refl

pub trim_space_idem : (s : String) → trim_space (trim_space s) ≡ trim_space s
unfolding trim_space
trim_space_idem s = trim_func_idem is_space s
