-- ===== src/Base/Texts.antt =====
-- Texts as lists of code points.
use Prim.Native.Nat.{ℕ}
use mathlib.Core.Path.{◌≡◌, refl}
use mathlib.Core.Bool.{Bool, true, false, ◌&&◌}
use mathlib.Core.List.{List, [], ◌∷◌}
use native.Mathlib.Omega.{arith}
use stat_tree_server.Base.Tests.{◌==◌, if◌then◌else◌}

abbrev pub Text : Type 0
Text = List ℕ

abbrev pub same_text : Text → Text → Bool
same_text [] [] = true
same_text [] (d ∷ ds) = false
same_text (c ∷ cs) [] = false
same_text (c ∷ cs) (d ∷ ds) = (c == d) && same_text cs ds

pub same_text-path : (s t : Text) → same_text s t ≡ true → s ≡ t
same_text-path [] [] h = refl
same_text-path [] (d ∷ ds) h = absurd (ground arith)
same_text-path (c ∷ cs) [] h = absurd (ground arith)
same_text-path (c ∷ cs) (d ∷ ds) h =
    let e : c ≡ d = ground arith in rw (e, same_text-path cs ds (ground arith)) refl

pub same_text_self : (s : Text) → same_text s s ≡ true
same_text_self [] = refl
same_text_self (c ∷ cs) = ground (arith, same_text_self cs)

-- The text behind a prefix.
abbrev pub trim_prefix : Text → Text → Text → Text
trim_prefix [] whole s = s
trim_prefix (c ∷ cs) whole [] = whole
trim_prefix (c ∷ cs) whole (d ∷ ds) =
    let rest = trim_prefix cs whole ds in if c == d then rest else whole
