-- ===== src/Base/Members.antt =====
-- Membership of a text in a list of texts, as the test finds it.
use Prim.Native.String.{String}
use mathlib.Core.Path.{◌≡◌}
use mathlib.Core.Logic.{inl, inr}
use mathlib.Core.Bool.{true}
use mathlib.Core.List.{List, [], ◌∷◌}
use native.Mathlib.Omega.{arith}
use text.Mathlib.Text.{◌==◌}
use text.Mathlib.TextEquality.{eq_iff}
use package.lmml.Base.Tests.{Bool-cases}
use package.lmml.Base.Lists.{In, here, there}
use package.lmml.Base.Text.{mem_text}

pub mem_text_member : (s : String) (ts : List String) → mem_text s ts ≡ true → In s ts
mem_text_member s [] h = cc
mem_text_member s (t ∷ ts) h = elim (Bool-cases (s == t)) [
  | inl e ↦ here ((eq_iff s t).0 e)
  | inr e ↦ there (mem_text_member s ts (ground arith))
]

pub member_mem_text : (s : String) (ts : List String) → In s ts → mem_text s ts ≡ true
member_mem_text s [] i = elim i [ ]
member_mem_text s (t ∷ ts) (here e) = ground (arith, eq_iff s t)
member_mem_text s (t ∷ ts) (there i) = ground (arith, member_mem_text s ts i)
