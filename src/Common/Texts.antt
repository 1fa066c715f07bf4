-- ===== src/Common/Texts.antt =====
-- Text as the list of its bytes, for the code that walks it.
use Prim.Native.Nat.{ℕ, ◌+◌, ◌-◌}
use Prim.Native.Char.{code}
use Prim.Native.String.{String}
use mathlib.Core.Path.{◌≡◌, refl}
use mathlib.Core.Bool.{Bool, true, false, ◌&&◌}
use mathlib.Core.List.{List, [], ◌∷◌, ◌++◌, map, reverse}
use mathlib.Core.Option.{Option, none, some}
use native.Mathlib.Omega.{arith}
use correctness_bench.Common.Tests.{leb, ◌==◌, if◌then◌else◌}

abbrev pub Bytes : Type 0
Bytes = List ℕ

abbrev pub codes : String → Bytes
codes String.[] = []
codes (String.◌∷◌ c s) = code c ∷ codes s

abbrev pub lower : ℕ → ℕ
lower c = if leb b'A' c && leb c b'Z' then c + 32 else c

abbrev pub upper : ℕ → ℕ
upper c = if leb b'a' c && leb c b'z' then c - 32 else c

abbrev pub to_ascii_lowercase : Bytes → Bytes
to_ascii_lowercase = map lower

abbrev pub to_ascii_uppercase : Bytes → Bytes
to_ascii_uppercase = map upper

abbrev pub bytes_eq : Bytes → Bytes → Bool
bytes_eq [] [] = true
bytes_eq (a ∷ s) (b ∷ t) = (a == b) && bytes_eq s t
bytes_eq _ _ = false

-- `s.strip_prefix(p)`
abbrev pub strip_prefix : Bytes → Bytes → Option Bytes
strip_prefix [] s = some s
strip_prefix (a ∷ p) [] = none
strip_prefix (a ∷ p) (b ∷ s) = if a == b then strip_prefix p s else none

abbrev pub starts_with : Bytes → Bytes → Bool
starts_with p s = elim (strip_prefix p s) [ none ↦ false | some r ↦ true ]

-- `trim_start_matches` of one byte, and `trim_end_matches`
abbrev pub trim_start : ℕ → Bytes → Bytes
trim_start c [] = []
trim_start c (b ∷ s) = if b == c then trim_start c s else b ∷ s

abbrev pub trim_end : ℕ → Bytes → Bytes
trim_end c s = reverse (trim_start c (reverse s))

pub strip_prefix-append : (p s : Bytes) → strip_prefix p (p ++ s) ≡ some s
strip_prefix-append [] s = refl
strip_prefix-append (a ∷ p) s = ground (arith, strip_prefix-append p s)

pub strip_prefix_inv : (p s r : Bytes) → strip_prefix p s ≡ some r → s ≡ p ++ r
strip_prefix_inv [] s r h = ground arith
strip_prefix_inv (a ∷ p) [] r h = ground arith
strip_prefix_inv (a ∷ p) (b ∷ s) r h = ground (arith, strip_prefix_inv p s r)
