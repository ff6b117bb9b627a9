-- ===== src/Prelude/Search.antt =====
-- Go strings, continued: searching, cutting and counting. A rune is counted at its first byte, which is
-- what counting runes means for text in UTF-8, as JSON yields it.
use Prim.Native.Nat.{ℕ, zero, suc, ◌+◌}
use mathlib.Core.Bool.{Bool, true, false, ◌&&◌, ◌||◌}
use mathlib.Core.Option.{Option, none, some}
use mathlib.Core.List.{[], ◌∷◌, reverse}
use astra_backend.Prelude.Tests.{leb, ltb, ◌==◌, if◌then◌else◌}
use astra_backend.Prelude.Lists.{drop, length}
use astra_backend.Prelude.Strings.{Text}

-- `strings.HasPrefix(s, prefix)`
unfoldable pub has_prefix : Text → Text → Bool
has_prefix s [] = true
has_prefix [] (b ∷ prefix) = false
has_prefix (a ∷ s) (b ∷ prefix) = (a == b) && has_prefix s prefix

-- `strings.TrimPrefix(s, prefix)`
unfoldable pub trim_prefix : Text → Text → Text
unfolding has_prefix
trim_prefix s prefix = if has_prefix s prefix then drop (length prefix) s else s

abbrev pub one_on : Option ℕ → Option ℕ
one_on none = none
one_on (some i) = some (suc i)

-- `strings.Index(s, part)`, with `none` for -1.
unfoldable pub index : Text → Text → Option ℕ
unfolding has_prefix
index [] part = if has_prefix [] part then some 0 else none
index (c ∷ s) part =
    let rest = index s part in if has_prefix (c ∷ s) part then some 0 else one_on rest

-- `strings.LastIndex(s, part)` for a part of one byte.
unfoldable pub last_index : Text → ℕ → Option ℕ
last_index [] b = none
last_index (c ∷ s) b = elim (last_index s b) [
  | some i ↦ some (suc i)
  | none ↦ if c == b then some 0 else none
]

unfoldable pub trim_left_byte : ℕ → Text → Text
trim_left_byte b [] = []
trim_left_byte b (c ∷ s) = let rest = trim_left_byte b s in if c == b then rest else c ∷ s

-- `strings.Trim(s, cutset)` for a cutset of one byte.
unfoldable pub trim_byte : ℕ → Text → Text
unfolding trim_left_byte
trim_byte b s = reverse (trim_left_byte b (reverse (trim_left_byte b s)))

-- A byte that begins a rune.
abbrev pub begins : ℕ → Bool
begins c = ltb c 128 || leb 192 c

-- `len([]rune(s))`
unfoldable pub rune_count : Text → ℕ
rune_count [] = 0
rune_count (c ∷ s) = (if begins c then 1 else 0) + rune_count s

-- `string([]rune(s)[:n])` for a text of at least `n` runes.
unfoldable pub take_runes : ℕ → Text → Text
take_runes n [] = []
take_runes zero (c ∷ s) = if begins c then [] else c ∷ take_runes zero s
take_runes (suc n) (c ∷ s) = c ∷ take_runes (if begins c then n else suc n) s
