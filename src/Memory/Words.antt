-- ===== src/Memory/Words.antt =====
-- internal/service/memory.go, the pure helpers: normalizeKey, looksLikePII, clampSalience,
-- validMemoryKind, firstNonEmpty, truncateForExtract. The regular expressions are read on ASCII.
use astra_backend.Prelude.{
  ℕ, Bool, true, false, not, ◌&&◌, ◌||◌, List, [], ◌∷◌, ◌++◌, Text, lit, text_eq, is_empty,
  trim_space, to_lower, trim_byte, equal_fold, leb, ltb, ◌==◌, if◌then◌else◌, take, length,
  rune_count, take_runes,
}

-- `[a-z0-9]`
abbrev pub is_key_byte : ℕ → Bool
is_key_byte c = (leb b'a' c && leb c b'z') || (leb b'0' c && leb c b'9')

-- `keyNonWord.ReplaceAllString(s, "_")`; the test says whether the byte in front was replaced.
unfoldable pub underscored : Bool → Text → Text
underscored in_run [] = []
underscored in_run (c ∷ s) =
    let rest = underscored (not (is_key_byte c)) s in
    if is_key_byte c then c ∷ rest else (if in_run then rest else b'_' ∷ rest)

-- `normalizeKey`
unfoldable pub normalize_key : Text → Text
unfolding underscored
normalize_key s =
    let key = trim_byte b'_' (underscored false (to_lower (trim_space s))) in
    if ltb 120 (length key) then trim_byte b'_' (take 120 key) else key

-- `clampSalience`
unfoldable pub clamp_salience : ℕ → ℕ
clamp_salience n = if ltb n 1 then 1 else (if ltb 5 n then 5 else n)

-- `validMemoryKind`
unfoldable pub valid_memory_kind : Text → Bool
valid_memory_kind k =
    text_eq k (lit "fact")
    || text_eq k (lit "preference")
    || text_eq k (lit "personal")
    || text_eq k (lit "instruction")
    || text_eq k (lit "goal_note")

-- `firstNonEmpty`
unfoldable pub first_non_empty : List Text → Text
first_non_empty [] = []
first_non_empty (v ∷ rest) = if is_empty (trim_space v) then first_non_empty rest else v

-- `truncateForExtract`
unfoldable pub truncate_for_extract : Text → ℕ → Text
truncate_for_extract s n = if leb (rune_count s) n then s else take_runes n s ++ lit "..."

-- A run of word bytes, as `\b` sees them, with the other bytes behind it.
record Word : Type 0 where
  letters : Text
  after : Text

is_digit : ℕ → Bool
is_digit c = leb b'0' c && leb c b'9'

is_upper : ℕ → Bool
is_upper c = leb b'A' c && leb c b'Z'

is_word_byte : ℕ → Bool
unfolding is_digit is_upper
is_word_byte c = is_digit c || is_upper c || (leb b'a' c && leb c b'z') || c == b'_'

join_byte : ℕ → List Word → List Word
unfolding is_word_byte
join_byte c [] =
    if is_word_byte c
    then record { letters = c ∷ []; after = [] } ∷ []
    else record { letters = []; after = c ∷ [] } ∷ []
join_byte c (w ∷ rest) =
    if is_word_byte c
    then record w { letters = c ∷ w.letters } ∷ rest
    else (if is_empty w.letters
        then record w { after = c ∷ w.after } ∷ rest
        else record { letters = []; after = c ∷ [] } ∷ w ∷ rest)

words : Text → List Word
unfolding join_byte
words [] = []
words (c ∷ s) = join_byte c (words s)

all_digits : Text → Bool
unfolding is_digit
all_digits [] = true
all_digits (c ∷ s) = is_digit c && all_digits s

-- `^[A-Z]{5}[0-9]{4}[A-Z]$` on a whole word.
is_pan : Text → Bool
unfolding is_upper all_digits
is_pan (a ∷ b ∷ c ∷ d ∷ e ∷ f ∷ g ∷ h ∷ i ∷ j ∷ []) =
    is_upper a
    && is_upper b
    && is_upper c
    && is_upper d
    && is_upper e
    && all_digits (f ∷ g ∷ h ∷ i ∷ [])
    && is_upper j
is_pan _ = false

is_secret_word : Text → Bool
is_secret_word s =
    equal_fold s (lit "otp")
    || equal_fold s (lit "password")
    || equal_fold s (lit "passcode")
    || equal_fold s (lit "cvv")
    || equal_fold s (lit "pin")
    || equal_fold s (lit "token")
    || equal_fold s (lit "apikey")
    || equal_fold s (lit "api_key")

-- One byte of `\s`.
is_one_space : Text → Bool
is_one_space (c ∷ []) = c == 9 || c == 10 || c == 12 || c == 13 || c == 32
is_one_space _ = false

is_four_digits : Text → Bool
unfolding all_digits
is_four_digits s = all_digits s && length s == 4

-- A word that matches `rePAN`, `reLongDigits` or `reSecretWord`.
is_private_word : Text → Bool
unfolding is_pan all_digits is_secret_word
is_private_word s = is_pan s || (all_digits s && leb 10 (length s)) || is_secret_word s

-- `api[ -]key`
is_api_key : Word → Word → Bool
is_api_key v w =
    equal_fold v.letters (lit "api")
    && (text_eq v.after (lit " ") || text_eq v.after (lit "-"))
    && equal_fold w.letters (lit "key")

-- `reAadhaarSpce`
is_aadhaar : Word → Word → Word → Bool
unfolding is_one_space is_four_digits
is_aadhaar u v w =
    is_four_digits u.letters
    && is_one_space u.after
    && is_four_digits v.letters
    && is_one_space v.after
    && is_four_digits w.letters

has_private_group : List Word → Bool
unfolding is_api_key is_aadhaar
has_private_group (u ∷ v ∷ w ∷ rest) =
    is_api_key u v || is_aadhaar u v w || has_private_group (v ∷ w ∷ rest)
has_private_group (u ∷ v ∷ []) = is_api_key u v
has_private_group _ = false

has_private_word : List Word → Bool
unfolding is_private_word
has_private_word [] = false
has_private_word (w ∷ rest) = is_private_word w.letters || has_private_word rest

-- `looksLikePII`
unfoldable pub looks_like_pii : Text → Bool
unfolding words has_private_word has_private_group
looks_like_pii s = has_private_word (words s) || has_private_group (words s)
