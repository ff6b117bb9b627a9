-- ===== src/Memory/Slugs.antt =====
-- internal/service/memory.go: what normalizeKey yields.
use astra_backend.Prelude.{
  ℕ, ◌≤◌, ◌≡◌, refl, sym, ap, subst, ◌∙◌, Bool, true, false, not, ◌&&◌, [], ◌∷◌, ◌++◌, reverse,
  arith, Text, trim_space, to_lower, trim_byte, ltb, ◌==◌, if◌then◌else◌, take, drop, length, All,
  begins_with, trim_byte_part, trim_space_same, is_space, ltb→lt, ◌<◌, trim_byte-first,
  trim_byte-last, trim_byte_same, length-trim_byte, take-append-drop, length-take_le,
}
use astra_backend.Memory.Words.{is_key_byte, underscored, normalize_key}

-- The bytes of a key, and no two underscores side by side.
unfoldable pub is_slug : Text → Bool
unfolding begins_with
is_slug [] = true
is_slug (c ∷ s) =
    if is_key_byte c then is_slug s else c == b'_' && not (begins_with b'_' s) && is_slug s

-- Words of `[a-z0-9]` with one underscore between any two, in at most 120 bytes.
abbrev pub IsKey : Text → Type 0
IsKey k =
    (is_slug k ≡ true)
    × (begins_with b'_' k ≡ false)
    × (begins_with b'_' (reverse k) ≡ false)
    × (length k ≤ 120)

is_slug-append_left : (s t : Text) → is_slug (s ++ t) ≡ true → is_slug s ≡ true
unfolding is_slug begins_with
is_slug-append_left [] t h = refl
is_slug-append_left (c ∷ []) t h = ground arith
is_slug-append_left (c ∷ d ∷ s) t h = ground (arith, is_slug-append_left (d ∷ s) t)

is_slug-append_right : (s t : Text) → is_slug (s ++ t) ≡ true → is_slug t ≡ true
unfolding is_slug begins_with
is_slug-append_right [] t h = h
is_slug-append_right (c ∷ s) t h = ground (arith, is_slug-append_right s t)

is_slug-trim : (s : Text) → is_slug s ≡ true → is_slug (trim_byte b'_' s) ≡ true
is_slug-trim s h =
    let part = trim_byte_part b'_' s in
    is_slug-append_left (trim_byte b'_' s) part.1 (
      is_slug-append_right part.0 (trim_byte b'_' s ++ part.1)
        (subst (λ (u : Text). is_slug u ≡ true) (sym part.2) h))

underscored-first : (s : Text) → begins_with b'_' (underscored true s) ≡ false
unfolding underscored begins_with
underscored-first [] = refl
underscored-first (c ∷ s) = ground (arith, underscored-first s)

is_slug-underscored : (in_run : Bool) (s : Text) → is_slug (underscored in_run s) ≡ true
unfolding is_slug underscored
is_slug-underscored in_run [] = refl
is_slug-underscored true (c ∷ s) = ground (arith, is_slug-underscored (not (is_key_byte c)) s)
is_slug-underscored false (c ∷ s) =
    ground (arith, is_slug-underscored (not (is_key_byte c)) s, underscored-first s)

trimmed-IsKey :
    (s : Text) → is_slug s ≡ true → length (trim_byte b'_' s) ≤ 120 → IsKey (trim_byte b'_' s)
trimmed-IsKey s h bound = (is_slug-trim s h, trim_byte-first b'_' s, trim_byte-last b'_' s, bound)

cut_bound : (n : ℕ) (s : Text) → n < length s → length (trim_byte b'_' (take n s)) ≤ n
cut_bound n s long =
    omega (arith, length-trim_byte b'_' (take n s), length-take_le n s (omega arith))

cut-IsKey :
    (s : Text) → is_slug s ≡ true → ltb 120 (length s) ≡ true → IsKey (trim_byte b'_' (take 120 s))
cut-IsKey s h long =
    trimmed-IsKey (take 120 s)
      (is_slug-append_left (take 120 s) (drop 120 s)
        (subst (λ (u : Text). is_slug u ≡ true) (sym (take-append-drop 120 s)) h))
      (cut_bound 120 s (ltb→lt 120 (length s) long))

pub normalize_key-IsKey : (s : Text) → IsKey (normalize_key s)
unfolding normalize_key
normalize_key-IsKey s = sized (ltb 120 (length key)) refl
  where
    key : Text
    key = trim_byte b'_' (underscored false (to_lower (trim_space s)))

    key_slug : is_slug key ≡ true
    key_slug = is_slug-trim _ (is_slug-underscored false (to_lower (trim_space s)))

    sized :
        (b : Bool)
        → ltb 120 (length key) ≡ b
        → IsKey (if b then trim_byte b'_' (take 120 key) else key)
    sized true e = cut-IsKey key key_slug e
    sized false e =
        trimmed-IsKey _ (is_slug-underscored false (to_lower (trim_space s))) (ground arith)

-- A key leaves out what the normalisation looks for.
underscored_same :
    (in_run : Bool) (k : Text)
    → is_slug k ≡ true
    → (in_run && begins_with b'_' k) ≡ false
    → underscored in_run k ≡ k
unfolding underscored is_slug begins_with
underscored_same in_run [] h first = refl
underscored_same in_run (c ∷ k) h first =
    ground (arith, underscored_same true k, underscored_same false k)

to_lower_same : (k : Text) → is_slug k ≡ true → to_lower k ≡ k
unfolding to_lower is_slug
to_lower_same [] h = refl
to_lower_same (c ∷ k) h = ground (arith, to_lower_same k)

is_slug-spaceless : (k : Text) → is_slug k ≡ true → All (λ c. is_space c ≡ false) k
unfolding is_slug is_space
is_slug-spaceless [] h = tt
is_slug-spaceless (c ∷ k) h = ground (arith, is_slug-spaceless k)

normalize_key_same : (k : Text) → IsKey k → normalize_key k ≡ k
unfolding normalize_key
normalize_key_same k h =
    ap (λ (u : Text). if ltb 120 (length u) then trim_byte b'_' (take 120 u) else u)
      (ap (λ (u : Text). trim_byte b'_' (underscored false (to_lower u)))
          (trim_space_same k (is_slug-spaceless k h.0))
        ∙ ap (λ (u : Text). trim_byte b'_' (underscored false u)) (to_lower_same k h.0)
        ∙ ap (trim_byte b'_') (underscored_same false k h.0 refl)
        ∙ trim_byte_same b'_' k h.1 h.2)
    ∙ short (ltb 120 (length k)) (ground arith)
  where
    short : (b : Bool) → b ≡ false → (if b then trim_byte b'_' (take 120 k) else k) ≡ k
    short true e = cc
    short false e = refl

-- A key that normalising leaves as it is.
abbrev pub IsCanonical : Text → Type 0
IsCanonical k = IsKey k × (normalize_key k ≡ k)

-- A normalised key is words of `[a-z0-9]` with one underscore between any two, of at most 120 bytes in
-- all, or it is empty; and normalising it again changes nothing, so a key that the model repeats finds
-- its row again.
pub normalize_key-IsCanonical : (s : Text) → IsCanonical (normalize_key s)
normalize_key-IsCanonical s =
    (normalize_key-IsKey s, normalize_key_same (normalize_key s) (normalize_key-IsKey s))
