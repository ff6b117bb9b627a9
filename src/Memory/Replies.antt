-- ===== src/Memory/Replies.antt =====
-- internal/service/memory.go: parseExtraction on the answers that it means to read.
use astra_backend.Prelude.{
  ℕ, suc, ◌+◌, ◌-◌, ◌<◌, ◌≡◌, refl, sym, ap, ◌∙◌, Bool, true, false, Option, none, some, [], ◌∷◌,
  ◌++◌, arith, Text, lit, is_empty, is_space, trim_space, has_prefix, length-append, append_assoc,
  contains_byte, index, trim_prefix, trim_prefix-append, index-append, last_index-append,
  trim_space-around, leb, if◌then◌else◌, take, drop, length, take-length_append, drop-length_append,
}
use astra_backend.Store.{ok}
use astra_backend.Memory.Service.{
  Extraction, in_fence, in_braces, up_to_fence, parse_extraction, read_object,
}

-- A JSON object: some text in braces.
abbrev pub braced : Text → Text
braced inner = b'{' ∷ inner ++ (b'}' ∷ [])

abbrev backtick : ℕ
backtick = 96

abbrev fence : Text
fence = backtick ∷ backtick ∷ backtick ∷ []

take_all : (xs : Text) → take (length xs) xs ≡ xs
take_all [] = refl
take_all (x ∷ xs) = ap (◌∷◌ x) (take_all xs)

length-braced : (inner : Text) → length (braced inner) ≡ suc (suc (length inner))
length-braced inner = omega (arith, length-append inner (b'}' ∷ []))

cut_from_start :
    (n : ℕ) (s : Text)
    → 0 < n
    → (let kept : Option Text = if leb n 0 then none else some (take (suc n - 0) s) in kept)
      ≡ some (take (suc n) s)
cut_from_start n s h = chosen (leb n 0) (ground arith)
  where
    chosen :
        (b : Bool)
        → b ≡ false
        → (let kept : Option Text = if b then none else some (take (suc n - 0) s) in kept)
          ≡ some (take (suc n) s)
    chosen true e = cc
    chosen false e = ap (λ (k : ℕ). some (take k s)) {y = suc n} (omega arith)

in_braces-braced : (inner : Text) → in_braces (braced inner) ≡ some (braced inner)
unfolding in_braces index has_prefix
in_braces-braced inner =
    ap
      (λ (o : Option ℕ). elim o as (λ _. Option Text) [
        | none ↦ none
        | some end ↦ if leb end 0 then none else some (take (suc end - 0) (braced inner))
      ])
      (last_index-append b'}' (b'{' ∷ inner))
    ∙ cut_from_start (suc (length inner)) (braced inner) (omega arith)
    ∙ ap some (
        ap (λ (n : ℕ). take n (braced inner)) (sym (length-braced inner)) ∙ take_all (braced inner))

contains_byte-append :
    (b : ℕ) (s t : Text)
    → contains_byte b s ≡ false
    → contains_byte b t ≡ false
    → contains_byte b (s ++ t) ≡ false
unfolding contains_byte
contains_byte-append b [] t h k = k
contains_byte-append b (c ∷ s) t h k = ground (arith, contains_byte-append b s t)

-- The lines of a fenced block.
abbrev block : Text → Text
block inner = 10 ∷ b'{' ∷ inner ++ (b'}' ∷ 10 ∷ [])

block-plain :
    (inner : Text)
    → contains_byte backtick inner ≡ false
    → contains_byte backtick (block inner) ≡ false
unfolding contains_byte
block-plain inner h = contains_byte-append backtick inner (b'}' ∷ 10 ∷ []) h refl

trim_space-block : (inner : Text) → trim_space (block inner) ≡ braced inner
unfolding is_space
trim_space-block inner =
    trim_space-around (10 ∷ []) (10 ∷ []) inner b'{' b'}' (refl, tt) (refl, tt) refl refl

up_to_fence-block :
    (inner back : Text)
    → contains_byte backtick inner ≡ false
    → up_to_fence (block inner ++ (fence ++ back)) ≡ block inner
unfolding up_to_fence
up_to_fence-block inner back h =
    ap
      (λ (o : Option ℕ). elim o as (λ _. Text) [
        | none ↦ block inner ++ (fence ++ back)
        | some j ↦ take j (block inner ++ (fence ++ back))
      ])
      (index-append backtick (backtick ∷ backtick ∷ []) (block inner) back (block-plain inner h))
    ∙ take-length_append (block inner) (fence ++ back)

in_fence-fenced :
    (front inner back : Text)
    → contains_byte backtick front ≡ false
    → contains_byte backtick inner ≡ false
    → in_fence (front ++ (fence ++ (lit "json" ++ (block inner ++ (fence ++ back))))) ≡ braced inner
unfolding in_fence
in_fence-fenced front inner back h k =
    ap
      (λ (o : Option ℕ). elim o as (λ _. Text) [
        | none ↦ raw
        | some i ↦ trim_space (up_to_fence (trim_prefix (drop (i + 3) raw) (lit "json")))
      ])
      (index-append backtick (backtick ∷ backtick ∷ []) front rest h)
    ∙ ap (λ (u : Text). trim_space (up_to_fence (trim_prefix u (lit "json")))) behind
    ∙ ap (λ (u : Text). trim_space (up_to_fence u))
        (trim_prefix-append (lit "json") (block inner ++ (fence ++ back)))
    ∙ ap trim_space (up_to_fence-block inner back k)
    ∙ trim_space-block inner
  where
    rest : Text
    rest = lit "json" ++ (block inner ++ (fence ++ back))

    raw : Text
    raw = front ++ (fence ++ rest)

    behind : drop (length front + 3) raw ≡ rest
    behind =
        ap (λ (n : ℕ). drop n raw) (sym (length-append front fence))
        ∙ ap (drop (length (front ++ fence))) (sym (append_assoc front fence rest))
        ∙ drop-length_append (front ++ fence) rest

regrouped :
    (inner back : Text)
    → lit "\n" ++ (braced inner ++ (lit "\n```" ++ back)) ≡ block inner ++ (fence ++ back)
regrouped inner back =
    ap (λ (u : Text). 10 ∷ b'{' ∷ u)
      (append_assoc inner (b'}' ∷ []) (10 ∷ fence ++ back)
        ∙ sym (append_assoc inner (b'}' ∷ 10 ∷ []) (fence ++ back)))

is_empty-fence : (front rest : Text) → is_empty (front ++ (fence ++ rest)) ≡ false
is_empty-fence [] rest = refl
is_empty-fence (c ∷ front) rest = refl

-- The object of an answer with one fenced block of JSON, with prose on both sides that has no backtick in
-- front, is read as it stands in the fence.
pub parse_extraction-fenced :
    (unmarshal : Text → Option Extraction) (given front inner back : Text)
    → trim_space given
      ≡ front ++ (lit "```json" ++ (lit "\n" ++ (braced inner ++ (lit "\n```" ++ back))))
    → contains_byte backtick front ≡ false
    → contains_byte backtick inner ≡ false
    → parse_extraction unmarshal given ≡ read_object unmarshal (some (braced inner))
unfolding parse_extraction
parse_extraction-fenced unmarshal given front inner back same no_front no_inner =
    ap
      (λ (raw : Text).
        if is_empty raw
        then ok (record { memories = []; summary = [] })
        else read_object unmarshal (in_braces (in_fence raw)))
      (same ∙ ap (λ (u : Text). front ++ (lit "```json" ++ u)) (regrouped inner back))
    ∙ ap
        (λ (b : Bool).
          if b
          then ok (record { memories = []; summary = [] })
          else read_object unmarshal (in_braces (in_fence (front ++ (fence ++ rest)))))
        (is_empty-fence front rest)
    ∙ ap (λ (u : Text). read_object unmarshal (in_braces u))
        (in_fence-fenced front inner back no_front no_inner)
    ∙ ap (read_object unmarshal) (in_braces-braced inner)
  where
    rest : Text
    rest = lit "json" ++ (block inner ++ (fence ++ back))
