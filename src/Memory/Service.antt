-- ===== src/Memory/Service.antt =====
-- internal/service/memory.go: MemoryService. The language model, json.Unmarshal and the printing of dates
-- are arguments; a model that is not configured is `none`, and so is an answer that failed. A salience
-- below zero is 0, which is clamped alike.
use astra_backend.Prelude.{
  ℕ, suc, ◌+◌, ◌-◌, Bool, ◌&&◌, ◌||◌, Option, none, some, List, [], ◌∷◌, ◌++◌, Text, lit, text_eq,
  is_empty, trim_space, trim_prefix, index, last_index, ltb, leb, ◌==◌, if◌then◌else◌, take, drop,
  length, rune_count, take_runes,
}
use astra_backend.Store.{failure, Result, ok, err, Call, pure, raise, ◌>>=◌, ◌>>◌, attempt}
use astra_backend.Memory.{
  ChatMemory, Memories, top_facts, list_all, upsert, delete_by_id, get_summary, set_summary,
}
use astra_backend.Memory.Words.{
  normalize_key, clamp_salience, valid_memory_kind, first_non_empty, truncate_for_extract,
  looks_like_pii,
}

pub record RecallResult : Type 0 where
  pub facts : List ChatMemory
  pub summary : Text
  pub summary_at : ℕ

pub record ExtractedMemory : Type 0 where
  pub key : Text
  pub kind : Text
  pub content : Text
  pub salience : ℕ

pub record Extraction : Type 0 where
  pub memories : List ExtractedMemory
  pub summary : Text

-- What the service is given: `complete` asks the model about an exchange, with the system prompt of
-- the source.
pub record Model : Type 0 where
  pub complete : Option (Text → Option Text)
  pub unmarshal : Text → Option Extraction

-- `RecallResult.Empty`
abbrev is_nothing : RecallResult → Bool
is_nothing r = length r.facts == 0 && is_empty (trim_space r.summary)

abbrev pub max_injected_facts : ℕ
max_injected_facts = 8

abbrev facts_or_none : Result (List ChatMemory) → List ChatMemory
facts_or_none (ok facts) = facts
facts_or_none (err e) = []

abbrev pub recalled : List ChatMemory → Result (Text × ℕ) → RecallResult
recalled facts (ok (text, at)) = record { facts = facts; summary = text; summary_at = at }
recalled facts (err e) = record { facts = facts; summary = []; summary_at = 0 }

-- `Recall`
unfoldable pub recall : ℕ → ℕ → Call Memories RecallResult
recall now user_id = do
  facts ← attempt (top_facts now user_id max_injected_facts)
  sum ← attempt (get_summary user_id)
  pure (recalled (facts_or_none facts) sum)

-- One line of `FormatForPrompt`.
fact_line : (ℕ → Text) → ChatMemory → Text
fact_line date m =
    lit "["
    ++ date m.captured_at
    ++ lit " | "
    ++ m.kind
    ++ (if text_eq m.source (lit "user") then lit ", user-pinned" else [])
    ++ lit "] "
    ++ trim_space m.content
    ++ lit "\n"

fact_lines : (ℕ → Text) → List ChatMemory → Text
unfolding fact_line
fact_lines date [] = []
fact_lines date (m ∷ rest) = fact_line date m ++ fact_lines date rest

summary_line : (ℕ → Text) → RecallResult → Text
summary_line date r =
    if is_empty (trim_space r.summary)
    then []
    else (lit "Earlier-conversation summary"
        ++ (if r.summary_at == 0 then [] else lit " (as of " ++ date r.summary_at ++ lit ")")
        ++ lit ": "
        ++ trim_space r.summary
        ++ lit "\n")

-- `FormatForPrompt`
unfoldable pub format_for_prompt : (ℕ → Text) → RecallResult → Text
unfolding fact_lines summary_line
format_for_prompt date r =
    if is_nothing r
    then []
    else (lit
          "\n\n### PERSISTENT MEMORY (stated by the user in earlier sessions - NOT live data):\n"
        ++ fact_lines date r.facts
        ++ summary_line date r
        ++ lit "Each item is dated to when the user said it. Use them to recall details on request "
        ++ lit
            "(e.g. a codeword) and to personalise. If any item conflicts with the LIVE GROUND-TRUTH block "
        ++ lit
            "above, the LIVE data is current and correct - rely on it and, if useful, note that the earlier value changed.\n")

-- `List`, `Forget`
unfoldable pub list_memories : ℕ → Call Memories (List ChatMemory)
list_memories user_id = list_all user_id

unfoldable pub forget : ℕ → ℕ → Call Memories Bool
forget user_id id = delete_by_id user_id id

abbrev pub memory_row : ℕ → Text → Text → Text → ℕ → Text → ChatMemory
memory_row user_id kind content key salience source = record {
  id = 0;
  user_id = user_id;
  kind = kind;
  content = content;
  key_norm = key;
  salience = salience;
  source = source;
  captured_at = 0;
  last_seen_at = 0;
  expires_at = none;
}

abbrev pub kind_or_fact : Text → Text
kind_or_fact kind = if valid_memory_kind kind then kind else lit "fact"

-- The row that `AddUserMemory` writes for a trimmed text.
unfoldable pub pinned : ℕ → Text → Text → ChatMemory
pinned user_id content kind =
    let kept = if ltb 400 (length content) then take 400 content else content in
    memory_row user_id (kind_or_fact kind) kept (normalize_key kept) 5 (lit "user")

-- `AddUserMemory`
unfoldable pub add_user_memory : ℕ → ℕ → Text → Text → Call Memories (Unit {0})
unfolding pinned
add_user_memory now user_id content kind =
    if is_empty (trim_space content)
    then raise (failure "empty memory")
    else upsert now (pinned user_id (trim_space content) kind)

-- `parseExtraction`: the text in a fence, if there is one.
unfoldable pub up_to_fence : Text → Text
up_to_fence s = elim (index s (lit "```")) [ none ↦ s | some j ↦ take j s ]

unfoldable pub in_fence : Text → Text
unfolding up_to_fence
in_fence raw = elim (index raw (lit "```")) [
  | none ↦ raw
  | some i ↦ trim_space (up_to_fence (trim_prefix (drop (i + 3) raw) (lit "json")))
]

-- `raw[start:end+1]`, from the first brace to the last.
unfoldable pub in_braces : Text → Option Text
in_braces raw = elim (index raw (lit "{")) [
  | none ↦ none
  | some start ↦ elim (last_index raw b'}') [
    | none ↦ none
    | some end ↦ if leb end start then none else some (take (suc end - start) (drop start raw))
  ]
]

abbrev pub read_object : (Text → Option Extraction) → Option Text → Result Extraction
read_object unmarshal none = err (failure "no json object in extractor output")
read_object unmarshal (some object) = elim (unmarshal object) [
  | none ↦ err (failure "extractor json")
  | some ext ↦ ok ext
]

unfoldable pub parse_extraction : (Text → Option Extraction) → Text → Result Extraction
unfolding in_fence in_braces
parse_extraction unmarshal given =
    let raw = trim_space given in
    if is_empty raw
    then ok (record { memories = []; summary = [] })
    else read_object unmarshal (in_braces (in_fence raw))

-- The text of the exchange, in `extract`.
unfoldable pub exchange_of : Text → Text → Text → Text
exchange_of user_msg assistant_msg prior_summary =
    (if is_empty (trim_space prior_summary)
      then []
      else lit "EXISTING SUMMARY: " ++ trim_space prior_summary ++ lit "\n\n")
    ++ lit "USER: "
    ++ truncate_for_extract user_msg 1500
    ++ lit "\n\nASSISTANT: "
    ++ truncate_for_extract assistant_msg 1500

-- `extract`
unfoldable pub extract :
    (Text → Option Text) → (Text → Option Extraction) → Text → Text → Text → Result Extraction
unfolding exchange_of parse_extraction
extract complete unmarshal user_msg assistant_msg prior_summary =
    elim (complete (exchange_of user_msg assistant_msg prior_summary)) [
      | none ↦ err (failure "extract model")
      | some text ↦ parse_extraction unmarshal text
    ]

-- The row for a memory that `Observe` keeps, in its loop.
unfoldable pub observed_row : ℕ → ExtractedMemory → Option ChatMemory
observed_row user_id m =
    let content = trim_space m.content in
    let key = normalize_key (first_non_empty (m.key ∷ content ∷ [])) in
    if is_empty content || ltb 300 (rune_count content)
    then none
    else (if looks_like_pii content || looks_like_pii m.key || is_empty key
        then none
        else some (
            memory_row user_id (kind_or_fact m.kind) content key (clamp_salience m.salience)
              (lit "auto")))

-- The loop of `Observe`, with `kept`.
unfoldable pub observe_each : ℕ → ℕ → List ExtractedMemory → ℕ → Call Memories (Unit {0})
unfolding observed_row
observe_each now user_id [] kept = pure tt
observe_each now user_id (m ∷ rest) kept = elim (observed_row user_id m) [
  | none ↦ observe_each now user_id rest kept
  | some row ↦ attempt (upsert now row) >>= λ r. elim r [
    | err e ↦ observe_each now user_id rest kept
    | ok _ ↦ if leb 6 (suc kept) then pure tt else observe_each now user_id rest (suc kept)
  ]
]

-- The end of `Observe`: the rolling summary.
unfoldable pub observe_summary : ℕ → ℕ → Text → Text → Call Memories (Unit {0})
observe_summary now user_id prior_summary given =
    let summary = trim_space given in
    if is_empty summary || text_eq summary (trim_space prior_summary)
    then pure tt
    else (attempt (
          set_summary now user_id
            (if ltb 600 (rune_count summary) then take_runes 600 summary else summary))
        >> pure tt)

-- `Observe`
unfoldable pub observe : Model → ℕ → ℕ → Text → Text → Text → Call Memories (Unit {0})
unfolding extract observe_each observe_summary
observe model now user_id given assistant_msg prior_summary = elim model.complete [
  | none ↦ pure tt
  | some complete ↦
      let user_msg = trim_space given in
      if is_empty user_msg
      then pure tt
      else (elim (extract complete model.unmarshal user_msg assistant_msg prior_summary) [
        | err e ↦ pure tt
        | ok ext ↦
            (observe_each now user_id ext.memories 0
              >> observe_summary now user_id prior_summary ext.summary)
      ])
]
