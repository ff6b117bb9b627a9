-- ===== src/Tests/Memory.antt =====
-- The assistant's memory on small data.
use astra_backend.Prelude.{
  refl, ◌≡◌, true, false, none, some, [], ◌∷◌, lit, trim_space, contains_byte, equal_fold,
  trim_byte, to_lower, index, trim_prefix, last_index, rune_count,
}
use astra_backend.Store.{store_failure, World, quiet, ◌>>=◌, attempt, write_checked, pure}
use astra_backend.Store.Laws.{Ends}
use astra_backend.Memory.{Memories, summary_key_norm, set_summary, get_summary, upsert}
use astra_backend.Memory.Words.{
  normalize_key, looks_like_pii, first_non_empty, valid_memory_kind, clamp_salience,
}
use astra_backend.Memory.Slugs.{IsCanonical, normalize_key-IsCanonical}
use astra_backend.Memory.Sound.{IsSound}
use astra_backend.Memory.Service.{Model, Extraction, observe, recall, parse_extraction, read_object}
use astra_backend.Memory.Grows.{Grows}
use astra_backend.Memory.Rows.{IsClean}
use astra_backend.Memory.Observed.{extracted, observe-Ends}
use astra_backend.Memory.Recalled.{IsRecall, recall-Ends, set_summary-get_summary}
use astra_backend.Memory.Replies.{braced, parse_extraction-fenced}

abbrev tables : Memories
tables = record { rows = []; next_id = 1; users = 7 ∷ [] }

tables-IsSound : IsSound tables
tables-IsSound = record { rows_sound = tt; distinct = tt }

-- The first statement works and the second one fails.
abbrev faulty : World Memories
faulty = record { tables = tables; faults = false ∷ true ∷ []; entropy = [] }

abbrev learnt : Extraction
learnt = record {
  memories =
      record {
        key = lit "Code Word";
        kind = lit "rumour";
        content = lit " The codeword is Bluebird. ";
        salience = 9;
      }
      ∷ record { key = lit "pan"; kind = lit "fact"; content = lit "PAN ABCDE1234F"; salience = 2 }
      ∷ [];
  summary = lit "They agreed on a codeword.";
}

abbrev model : Model
model = record {
  complete = some (λ exchange. some (lit "```json\n{}\n```"));
  unmarshal = λ object. some learnt;
}

key_of_words : normalize_key (lit "  My Code-Word! ") ≡ lit "my_code_word"
unfolding normalize_key trim_byte to_lower trim_space
key_of_words = refl

pan_is_private : looks_like_pii (lit "PAN ABCDE1234F") ≡ true
unfolding looks_like_pii equal_fold
pan_is_private = refl

spaced_aadhaar_is_private : looks_like_pii (lit "is 1234 5678 9012.") ≡ true
unfolding looks_like_pii equal_fold
spaced_aadhaar_is_private = refl

api_key_is_private : looks_like_pii (lit "my API-key") ≡ true
unfolding looks_like_pii equal_fold
api_key_is_private = refl

codeword_is_open : looks_like_pii (lit "The codeword is Bluebird.") ≡ false
unfolding looks_like_pii equal_fold
codeword_is_open = refl

-- One row of the two is kept, with its key, kind and salience made valid, and then the summary.
learnt_rows :
    (observe model 50 7 (lit "hello") [] [] (quiet tables [])).1.tables.rows
    ≡ record {
      id = 2;
      user_id = 7;
      kind = lit "summary";
      content = lit "They agreed on a codeword.";
      key_norm = summary_key_norm;
      salience = 0;
      source = lit "auto";
      captured_at = 50;
      last_seen_at = 50;
      expires_at = none;
    }
      ∷ record {
        id = 1;
        user_id = 7;
        kind = lit "fact";
        content = lit "The codeword is Bluebird.";
        key_norm = lit "code_word";
        salience = 5;
        source = lit "auto";
        captured_at = 50;
        last_seen_at = 50;
        expires_at = none;
      }
      ∷ []
unfolding observe trim_space index trim_prefix last_index ◌>>=◌ rune_count looks_like_pii equal_fold
    normalize_key trim_byte first_non_empty attempt upsert write_checked valid_memory_kind pure
    set_summary clamp_salience
learnt_rows = refl

normalize_key-IsCanonical_example : IsCanonical (normalize_key (lit "  My Code-Word! "))
normalize_key-IsCanonical_example = normalize_key-IsCanonical (lit "  My Code-Word! ")

observe-Ends_example :
    Ends
      (λ _ t. Grows (IsClean (extracted model (lit "hello") [] [])) 7 7 tables t)
      (λ _ _. ⊥)
      (observe model 50 7 (lit "hello") [] [] faulty)
observe-Ends_example = observe-Ends model 50 7 (lit "hello") [] [] faulty tables-IsSound

recall-Ends_example :
    Ends
      (λ r t. (t ≡ tables) × IsRecall 50 7 faulty.faults tables r)
      (λ _ _. ⊥)
      (recall 50 7 faulty)
recall-Ends_example = recall-Ends 50 7 faulty

set_summary-get_summary_example :
    Ends
      (λ r _. r ≡ (lit "so far", 50))
      (λ e _. e ≡ store_failure)
      ((set_summary 50 7 (lit "so far") >>= λ _. get_summary 7) faulty)
set_summary-get_summary_example = set_summary-get_summary 50 7 (lit "so far") faulty

parse_extraction-fenced_example :
    parse_extraction model.unmarshal (lit "Here: ```json\n{1}\n``` ok")
    ≡ read_object model.unmarshal (some (braced (lit "1")))
unfolding trim_space contains_byte
parse_extraction-fenced_example =
    parse_extraction-fenced model.unmarshal (lit "Here: ```json\n{1}\n``` ok") (lit "Here: ")
      (lit "1") (lit " ok") refl refl refl
