-- ===== src/Memory.antt =====
-- internal/repository/chat_memory_repo.go: what the assistant remembers of a user, one row for each
-- user and topic (migration 000024_chat_memory). `now` is the clock of the database; the times of rows
-- are numbers, with 0 for Go's zero time.
pub mod Words
pub mod Slugs
pub mod Sound
pub mod Service
pub mod Replies
pub mod Grows
pub mod Rows
pub mod Stored
pub mod Observed
pub mod Recalled
use astra_backend.Prelude.{
  ℕ, suc, ◌+◌, Bool, true, false, not, ◌&&◌, ◌||◌, Option, none, some, List, [], ◌∷◌, Text, lit,
  text_eq, is_empty, ltb, leb, ◌==◌, if◌then◌else◌, first, change, select, take, sort_before,
}
use astra_backend.Store.{Call, read, write_checked, write_returning}

pub record ChatMemory : Type 0 where
  pub id : ℕ
  pub user_id : ℕ
  pub kind : Text
  pub content : Text
  pub key_norm : Text
  pub salience : ℕ
  pub source : Text
  pub captured_at : ℕ
  pub last_seen_at : ℕ
  pub expires_at : Option ℕ

-- The table chat_memories, the ids given so far, and the ids of users.
pub record Memories : Type 0 where
  pub rows : List ChatMemory
  pub next_id : ℕ
  pub users : List ℕ

-- `SummaryKeyNorm`
abbrev pub summary_key_norm : Text
summary_key_norm = lit "__conversation_summary__"

-- `WHERE user_id = $1 AND key_norm = $2`
abbrev pub keyed : ℕ → Text → ChatMemory → Bool
keyed user_id key m = m.user_id == user_id && text_eq m.key_norm key

-- `expires_at IS NULL OR expires_at > now()`
abbrev pub lasts : ℕ → Option ℕ → Bool
lasts now none = true
lasts now (some t) = ltb now t

-- The constraint on `kind`.
unfoldable pub is_kind : Text → Bool
is_kind k =
    text_eq k (lit "fact")
    || text_eq k (lit "preference")
    || text_eq k (lit "personal")
    || text_eq k (lit "instruction")
    || text_eq k (lit "goal_note")
    || text_eq k (lit "summary")

abbrev pub is_summary : ChatMemory → Bool
is_summary m = text_eq m.kind (lit "summary")

-- `ORDER BY salience DESC, captured_at DESC`
abbrev pub more_salient : ChatMemory → ChatMemory → Bool
more_salient a b =
    ltb b.salience a.salience || (a.salience == b.salience && leb b.captured_at a.captured_at)

-- `ORDER BY (kind = 'summary'), captured_at DESC`
abbrev listed_before : ChatMemory → ChatMemory → Bool
listed_before a b =
    if is_summary a
    then is_summary b && leb b.captured_at a.captured_at
    else (is_summary b || leb b.captured_at a.captured_at)

-- `TopFacts`
unfoldable pub facts_of : ℕ → ℕ → ℕ → Memories → List ChatMemory
facts_of now user_id limit t = take (if limit == 0 then 8 else limit) (
    sort_before more_salient (
      select
        (λ (m : ChatMemory). m.user_id == user_id && not (is_summary m) && lasts now m.expires_at)
        t.rows))

unfoldable pub top_facts : ℕ → ℕ → ℕ → Call Memories (List ChatMemory)
unfolding facts_of
top_facts now user_id limit = read (facts_of now user_id limit)

-- `ListAll`
unfoldable pub list_all : ℕ → Call Memories (List ChatMemory)
list_all user_id = read λ (t : Memories).
    sort_before listed_before (select (λ (m : ChatMemory). m.user_id == user_id) t.rows)

abbrev has_user : ℕ → List ℕ → Bool
has_user id [] = false
has_user id (u ∷ rest) = u == id || has_user id rest

-- The defaults of `Upsert`.
unfoldable pub with_defaults : ChatMemory → ChatMemory
with_defaults m = record m {
  salience = if m.salience == 0 then 3 else m.salience;
  source = if is_empty m.source then lit "auto" else m.source;
  kind = if is_empty m.kind then lit "fact" else m.kind;
}

-- `ON CONFLICT (user_id, key_norm) DO UPDATE` of `Upsert`.
unfoldable pub refreshed : ℕ → ChatMemory → ChatMemory → ChatMemory
refreshed now m old = record old {
  content = m.content;
  kind = m.kind;
  salience = if ltb old.salience m.salience then m.salience else old.salience;
  source = if text_eq old.source (lit "user") then lit "user" else m.source;
  expires_at = m.expires_at;
  captured_at = now;
  last_seen_at = now;
}

-- `INSERT ... ON CONFLICT (user_id, key_norm) DO UPDATE`: change the row of that user and key, or add
-- one.
unfoldable pub put : ℕ → ChatMemory → (ChatMemory → ChatMemory) → Memories → Memories
put now m update t = elim (first (keyed m.user_id m.key_norm) t.rows) [
  | none ↦ record t {
    rows = record m { id = t.next_id; captured_at = now; last_seen_at = now } ∷ t.rows;
    next_id = suc t.next_id;
  }
  | some old ↦ record t { rows = change (keyed m.user_id m.key_norm) update t.rows }
]

-- The constraints on a row to insert: its user, `kind` and `source`.
unfoldable pub allowed : ChatMemory → Memories → Bool
unfolding is_kind
allowed m t =
    has_user m.user_id t.users
    && is_kind m.kind
    && (text_eq m.source (lit "auto") || text_eq m.source (lit "user"))

unfoldable pub put_checked :
    ℕ → ChatMemory → (ChatMemory → ChatMemory) → Memories → Option (Memories × Unit {0})
unfolding put allowed
put_checked now m update t = if allowed m t then some (put now m update t, tt) else none

-- `Upsert`
unfoldable pub upsert : ℕ → ChatMemory → Call Memories (Unit {0})
unfolding with_defaults refreshed put_checked
upsert now given =
    let m = with_defaults given in write_checked (put_checked now m (refreshed now m))

-- `DeleteByID`
unfoldable pub delete_by_id : ℕ → ℕ → Call Memories Bool
delete_by_id user_id id =
    let mine : ChatMemory → Bool = λ m. m.user_id == user_id && m.id == id in
    write_returning λ (t : Memories). (
      record t { rows = select (λ m. not (mine m)) t.rows },
      elim (first mine t.rows) [ none ↦ false | some _ ↦ true ],
    )

-- `GetSummary`
unfoldable pub summary_of : ℕ → Memories → Text × ℕ
summary_of user_id t = elim (first (keyed user_id summary_key_norm) t.rows) [
  | none ↦ ([], 0)
  | some m ↦ (m.content, m.captured_at)
]

unfoldable pub get_summary : ℕ → Call Memories (Text × ℕ)
get_summary user_id = read (summary_of user_id)

abbrev pub summary_row : ℕ → Text → ChatMemory
summary_row user_id summary = record {
  id = 0;
  user_id = user_id;
  kind = lit "summary";
  content = summary;
  key_norm = summary_key_norm;
  salience = 0;
  source = lit "auto";
  captured_at = 0;
  last_seen_at = 0;
  expires_at = none;
}

-- `SetSummary`
unfoldable pub set_summary : ℕ → ℕ → Text → Call Memories (Unit {0})
unfolding put_checked
set_summary now user_id summary = write_checked (
    put_checked now (summary_row user_id summary) (λ (old : ChatMemory). record old {
      content = summary;
      captured_at = now;
      last_seen_at = now;
    }))
