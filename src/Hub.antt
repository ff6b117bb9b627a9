-- ===== src/Hub.antt =====
-- internal/events/hub.go, the pub/sub that tells open RM portal connections to fetch again. A channel
-- and what its cancel function captured, the topic and a sync.Once, are one row. `none` is a panic: of a
-- send on a closed channel, or of closing one again. A nil Publisher or Hub, which does nothing, is
-- left out.
pub mod Topics
pub mod Listing
pub mod Fan
pub mod Runs
use astra_backend.Prelude.{
  ℕ, ◌+◌, Bool, true, false, not, Option, none, some, List, [], ◌∷◌, ◌++◌, Text, lit, text_eq, ltb,
  ◌==◌, if◌then◌else◌, length, first, change, select,
}

-- `Event`; `rm_id` is uuid.Nil where the source sets none.
pub record Event : Type 0 where
  pub kind : Text
  pub user_id : ℕ
  pub rm_id : ℕ
  pub sent_at : ℕ

pub record Channel : Type 0 where
  pub id : ℕ
  pub topic : Text
  pub queue : List Event
  pub once : Bool
  pub closed : Bool

-- The map from topics to sets of channels, with `none` for a topic that has no entry, and all channels
-- made so far.
pub record Hub : Type 0 where
  pub subs : Text → Option (List ℕ)
  pub channels : List Channel
  pub next_id : ℕ

-- `NewHub`
unfoldable pub new_hub : Hub
new_hub = record { subs = λ _. none; channels = []; next_id = 0 }

-- `make(chan Event, 16)`
abbrev pub buffer : ℕ
buffer = 16

-- Reading a missing entry gives the empty set.
abbrev pub listed : Option (List ℕ) → List ℕ
listed none = []
listed (some ids) = ids

abbrev pub is_listed : ℕ → List ℕ → Bool
is_listed id [] = false
is_listed id (i ∷ rest) = if i == id then true else is_listed id rest

-- `Subscribe`, with the id of the channel.
unfoldable pub subscribe : Text → Hub → Hub × ℕ
subscribe topic h = (
  record {
    subs = λ t. if text_eq t topic then some (h.next_id ∷ listed (h.subs topic)) else h.subs t;
    channels =
        record { id = h.next_id; topic = topic; queue = []; once = false; closed = false }
        ∷ h.channels;
    next_id = h.next_id + 1;
  },
  h.next_id,
)

-- An empty set loses its entry.
abbrev pub entry : List ℕ → Option (List ℕ)
entry [] = none
entry (i ∷ rest) = some (i ∷ rest)

abbrev pub shut : Channel → Channel
shut d = record d { once = true; closed = true }

-- The body of `once.Do`; `close(ch)` panics on a closed channel.
unfoldable pub release : Channel → Hub → Option Hub
release c h =
    if c.closed
    then none
    else some (record h {
      subs = λ t.
          if text_eq t c.topic
          then entry (select (λ i. not (i == c.id)) (listed (h.subs c.topic)))
          else h.subs t;
      channels = change (λ (d : Channel). d.id == c.id) shut h.channels;
    })

-- The cancel function of a channel.
unfoldable pub cancel : ℕ → Hub → Option Hub
unfolding release
cancel id h = elim (first (λ (c : Channel). c.id == id) h.channels) [
  | none ↦ some h
  | some c ↦ elim c.once [ true ↦ some h | false ↦ release c h ]
]

-- `select { case ch <- ev: default: }`; `none` is the panic of a send on a closed channel.
unfoldable pub offer : Event → Channel → Option Channel
offer ev c =
    if c.closed
    then none
    else some (if ltb (length c.queue) buffer then record c { queue = c.queue ++ ev ∷ [] } else c)

-- The loop of `Publish` over the channels of one topic, in the order in which they were made: the
-- source's is not fixed, and each channel stands in the set once.
unfoldable pub fan_out : List ℕ → Event → List Channel → Option (List Channel)
unfolding offer
fan_out ids ev [] = some []
fan_out ids ev (c ∷ rest) = elim (if is_listed c.id ids then offer ev c else some c) [
  | none ↦ none
  | some d ↦ elim (fan_out ids ev rest) [ none ↦ none | some later ↦ some (d ∷ later) ]
]

-- `Publish`
unfoldable pub publish : Text → Event → Hub → Option Hub
unfolding fan_out
publish topic ev h = elim (fan_out (listed (h.subs topic)) ev h.channels) [
  | none ↦ none
  | some channels ↦ some (record h { channels = channels })
]

abbrev pub rest_of : List Event → List Event
rest_of [] = []
rest_of (ev ∷ rest) = rest

-- The reader of a channel takes the oldest event.
unfoldable pub receive : ℕ → Hub → Hub
receive id h = record h {
  channels =
      change (λ (c : Channel). c.id == id) (λ c. record c { queue = rest_of c.queue }) h.channels;
}

abbrev pub topic_admin : Text
topic_admin = lit "admin"

-- `uuid.String()` is an argument of what follows.
abbrev pub topic_user : (ℕ → Text) → ℕ → Text
topic_user shown user = lit "user:" ++ shown user

abbrev pub topic_rm : (ℕ → Text) → ℕ → Text
topic_rm shown rm = lit "rm:" ++ shown rm

-- `Publish` on the hub that another one left.
abbrev pub then_publish : Text → Event → Option Hub → Option Hub
then_publish topic ev none = none
then_publish topic ev (some h) = publish topic ev h

-- What `OwnerLookup` answers: the owner if there is one, whether the user is there, or an error.
pub data Owner : Type 0 where
  answer : Option ℕ → Bool → Owner
  unknown : Owner

abbrev pub owner_named : Option Owner → Option ℕ
owner_named none = none
owner_named (some unknown) = none
owner_named (some (answer rm found)) = if found then rm else none

abbrev pub tell_rm : (ℕ → Text) → Event → Option ℕ → Option Hub → Option Hub
tell_rm shown ev none h = h
tell_rm shown ev (some rm) h = then_publish (topic_rm shown rm) (record ev { rm_id = rm }) h

-- `UserChanged`, with what the lookup answers, if there is a lookup.
unfoldable pub user_changed : (ℕ → Text) → ℕ → Option Owner → ℕ → Text → Hub → Option Hub
user_changed shown now owner user kind h =
    let ev : Event = record { kind = kind; user_id = user; rm_id = 0; sent_at = now } in
    tell_rm shown ev (owner_named owner)
      (then_publish topic_admin ev (publish (topic_user shown user) ev h))

-- `AssignmentChanged`
unfoldable pub assignment_changed : (ℕ → Text) → ℕ → ℕ → Option ℕ → Option ℕ → Hub → Option Hub
assignment_changed shown now user old_rm new_rm h =
    let ev : Event = record {
      kind = lit "client_assigned";
      user_id = user;
      rm_id = 0;
      sent_at = now;
    } in
    then_publish (topic_user shown user) ev
      (tell_rm shown ev new_rm (tell_rm shown ev old_rm (publish topic_admin ev h)))
