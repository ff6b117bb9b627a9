-- ===== src/Hub/Topics.antt =====
-- internal/events/hub.go: the map of topics against the channels' own topics.
use astra_backend.Prelude.{
  ℕ, ◌≤◌, ◌<◌, ◌≡◌, refl, sym, subst, Bool, not, ◌&&◌, Option, some, List, [], ◌∷◌, ◌++◌, arith,
  Text, text_eq, ltb, if◌then◌else◌, length, length-append, change, All, All-change,
}
use astra_backend.Hub.{Event, Channel, Hub, buffer, listed, is_listed, offer, fan_out, publish}

-- The channels are numbered in the order in which they are made.
abbrev pub Below : ℕ → List Channel → Type 0
Below n [] = Unit
Below n (c ∷ rest) = (c.id < n) × Below c.id rest

-- A channel stands in the set of its own topic until it is closed, and in no other.
abbrev pub Agrees : (Text → Option (List ℕ)) → Channel → Type 0
Agrees subs c = (t : Text) → is_listed c.id (listed (subs t)) ≡ (not c.closed && text_eq t c.topic)

-- The sync.Once of a channel is spent exactly if the channel is closed.
abbrev pub IsGuarded : Channel → Type 0
IsGuarded c = c.once ≡ c.closed

pub record IsSound (h : Hub) : Type 0 where
  pub fresh : Below h.next_id h.channels
  pub known : (t : Text) → All (λ (i : ℕ). i < h.next_id) (listed (h.subs t))
  pub agrees : All (Agrees h.subs) h.channels
  pub guarded : All IsGuarded h.channels
  pub bounded : All (λ (c : Channel). length c.queue ≤ buffer) h.channels

-- What a channel hears of an event: room for it, or nothing.
unfoldable pub hears : Event → Channel → Channel
hears ev c = if ltb (length c.queue) buffer then record c { queue = c.queue ++ ev ∷ [] } else c

-- What an open channel hears of an event on its own topic.
unfoldable pub hears_on : Text → Event → Channel → Channel
unfolding hears
hears_on t ev c = if not c.closed && text_eq t c.topic then hears ev c else c

fan_out-eq :
    (subs : Text → Option (List ℕ)) (t : Text) (ev : Event) (channels : List Channel)
    → All (Agrees subs) channels
    → fan_out (listed (subs t)) ev channels
      ≡ some (change (λ c. not c.closed && text_eq t c.topic) (hears ev) channels)
unfolding fan_out offer hears
fan_out-eq subs t ev [] h = refl
fan_out-eq subs t ev (c ∷ rest) h = ground (arith, h.0 t, fan_out-eq subs t ev rest h.1)

-- On a sound hub a publication reaches exactly the open channels of the topic, each as far as its
-- buffer has room, and never sends on a closed one.
pub publish-eq :
    (t : Text) (ev : Event) (h : Hub)
    → IsSound h
    → publish t ev h
      ≡ some (record h {
        channels = change (λ c. not c.closed && text_eq t c.topic) (hears ev) h.channels;
      })
unfolding publish
publish-eq t ev h s = ground (arith, fan_out-eq h.subs t ev h.channels s.agrees)

module _ (p : Channel → Bool) (f : Channel → Channel)
    (same : (c : Channel) → ((f c).id ≡ c.id) × ((f c).topic ≡ c.topic)) where
  pub change-Below :
      (n : ℕ) (channels : List Channel) → Below n channels → Below n (change p f channels)
  change-Below n [] b = tt
  change-Below n (c ∷ rest) b = (
    subst (λ (id : ℕ). id < n) (sym kept) b.0,
    subst (λ (id : ℕ). Below id (change p f rest)) (sym kept) (change-Below c.id rest b.1),
  )
    where
      kept : (if p c then f c else c).id ≡ c.id
      kept = ground (arith, (same c).0)

hears-bounded :
    (t : Text) (ev : Event) (channels : List Channel)
    → All (λ (c : Channel). length c.queue ≤ buffer) channels
    → All
        (λ (c : Channel). length c.queue ≤ buffer)
        (change (λ c. not c.closed && text_eq t c.topic) (hears ev) channels)
unfolding hears
hears-bounded t ev [] h = tt
hears-bounded t ev (c ∷ rest) h =
    (ground (arith, h.0, length-append c.queue (ev ∷ [])), hears-bounded t ev rest h.1)

hears-Agrees :
    (subs : Text → Option (List ℕ)) (t : Text) (ev : Event) (channels : List Channel)
    → All (Agrees subs) channels
    → All (Agrees subs) (change (λ c. not c.closed && text_eq t c.topic) (hears ev) channels)
unfolding hears
hears-Agrees subs t ev [] h = tt
hears-Agrees subs t ev (c ∷ rest) h =
    ((λ t'. ground (arith, h.0 t')), hears-Agrees subs t ev rest h.1)

-- The hub after a publication.
abbrev pub published : Text → Event → Hub → Hub
published t ev h = record h {
  channels = change (λ c. not c.closed && text_eq t c.topic) (hears ev) h.channels;
}

pub published-IsSound : (t : Text) (ev : Event) (h : Hub) → IsSound h → IsSound (published t ev h)
unfolding hears
published-IsSound t ev h s = record {
  fresh =
      change-Below _ (hears ev) (λ c. (ground arith, ground arith)) h.next_id h.channels s.fresh;
  known = s.known;
  agrees = hears-Agrees h.subs t ev h.channels s.agrees;
  guarded = All-change _ (hears ev) IsGuarded h.channels (λ c e g. ground (arith, g)) s.guarded;
  bounded = hears-bounded t ev h.channels s.bounded;
}
