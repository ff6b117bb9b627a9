-- ===== src/Hub/Fan.antt =====
-- internal/events/hub.go: who hears of a change, and that no sequence of calls panics.
use astra_backend.Prelude.{
  ℕ, ◌≡◌, refl, sym, ap, ap₂, ◌∙◌, inl, inr, true, false, not, ◌&&◌, Option, none, some, List, [],
  ◌∷◌, arith, Text, text_eq, text_eq_iff, if◌then◌else◌, map, change, Bool-cases,
}
use astra_backend.Hub.{
  Event, Channel, Hub, publish, topic_admin, topic_user, topic_rm, then_publish, Owner, owner_named,
  tell_rm, user_changed,
}
use astra_backend.Hub.Topics.{IsSound, hears, published, publish-eq, published-IsSound}

apart : (t u x : Text) → text_eq t u ≡ false → text_eq t x ≡ true → text_eq u x ≡ false
apart t u x ne e = elim (Bool-cases (text_eq u x)) [
  | inl f ↦
      absurd
        (ground (arith, (text_eq_iff t u).1 ((text_eq_iff t x).0 e ∙ sym ((text_eq_iff u x).0 f))))
  | inr f ↦ f
]

-- What a channel hears of a change of a user: the event on the user's or the admins' topic, and on
-- the topic of their RM the same event with the RM's id; each channel at most one of them.
unfoldable pub heard : (ℕ → Text) → Event → Option ℕ → Channel → Channel
heard shown ev rm c =
    if c.closed
    then c
    else (if text_eq (topic_user shown ev.user_id) c.topic
        then hears ev c
        else (if text_eq topic_admin c.topic then hears ev c else heard_by_rm rm))
  where
    heard_by_rm : Option ℕ → Channel
    heard_by_rm none = c
    heard_by_rm (some r) =
        if text_eq (topic_rm shown r) c.topic then hears (record ev { rm_id = r }) c else c

-- What a channel hears of an event on the topic `t`.
on_topic : Text → Event → Channel → Channel
on_topic t ev c = if not c.closed && text_eq t c.topic then hears ev c else c

hears_same :
    (ev : Event) (c : Channel) → ((hears ev c).topic ≡ c.topic) × ((hears ev c).closed ≡ c.closed)
unfolding hears
hears_same ev c = ground arith

module _ (shown : ℕ → Text) (ev : Event) where
  pair_heard :
      (c : Channel)
      → on_topic topic_admin ev (on_topic (topic_user shown ev.user_id) ev c)
        ≡ heard shown ev none c
  unfolding heard on_topic text_eq
  pair_heard c =
      ground (arith, hears_same ev c, apart (topic_user shown ev.user_id) topic_admin c.topic refl)

  triple_heard :
      (rm : ℕ) (c : Channel)
      → on_topic (topic_rm shown rm) (record ev { rm_id = rm }) (heard shown ev none c)
        ≡ heard shown ev (some rm) c
  unfolding heard on_topic text_eq
  triple_heard rm c = ground (
    arith,
    hears_same ev c,
    apart (topic_user shown ev.user_id) (topic_rm shown rm) c.topic refl,
    apart topic_admin (topic_rm shown rm) c.topic refl,
  )

  all_heard :
      (channels : List Channel)
      → change
          (λ c. not c.closed && text_eq topic_admin c.topic)
          (hears ev)
          (change
            (λ c. not c.closed && text_eq (topic_user shown ev.user_id) c.topic)
            (hears ev)
            channels)
        ≡ map (heard shown ev none) channels
  unfolding on_topic
  all_heard [] = refl
  all_heard (c ∷ rest) = ap₂ ◌∷◌ (pair_heard c) (all_heard rest)

  rm_heard :
      (rm : ℕ) (channels : List Channel)
      → change
          (λ c. not c.closed && text_eq (topic_rm shown rm) c.topic)
          (hears (record ev { rm_id = rm }))
          (map (heard shown ev none) channels)
        ≡ map (heard shown ev (some rm)) channels
  unfolding on_topic
  rm_heard rm [] = refl
  rm_heard rm (c ∷ rest) = ap₂ ◌∷◌ (triple_heard rm c) (rm_heard rm rest)

  told :
      (h : Hub)
      → IsSound h
      → then_publish topic_admin ev (publish (topic_user shown ev.user_id) ev h)
        ≡ some (record h { channels = map (heard shown ev none) h.channels })
  told h s =
      let first_one = published (topic_user shown ev.user_id) ev h in
      ap (then_publish topic_admin ev) (publish-eq (topic_user shown ev.user_id) ev h s)
      ∙ publish-eq topic_admin ev first_one (published-IsSound (topic_user shown ev.user_id) ev h s)
      ∙ ap (λ (cs : List Channel). some (record h { channels = cs })) (all_heard h.channels)

  told_rm :
      (rm : Option ℕ) (h : Hub)
      → IsSound h
      → tell_rm shown ev rm
          (then_publish topic_admin ev (publish (topic_user shown ev.user_id) ev h))
        ≡ some (record h { channels = map (heard shown ev rm) h.channels })
  told_rm none h s = told h s
  told_rm (some rm) h s =
      let both = published topic_admin ev (published (topic_user shown ev.user_id) ev h) in
      let sound =
        published-IsSound topic_admin ev (published (topic_user shown ev.user_id) ev h)
          (published-IsSound (topic_user shown ev.user_id) ev h s) in
      ap (then_publish (topic_rm shown rm) (record ev { rm_id = rm })) (
        told h s
        ∙ ap (λ (cs : List Channel). some (record h { channels = cs }))
            (sym (all_heard h.channels)))
      ∙ publish-eq (topic_rm shown rm) (record ev { rm_id = rm }) both sound
      ∙ ap (λ (cs : List Channel). some (record h { channels = cs }))
          (ap
              (change (λ c. not c.closed && text_eq (topic_rm shown rm) c.topic)
                (hears (record ev { rm_id = rm })))
              (all_heard h.channels)
            ∙ rm_heard rm h.channels)

-- A change of a user reaches, on a sound hub, the open channels on the topic of the user, on that of
-- the admins and on that of the RM whom the lookup names, if it names one: each hears one event, if
-- its buffer has room, and no other channel hears anything.
pub user_changed-eq :
    (shown : ℕ → Text) (now : ℕ) (owner : Option Owner) (user : ℕ) (kind : Text) (h : Hub)
    → IsSound h
    → user_changed shown now owner user kind h
      ≡ some (record h {
        channels =
            map
              (heard shown
                (record { kind = kind; user_id = user; rm_id = 0; sent_at = now })
                (owner_named owner))
              h.channels;
      })
unfolding user_changed
user_changed-eq shown now owner user kind h s =
    told_rm shown (record { kind = kind; user_id = user; rm_id = 0; sent_at = now })
      (owner_named owner) h s
