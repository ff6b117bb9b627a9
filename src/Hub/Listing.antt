-- ===== src/Hub/Listing.antt =====
-- internal/events/hub.go: Subscribe and its cancel function keep the map and the channels in step.
use astra_backend.Prelude.{
  ℕ, ◌+◌, ◌≤◌, ◌<◌, ◌≡◌, refl, sym, ap, subst, ◌∙◌, inl, inr, Bool, true, false, not, ◌&&◌, Option,
  none, some, List, [], ◌∷◌, arith, Text, text_eq, text_eq_iff, ◌==◌, if◌then◌else◌, length, first,
  first-some, Has, change, select, All, All-Has, All-map, All-change, ◌⊎◌, Bool-cases,
}
use astra_backend.Hub.{
  Channel, Hub, buffer, listed, is_listed, subscribe, entry, release, shut, cancel,
}
use astra_backend.Hub.Topics.{Below, Agrees, IsGuarded, IsSound, change-Below}

Below-All :
    (n : ℕ) (channels : List Channel) → Below n channels → All (λ (c : Channel). c.id < n) channels
Below-All n [] b = tt
Below-All n (c ∷ rest) b = (
  b.0,
  All-map (λ (d : Channel). d.id < c.id) _ rest (λ d lt. omega (arith, b.0))
      (Below-All c.id rest b.1),
)

not_listed : (i : ℕ) (ids : List ℕ) → All (λ (j : ℕ). j < i) ids → is_listed i ids ≡ false
not_listed i [] h = refl
not_listed i (j ∷ ids) h = ground (arith, h.0, not_listed i ids h.1)

known_on : (n : ℕ) (ids : List ℕ) → All (λ (i : ℕ). i < n) ids → All (λ (i : ℕ). i < n + 1) ids
known_on n ids = All-map _ _ ids (λ i lt. omega arith)

if_listed :
    (n : ℕ) (b : Bool) (o p : Option (List ℕ))
    → All (λ (i : ℕ). i < n) (listed o)
    → All (λ (i : ℕ). i < n) (listed p)
    → All (λ (i : ℕ). i < n) (listed (if b then o else p))
if_listed n true o p ho hp = ho
if_listed n false o p ho hp = hp

module _ (topic : Text) (h : Hub) where
  is_listed-subscribe :
      (t : Text) (i : ℕ)
      → i < h.next_id
      → is_listed i (listed ((subscribe topic h).0.subs t)) ≡ is_listed i (listed (h.subs t))
  unfolding subscribe
  is_listed-subscribe t i lt = elim (Bool-cases (text_eq t topic)) [
    | inl e ↦
        let same : t ≡ topic = (text_eq_iff t topic).0 e in
        ground (arith, e, ap (λ (u : Text). is_listed i (listed (h.subs u))) same)
    | inr e ↦ ground (arith, e)
  ]

  subscribe-Agrees :
      (channels : List Channel)
      → All (λ (c : Channel). c.id < h.next_id) channels
      → All (Agrees h.subs) channels
      → All (Agrees (subscribe topic h).0.subs) channels
  subscribe-Agrees [] b a = tt
  subscribe-Agrees (c ∷ rest) b a =
      ((λ t. is_listed-subscribe t c.id b.0 ∙ a.0 t), subscribe-Agrees rest b.1 a.1)

  pub subscribe-IsSound : IsSound h → IsSound (subscribe topic h).0
  unfolding subscribe
  subscribe-IsSound s = record {
    fresh = (omega arith, s.fresh);
    known = known';
    agrees = (own, subscribe-Agrees h.channels (Below-All h.next_id h.channels s.fresh) s.agrees);
    guarded = (refl, s.guarded);
    bounded = (omega arith, s.bounded);
  }
    where
      known' :
          (t : Text)
          → All
              (λ (i : ℕ). i < h.next_id + 1)
              (listed
                (if text_eq t topic then some (h.next_id ∷ listed (h.subs topic)) else h.subs t))
      known' t =
          if_listed (h.next_id + 1) (text_eq t topic) (some (h.next_id ∷ listed (h.subs topic)))
            (h.subs t) (omega arith, known_on h.next_id (listed (h.subs topic)) (s.known topic))
            (known_on h.next_id (listed (h.subs t)) (s.known t))

      own :
          (t : Text)
          → is_listed h.next_id (
              listed
                (if text_eq t topic then some (h.next_id ∷ listed (h.subs topic)) else h.subs t))
            ≡ text_eq t topic
      own t = ground (arith, not_listed h.next_id (listed (h.subs t)) (s.known t))

is_listed-select :
    (i k : ℕ) (ids : List ℕ)
    → is_listed i (select (λ j. not (j == k)) ids) ≡ (is_listed i ids && not (i == k))
is_listed-select i k [] = refl
is_listed-select i k (j ∷ ids) = ground (arith, is_listed-select i k ids)

listed-entry : (ids : List ℕ) → listed (entry ids) ≡ ids
listed-entry [] = refl
listed-entry (i ∷ ids) = refl

select-known :
    (n k : ℕ) (ids : List ℕ)
    → All (λ (i : ℕ). i < n) ids
    → All (λ (i : ℕ). i < n) (select (λ j. not (j == k)) ids)
select-known n k [] h = tt
select-known n k (j ∷ ids) h = ground (arith, h.0, select-known n k ids h.1)

-- The hub behind the body of `once.Do` that does not panic.
abbrev released : Channel → Hub → Hub
released c h = record h {
  subs = λ t.
      if text_eq t c.topic
      then entry (select (λ i. not (i == c.id)) (listed (h.subs c.topic)))
      else h.subs t;
  channels = change (λ (d : Channel). d.id == c.id) shut h.channels;
}

module _ (c : Channel) (h : Hub) where
  is_listed-released :
      (t : Text) (i : ℕ)
      → is_listed i (listed ((released c h).subs t))
        ≡ (is_listed i (listed (h.subs t)) && not (text_eq t c.topic && (i == c.id)))
  is_listed-released t i = elim (Bool-cases (text_eq t c.topic)) [
    | inl e ↦
        let same : t ≡ c.topic = (text_eq_iff t c.topic).0 e in
        ground (
          arith,
          e,
          ap (λ (u : Text). is_listed i (listed (h.subs u))) same,
          listed-entry (select (λ j. not (j == c.id)) (listed (h.subs c.topic))),
          is_listed-select i c.id (listed (h.subs c.topic)),
        )
    | inr e ↦ ground (arith, e)
  ]

  -- The channel that is closed is listed nowhere, and the others where they were.
  released-Agrees :
      (channels : List Channel)
      → Agrees h.subs c
      → All (Agrees h.subs) channels
      → All (Agrees (released c h).subs) (change (λ (d : Channel). d.id == c.id) shut channels)
  released-Agrees [] mine a = tt
  released-Agrees (d ∷ rest) mine a =
      ((λ t. on t (Bool-cases (d.id == c.id))), released-Agrees rest mine a.1)
    where
      on :
          (t : Text)
          → ((d.id == c.id) ≡ true) ⊎ ((d.id == c.id) ≡ false)
          → is_listed (if d.id == c.id then shut d else d).id (listed ((released c h).subs t)) ≡ (
              not (if d.id == c.id then shut d else d).closed
              && text_eq t (if d.id == c.id then shut d else d).topic)
      on t (inl e) =
          let same : d.id ≡ c.id = ground arith in
          ground (
            arith,
            e,
            is_listed-released t d.id,
            mine t,
            ap (λ (i : ℕ). is_listed i (listed (h.subs t))) same,
          )
      on t (inr e) = ground (arith, e, is_listed-released t d.id, a.0 t)

  closed-bounded :
      (channels : List Channel)
      → All (λ (d : Channel). length d.queue ≤ buffer) channels
      → All
          (λ (d : Channel). length d.queue ≤ buffer)
          (change (λ (d : Channel). d.id == c.id) shut channels)
  closed-bounded [] b = tt
  closed-bounded (d ∷ rest) b = (ground (arith, b.0), closed-bounded rest b.1)

  released-IsSound : Agrees h.subs c → IsSound h → IsSound (released c h)
  released-IsSound mine s = record {
    fresh = change-Below _ shut (λ d. (refl, refl)) h.next_id h.channels s.fresh;
    known = λ t.
        if_listed h.next_id (text_eq t c.topic) _ (h.subs t)
          (subst (All (λ (i : ℕ). i < h.next_id)) (sym (listed-entry _))
            (select-known h.next_id c.id (listed (h.subs c.topic)) (s.known c.topic)))
          (s.known t);
    agrees = released-Agrees h.channels mine s.agrees;
    guarded = All-change _ shut IsGuarded h.channels (λ d e g. refl) s.guarded;
    bounded = closed-bounded h.channels s.bounded;
  }

-- A sound hub, which is not a panic.
abbrev pub Works : Option Hub → Type 0
Works o = (h : Hub) × (o ≡ some h) × IsSound h

-- The body of `once.Do` for a channel whose sync.Once is not spent.
release-Works :
    (c : Channel) (h : Hub)
    → IsGuarded c
    → c.once ≡ false
    → Agrees h.subs c
    → IsSound h
    → Works (release c h)
unfolding release
release-Works c h guarded unspent mine s =
    (released c h, ground (arith, guarded, unspent), released-IsSound c h mine s)

pub cancel-Works : (id : ℕ) (h : Hub) → IsSound h → Works (cancel id h)
unfolding cancel
cancel-Works id h s = found (first (λ (c : Channel). c.id == id) h.channels) refl
  where
    found :
        (o : Option Channel)
        → first (λ (c : Channel). c.id == id) h.channels ≡ o
        → Works (elim o [
          | none ↦ some h
          | some c ↦ elim c.once [ true ↦ some h | false ↦ release c h ]
        ])
    found none e = (h, refl, s)
    found (some c) e = once c.once refl
      where
        there : Has c h.channels
        there = (first-some (λ (d : Channel). d.id == id) h.channels c e).0

        once : (b : Bool) → c.once ≡ b → Works (elim b [ true ↦ some h | false ↦ release c h ])
        once true unspent = (h, refl, s)
        once false unspent =
            release-Works c h (All-Has IsGuarded h.channels c s.guarded there) unspent
              (All-Has (Agrees h.subs) h.channels c s.agrees there) s
