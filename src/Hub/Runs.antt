-- ===== src/Hub/Runs.antt =====
-- internal/events/hub.go: any sequence of its calls.
use astra_backend.Prelude.{
  ℕ, ◌≤◌, refl, Option, none, some, List, [], ◌∷◌, arith, Text, ◌==◌, length, change, All,
  All-change,
}
use astra_backend.Hub.{
  Event, Channel, Hub, new_hub, buffer, rest_of, subscribe, cancel, publish, receive,
}
use astra_backend.Hub.Topics.{
  Agrees, IsGuarded, IsSound, publish-eq, published-IsSound, change-Below,
}
use astra_backend.Hub.Listing.{Works, subscribe-IsSound, cancel-Works}

-- What the users of a hub may do, in any order.
pub data Op : Type 0 where
  subscribing : Text → Op
  cancelling : ℕ → Op
  publishing : Text → Event → Op
  receiving : ℕ → Op

unfoldable pub perform : Op → Hub → Option Hub
perform (subscribing topic) h = some (subscribe topic h).0
perform (cancelling id) h = cancel id h
perform (publishing topic ev) h = publish topic ev h
perform (receiving id) h = some (receive id h)

unfoldable pub perform_all : List Op → Hub → Option Hub
unfolding perform
perform_all [] h = some h
perform_all (op ∷ rest) h = elim (perform op h) [ none ↦ none | some h' ↦ perform_all rest h' ]

length-rest_of : (queue : List Event) → length (rest_of queue) ≤ length queue
length-rest_of [] = omega arith
length-rest_of (ev ∷ rest) = omega arith

module _ (id : ℕ) where
  taken-bounded :
      (channels : List Channel)
      → All (λ (c : Channel). length c.queue ≤ buffer) channels
      → All
          (λ (c : Channel). length c.queue ≤ buffer)
          (change
            (λ (c : Channel). c.id == id)
            (λ c. record c { queue = rest_of c.queue })
            channels)
  taken-bounded [] b = tt
  taken-bounded (c ∷ rest) b = (ground (arith, b.0, length-rest_of c.queue), taken-bounded rest b.1)

  taken-Agrees :
      (subs : Text → Option (List ℕ)) (channels : List Channel)
      → All (Agrees subs) channels
      → All (Agrees subs) (
          change (λ (c : Channel). c.id == id) (λ c. record c { queue = rest_of c.queue }) channels)
  taken-Agrees subs [] a = tt
  taken-Agrees subs (c ∷ rest) a = ((λ t. ground (arith, a.0 t)), taken-Agrees subs rest a.1)

  receive-IsSound : (h : Hub) → IsSound h → IsSound (receive id h)
  unfolding receive
  receive-IsSound h s = record {
    fresh =
        change-Below _ (λ c. record c { queue = rest_of c.queue }) (λ c. (refl, refl)) h.next_id
          h.channels s.fresh;
    known = s.known;
    agrees = taken-Agrees h.subs h.channels s.agrees;
    guarded =
        All-change _ (λ c. record c { queue = rest_of c.queue }) IsGuarded h.channels (λ c e g. g)
          s.guarded;
    bounded = taken-bounded h.channels s.bounded;
  }

pub new_hub-IsSound : IsSound new_hub
unfolding new_hub
new_hub-IsSound = record { fresh = tt; known = λ t. tt; agrees = tt; guarded = tt; bounded = tt }

perform-Works : (op : Op) (h : Hub) → IsSound h → Works (perform op h)
unfolding perform
perform-Works (subscribing topic) h s = (_, refl, subscribe-IsSound topic h s)
perform-Works (cancelling id) h s = cancel-Works id h s
perform-Works (publishing topic ev) h s =
    (_, publish-eq topic ev h s, published-IsSound topic ev h s)
perform-Works (receiving id) h s = (_, refl, receive-IsSound id h s)

perform_all-Works_from : (ops : List Op) (h : Hub) → IsSound h → Works (perform_all ops h)
unfolding perform_all
perform_all-Works_from [] h s = (h, refl, s)
perform_all-Works_from (op ∷ rest) h s =
    let one = perform-Works op h s in
    let later = perform_all-Works_from rest one.0 one.2 in
    (later.0, ground (arith, one.1, later.1), later.2)

-- No sequence of subscriptions, cancellations (repeated ones too), publications and reads makes the
-- hub panic: it never sends on a closed channel, and never closes one again. Every buffer keeps within its 16 events, and an open
-- channel stands in the set of its own topic and in no other.
pub perform_all-Works : (ops : List Op) → Works (perform_all ops new_hub)
perform_all-Works ops = perform_all-Works_from ops new_hub new_hub-IsSound
