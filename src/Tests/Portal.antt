-- ===== src/Tests/Portal.antt =====
-- The hub of the RM portal and the blocklist on small data.
use astra_backend.Prelude.{
  refl, Option, ◌||◌, ◌==◌, if◌then◌else◌, trim_space, ℕ, ◌≡◌, true, not, ◌&&◌, some, List, [], ◌∷◌,
  Text, lit, text_eq, change, map,
}
use astra_backend.Blocklist.{strip_port, block_ips, new_ip_blocklist, serve, forbidden}
use astra_backend.Blocklist.Entries.{names, lists, env_lists, verdict, serve-eq_lists}
use astra_backend.Hub.{
  Event, Hub, answer, owner_named, topic_user, publish, user_changed, subscribe, new_hub,
}
use astra_backend.Hub.Topics.{IsSound, hears, publish-eq}
use astra_backend.Hub.Listing.{subscribe-IsSound}
use astra_backend.Hub.Fan.{heard, user_changed-eq}
use astra_backend.Hub.Listing.{Works}
use astra_backend.Hub.Runs.{
  new_hub-IsSound, subscribing, cancelling, publishing, receiving, Op, perform_all,
  perform_all-Works,
}

abbrev shown : ℕ → Text
shown n = n ∷ []

abbrev changed : Event
changed = record { kind = lit "transaction"; user_id = 7; rm_id = 0; sent_at = 100 }

-- One open channel, on the topic of user 7.
abbrev hub : Hub
hub = (subscribe (topic_user shown 7) new_hub).0

hub-IsSound : IsSound hub
hub-IsSound = subscribe-IsSound (topic_user shown 7) new_hub new_hub-IsSound

publish-eq_example :
    publish (topic_user shown 7) changed hub
    ≡ some (record hub {
      channels =
          change
            (λ c. not c.closed && text_eq (topic_user shown 7) c.topic)
            (hears changed)
            hub.channels;
    })
publish-eq_example = publish-eq (topic_user shown 7) changed hub hub-IsSound

user_changed-eq_example :
    user_changed shown 100 (some (answer (some 3) true)) 7 (lit "transaction") hub
    ≡ some (record hub {
      channels = map (heard shown changed (owner_named (some (answer (some 3) true)))) hub.channels;
    })
user_changed-eq_example =
    user_changed-eq shown 100 (some (answer (some 3) true)) 7 (lit "transaction") hub hub-IsSound

abbrev calls : List Op
calls =
    subscribing (lit "admin")
    ∷ cancelling 0
    ∷ publishing (lit "admin") changed
    ∷ cancelling 0
    ∷ receiving 0
    ∷ []

perform_all-Works_example : Works (perform_all calls new_hub)
perform_all-Works_example = perform_all-Works calls

-- Text up to the first colon.
abbrev before_colon : Text → Text
before_colon [] = []
before_colon (c ∷ s) = if c == b':' then [] else c ∷ before_colon s

abbrev split_host_port : Text → Option Text
split_host_port addr = some (before_colon addr)

-- One address of BLOCKED_IPS, with a space in front, from some port.
turned_away :
    serve split_host_port
      (block_ips [] (new_ip_blocklist (lit "10.0.0.1" ∷ []) (lit "10.0.0.2, 10.0.0.3")))
      (lit "10.0.0.3:4000")
    ≡ forbidden
unfolding serve block_ips new_ip_blocklist text_eq trim_space
turned_away = refl

serve-eq_lists_example :
    serve split_host_port
      (block_ips (lit "10.0.0.9" ∷ []) (new_ip_blocklist (lit "10.0.0.1" ∷ []) (lit "10.0.0.2")))
      (lit "10.0.0.9:4000")
    ≡ verdict (
        names (strip_port split_host_port (lit "10.0.0.9:4000")) (lit "10.0.0.9" ∷ [])
        || (env_lists (strip_port split_host_port (lit "10.0.0.9:4000")) (lit "10.0.0.2")
            || lists (strip_port split_host_port (lit "10.0.0.9:4000")) (lit "10.0.0.1" ∷ [])))
serve-eq_lists_example =
    serve-eq_lists split_host_port (lit "10.0.0.1" ∷ []) (lit "10.0.0.9" ∷ []) (lit "10.0.0.2")
      (lit "10.0.0.9:4000")
