-- ===== src/Server/Janitor/Floor.antt =====
-- crates/parler-hub/src/server.rs, `janitor_pass`: the messages a pass leaves in place.
use parler_protocol.Prelude.{
  ℕ, ◌-◌, Text, ◌==◌, ◌≡◌, refl, Bool, true, Option, none, some, List, [], ◌∷◌, leb, take, reverse,
  select, ◌∙◌,
}
use parler_protocol.Store.Tables.{Store, MessageRow, BlobRow}
use parler_protocol.Store.Retention.{prune_messages, sweep_expired, prune_facts}
use parler_protocol.Store.Retention.Pruning.{prune_messages-keeps}
use parler_protocol.Store.Blobs.{gc_blobs, is_idle}
use parler_protocol.Store.Messages.Delivery.{IsLog}
use parler_protocol.Server.Janitor.{Retention, janitor_pass, aged, trimmed, collected}

-- Whether a message is younger than the retention time, if there is one.
unfoldable pub is_young : Option ℕ → ℕ → MessageRow → Bool
is_young none now m = true
is_young (some age) now m = leb (now - age) m.ts

gc_blobs-messages : (ttl_ms now : ℕ) (s : Store) → (gc_blobs ttl_ms now s).1.messages ≡ s.messages
unfolding gc_blobs
gc_blobs-messages ttl_ms now s = go (select (is_idle (now - ttl_ms)) s.blobs) refl
  where
    go :
        (ids : List BlobRow)
        → select (is_idle (now - ttl_ms)) s.blobs ≡ ids
        → (gc_blobs ttl_ms now s).1.messages ≡ s.messages
    go [] e = rw (e, gc_blobs) refl
    go (b ∷ bs) e = rw (e, gc_blobs) refl

collected-messages :
    (idle : Option ℕ) (now : ℕ) (s : Store) → (collected idle now s).1.messages ≡ s.messages
unfolding collected
collected-messages none now s = refl
collected-messages (some idle) now s = gc_blobs-messages idle now s

trimmed-messages : (keep : Option ℕ) (s : Store) → (trimmed keep s).messages ≡ s.messages
unfolding trimmed prune_facts
trimmed-messages none s = refl
trimmed-messages (some keep) s = refl

aged-sweep_expired :
    (age : Option ℕ) (keep now : ℕ) (s : Store)
    → (aged age keep now (sweep_expired now s).1).messages ≡ (aged age keep now s).messages
unfolding aged sweep_expired prune_messages
aged-sweep_expired none keep now s = refl
aged-sweep_expired (some age) keep now s = refl

-- Only the step on messages changes them.
janitor_pass-messages :
    (r : Retention) (now : ℕ) (s : Store)
    → (janitor_pass r now s).1.messages
      ≡ (aged r.message_max_age r.keep_messages_per_room now s).messages
unfolding janitor_pass
janitor_pass-messages r now s =
    collected-messages r.blob_max_idle now _
    ∙ trimmed-messages r.keep_unkeyed_facts _
    ∙ aged-sweep_expired r.message_max_age r.keep_messages_per_room now s

aged-keeps :
    (age : Option ℕ) (keep now : ℕ) (room : Text) (s : Store)
    → IsLog s
    → (take keep (reverse (select (λ m. m.room == room) (aged age keep now s).messages))
        ≡ take keep (reverse (select (λ m. m.room == room) s.messages)))
      × (select (is_young age now) (aged age keep now s).messages
          ≡ select (is_young age now) s.messages)
unfolding aged is_young
aged-keeps none keep now room s g = (refl, refl)
aged-keeps (some age) keep now room s g = prune_messages-keeps age keep now room s g

-- Over a log in order, a pass of the janitor keeps the newest `keep_messages_per_room` messages of
-- every room, in order, and every message that is not older than the retention time: all of them
-- where there is none.
pub janitor_pass-keeps :
    (r : Retention) (now : ℕ) (room : Text) (s : Store)
    → IsLog s
    → (take r.keep_messages_per_room
          (reverse (select (λ m. m.room == room) (janitor_pass r now s).1.messages))
        ≡ take r.keep_messages_per_room (reverse (select (λ m. m.room == room) s.messages)))
      × (select (is_young r.message_max_age now) (janitor_pass r now s).1.messages
          ≡ select (is_young r.message_max_age now) s.messages)
janitor_pass-keeps r now room s g =
    rw (janitor_pass-messages r now s)
      (aged-keeps r.message_max_age r.keep_messages_per_room now room s g)
