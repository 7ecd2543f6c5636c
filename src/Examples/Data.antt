-- ===== src/Examples/Data.antt =====
-- Blobs, facts and presence on the sample room.
use parler_protocol.Prelude.{
  Option, find, if◌then◌else◌, ◌-◌, Text, codes, ◌==◌, ◌≡◌, ◌&&◌, ◌||◌, not, any, count, arith,
  none, some,
}
use parler_protocol.Examples.{den, ann, bob, hub}
use parler_protocol.Store.Tables.{Store, BlobRow, AgentRow, PresenceRow, is_fresh}
use parler_protocol.Store.Presence.{touch_presence}
use parler_protocol.Store.Presence.Liveness.{roster_entry-touch_presence}
use parler_protocol.Store.Rooms.{is_member, roster_entry}
use parler_protocol.Store.Blobs.{put_blob_meta, blob_readable_by, is_idle, gc_blobs}
use parler_protocol.Store.Blobs.Access.{blob_readable_by-put_blob_meta, blob_readable_by-gc_blobs}
use parler_protocol.Store.Facts.{Fact, remember}
use parler_protocol.Store.Facts.Keyed.{IsUnique, remember-IsUnique}

abbrev plan : Text
plan = codes "b1"

blob_readable_by-put_blob_meta_example :
    blob_readable_by plan bob (put_blob_meta plan den ann none 10 5 hub)
    ≡ blob_readable_by plan bob hub || is_member den bob hub
blob_readable_by-put_blob_meta_example =
    blob_readable_by-put_blob_meta plan den ann none 10 5 bob hub

blob_readable_by-gc_blobs_example :
    blob_readable_by plan bob (gc_blobs 10 100 (put_blob_meta plan den ann none 10 5 hub)).1
    ≡ blob_readable_by plan bob (put_blob_meta plan den ann none 10 5 hub)
      && not (
          any
            (λ (b : BlobRow). (b.id == plan) && is_idle (100 - 10) b)
            (put_blob_meta plan den ann none 10 5 hub).blobs)
blob_readable_by-gc_blobs_example =
    blob_readable_by-gc_blobs 10 100 plan bob (put_blob_meta plan den ann none 10 5 hub)

abbrev color : Fact
color = record { key = some (codes "color"); text = codes "red"; room = some den }

hub-IsUnique : IsUnique hub.facts
unfolding count
hub-IsUnique a r k = omega arith

remember-IsUnique_example : IsUnique (remember ann color 5 none none hub).1.facts
remember-IsUnique_example = remember-IsUnique ann color 5 none none hub hub-IsUnique

abbrev bobs_row : AgentRow
bobs_row = record { id = bob; name = codes "Bob"; role = none; first_seen = 1; last_seen = 1 }

abbrev presence_row : Store → Option PresenceRow
presence_row s = find (λ (p : PresenceRow). p.agent == bob) s.presence

roster_entry-touch_presence_example :
    ((roster_entry 30 bobs_row
        (presence_row (touch_presence bob (codes "working") none none 20 hub))
        none).status
      ≡ (if is_fresh 30 20 then codes "working" else codes "offline"))
    × ((roster_entry 30 bobs_row
          (presence_row (touch_presence bob (codes "working") none none 20 hub))
          none).last_seen
        ≡ 20)
    × ((roster_entry 30 bobs_row
          (presence_row (touch_presence bob (codes "working") none none 20 hub))
          none).activity
        ≡ none)
roster_entry-touch_presence_example =
    roster_entry-touch_presence bobs_row none (codes "working") none none 20 30 hub
