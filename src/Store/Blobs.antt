-- ===== src/Store/Blobs.antt =====
-- crates/parler-hub/src/store.rs, "blobs": what may be fetched, by whom, and until when.
pub mod Access
use parler_protocol.Prelude.{
  ℕ, ◌+◌, ◌-◌, Text, ◌==◌, Bool, ◌&&◌, Option, none, some, unwrap_or, List, [], ◌∷◌, map, ltb,
  if◌then◌else◌, select, delete, update, find, any, count, insert_or_ignore,
}
use parler_protocol.Store.Tables.{Store, BlobRow, BlobRoomRow, room_agent}

unfoldable pub put_blob_meta : Text → Text → Text → Option Text → ℕ → ℕ → Store → Store
put_blob_meta id room author media_type size now s = record s {
  blobs =
      insert_or_ignore (λ b. b.id == id)
        (record {
          id = id;
          media_type = media_type;
          size = size;
          created = now;
          last_fetched = none;
        })
        s.blobs;
  blob_rooms =
      insert_or_ignore (λ b. (b.blob == id) && (b.room == room))
        (record { blob = id; room = room; author = author; created = now }) s.blob_rooms;
}

sizes : List BlobRow → ℕ
sizes [] = 0
sizes (b ∷ bs) = b.size + sizes bs

unfoldable pub total_blob_bytes : Store → ℕ
unfolding sizes
total_blob_bytes s = sizes s.blobs

pub record BlobMeta : Type 0 where
  pub id : Text
  pub media_type : Option Text
  pub size : ℕ
  pub created : ℕ

unfoldable pub blob_meta : Text → Store → Option BlobMeta
blob_meta id s = elim (find (λ (b : BlobRow). b.id == id) s.blobs) [
  | none ↦ none
  | some b ↦
      some (record { id = b.id; media_type = b.media_type; size = b.size; created = b.created })
]

-- The rows of the join of `blob_rooms` with `members`.
unfoldable pub readable_rows : Text → Text → Store → List BlobRoomRow → ℕ
readable_rows id agent s [] = 0
readable_rows id agent s (b ∷ bs) =
    let rest = readable_rows id agent s bs in
    if b.blob == id then count (room_agent b.room agent) s.members + rest else rest

unfoldable pub blob_readable_by : Text → Text → Store → Bool
unfolding readable_rows
blob_readable_by id agent s = ltb 0 (readable_rows id agent s s.blob_rooms)

unfoldable pub blob_in_room : Text → Text → Store → Bool
blob_in_room id room s = ltb 0 (count (λ b. (b.blob == id) && (b.room == room)) s.blob_rooms)

unfoldable pub touch_blob_fetched : Text → ℕ → Store → Store
touch_blob_fetched id now s = record s {
  blobs = update (λ b. b.id == id) (λ b. record b { last_fetched = some now }) s.blobs;
}

-- `COALESCE(last_fetched, created) < cutoff`.
unfoldable pub is_idle : ℕ → BlobRow → Bool
is_idle cutoff b = ltb (unwrap_or b.last_fetched b.created) cutoff

unfoldable pub gc_blobs : ℕ → ℕ → Store → List Text × Store
unfolding is_idle
gc_blobs ttl_ms now s =
    let cutoff = now - ttl_ms in
    let idle = select (is_idle cutoff) s.blobs in
    (
      map (λ b. b.id) idle,
      elim idle [
        | [] ↦ s
        | ids ↦ record s {
          blob_rooms = delete (λ r. any (λ (b : BlobRow). b.id == r.blob) ids) s.blob_rooms;
          blobs = delete (is_idle cutoff) s.blobs;
        }
      ],
    )
