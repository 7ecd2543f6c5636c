-- ===== src/Store/Blobs/Access.antt =====
-- Who may read a blob, after it is posted to a room and after idle blobs are collected.
use parler_protocol.Prelude.{
  ℕ, ◌-◌, Text, ◌==◌, eq_iff, eq_refl, ◌≡◌, refl, ap, ◌∙◌, sym, Bool, true, not, ◌&&◌, ◌||◌,
  Bool-cases, inl, inr, Option, List, [], ◌∷◌, arith, ltb, any, any-append, count, select, delete,
  insert_or_ignore,
}
use parler_protocol.Store.Tables.{Store, BlobRow, BlobRoomRow, room_agent}
use parler_protocol.Store.Rooms.{is_member}
use parler_protocol.Store.Blobs.{put_blob_meta, readable_rows, blob_readable_by, is_idle, gc_blobs}

-- A row that opens the blob to the agent.
abbrev opens : Text → Text → Store → BlobRoomRow → Bool
opens id agent s b = (b.blob == id) && is_member b.room agent s

readable_rows-any :
    (id agent : Text) (s : Store) (bs : List BlobRoomRow)
    → ltb 0 (readable_rows id agent s bs) ≡ any (opens id agent s) bs
unfolding readable_rows any is_member
readable_rows-any id agent s [] = refl
readable_rows-any id agent s (b ∷ bs) = ground (arith, readable_rows-any id agent s bs)

readable_any :
    (id agent : Text) (s : Store)
    → blob_readable_by id agent s ≡ any (opens id agent s) s.blob_rooms
unfolding blob_readable_by
readable_any id agent s = readable_rows-any id agent s s.blob_rooms

-- A row of the room opens the blob to its members.
any-opens :
    (id room agent : Text) (s : Store) (bs : List BlobRoomRow)
    → any (λ (b : BlobRoomRow). (b.blob == id) && (b.room == room)) bs ≡ true
    → is_member room agent s ≡ true
    → any (opens id agent s) bs ≡ true
unfolding any
any-opens id room agent s [] h m = ground (arith, h)
any-opens id room agent s (b ∷ bs) h m = elim (Bool-cases ((b.blob == id) && (b.room == room))) [
  | inl e ↦
      let same : is_member b.room agent s ≡ is_member room agent s =
        ap (λ r. is_member r agent s) ((eq_iff b.room room).0 (ground (arith, e))) in
      ground (arith, e, same, m)
  | inr e ↦ ground (arith, any-opens id room agent s bs (ground (arith, h, e)) m)
]

any-opens-insert :
    (id room author agent : Text) (now : ℕ) (s : Store) (bs : List BlobRoomRow)
    → any (opens id agent s) (
        insert_or_ignore
          (λ (b : BlobRoomRow). (b.blob == id) && (b.room == room))
          (record { blob = id; room = room; author = author; created = now })
          bs)
      ≡ any (opens id agent s) bs || is_member room agent s
unfolding insert_or_ignore any
any-opens-insert id room author agent now s bs =
    elim (Bool-cases (any (λ (b : BlobRoomRow). (b.blob == id) && (b.room == room)) bs)) [
      | inl h ↦ rw (h) (elim (Bool-cases (is_member room agent s)) [
        | inl m ↦ ground (arith, m, any-opens id room agent s bs h m)
        | inr m ↦ ground (arith, m)
      ])
      | inr h ↦ rw (h) (
          ground (
            arith,
            eq_refl id,
            any-append (opens id agent s) bs
                (record { blob = id; room = room; author = author; created = now } ∷ []),
          ))
    ]

-- Posting a blob to a room lets exactly the members of the room read it, besides those who could.
pub blob_readable_by-put_blob_meta :
    (id room author : Text) (media_type : Option Text) (size now : ℕ) (agent : Text) (s : Store)
    → blob_readable_by id agent (put_blob_meta id room author media_type size now s)
      ≡ blob_readable_by id agent s || is_member room agent s
unfolding put_blob_meta is_member
blob_readable_by-put_blob_meta id room author media_type size now agent s =
    readable_any id agent (put_blob_meta id room author media_type size now s)
    ∙ any-opens-insert id room author agent now s s.blob_rooms
    ∙ ap (λ b. b || is_member room agent s) (sym (readable_any id agent s))

-- The links of the blobs in `ids` go.
abbrev linked : List BlobRow → BlobRoomRow → Bool
linked ids r = any (λ (b : BlobRow). b.id == r.blob) ids

delete-linked_nil : (rs : List BlobRoomRow) → delete (linked []) rs ≡ rs
unfolding delete any
delete-linked_nil [] = refl
delete-linked_nil (r ∷ rs) = ap (λ x. r ∷ x) (delete-linked_nil rs)

gc_links :
    (ttl_ms now : ℕ) (s : Store)
    → ((gc_blobs ttl_ms now s).1.blob_rooms
        ≡ delete (linked (select (is_idle (now - ttl_ms)) s.blobs)) s.blob_rooms)
      × ((gc_blobs ttl_ms now s).1.members ≡ s.members)
unfolding gc_blobs
gc_links ttl_ms now s = go (select (is_idle (now - ttl_ms)) s.blobs) refl
  where
    go :
        (ids : List BlobRow)
        → select (is_idle (now - ttl_ms)) s.blobs ≡ ids
        → ((gc_blobs ttl_ms now s).1.blob_rooms
            ≡ delete (linked (select (is_idle (now - ttl_ms)) s.blobs)) s.blob_rooms)
          × ((gc_blobs ttl_ms now s).1.members ≡ s.members)
    go [] e = rw (e, gc_blobs) (sym (delete-linked_nil s.blob_rooms), refl)
    go (b ∷ bs) e = rw (e, gc_blobs) (refl, refl)

any-opens-delete :
    (id agent : Text) (s : Store) (ids : List BlobRow) (rs : List BlobRoomRow)
    → any (opens id agent s) (delete (linked ids) rs)
      ≡ any (opens id agent s) rs && not (any (λ (b : BlobRow). b.id == id) ids)
unfolding any delete
any-opens-delete id agent s ids [] = refl
any-opens-delete id agent s ids (r ∷ rs) = elim (Bool-cases (r.blob == id)) [
  | inl h ↦
      let same : linked ids r ≡ any (λ (b : BlobRow). b.id == id) ids =
        ap (λ x. any (λ (b : BlobRow). b.id == x) ids) ((eq_iff r.blob id).0 h) in
      ground (arith, h, same, any-opens-delete id agent s ids rs)
  | inr h ↦ ground (arith, h, any-opens-delete id agent s ids rs)
]

any-select :
    {A : Type 0} (p q : A → Bool) (xs : List A) → any p (select q xs) ≡ any (λ x. p x && q x) xs
unfolding any select
any-select p q [] = refl
any-select p q (x ∷ xs) = ground (arith, any-select p q xs)

-- Collecting idle blobs ends every reading of them, and changes no other blob's readers.
pub blob_readable_by-gc_blobs :
    (ttl_ms now : ℕ) (id agent : Text) (s : Store)
    → blob_readable_by id agent (gc_blobs ttl_ms now s).1
      ≡ blob_readable_by id agent s
        && not (any (λ (b : BlobRow). (b.id == id) && is_idle (now - ttl_ms) b) s.blobs)
unfolding is_member
blob_readable_by-gc_blobs ttl_ms now id agent s =
    let (links, members) = gc_links ttl_ms now s in
    let idle = select (is_idle (now - ttl_ms)) s.blobs in
    readable_any id agent (gc_blobs ttl_ms now s).1
    ∙ ap
        (λ ms.
          any (λ (b : BlobRoomRow). (b.blob == id) && ltb 0 (count (room_agent b.room agent) ms))
            (gc_blobs ttl_ms now s).1.blob_rooms)
        members
    ∙ ap (any (opens id agent s)) links
    ∙ any-opens-delete id agent s idle s.blob_rooms
    ∙ ap (λ b. any (opens id agent s) s.blob_rooms && not b)
        (any-select (λ (b : BlobRow). b.id == id) (is_idle (now - ttl_ms)) s.blobs)
    ∙ ap (λ b. b && not (any (λ (b : BlobRow). (b.id == id) && is_idle (now - ttl_ms) b) s.blobs))
        (sym (readable_any id agent s))
