-- ===== src/Server/Gate/Outside.antt =====
-- crates/parler-hub/src/server.rs, store.rs: the calls that leave an agent outside a room.
use parler_protocol.Prelude.{
  ℕ, Text, codes, ◌==◌, Text-cases, ◌≡◌, refl, sym, ap, subst, ◌∙◌, ◌++◌, ◌*◌, Bool, true, false,
  not, ◌&&◌, ◌||◌, Option, none, some, is_some, is_none, List, [], ◌∷◌, choose, Option-cases, inl,
  inr, arith, ltb, leb, eqb, find, any, delete, count, count-update, any-count, if◌then◌else◌,
}
use parler_protocol.Protocol.RoomKind.{RoomKind, dm, service, is_channel}
use parler_protocol.Protocol.Subjects.{token}
use parler_protocol.Store.Tables.{Store, MemberRow, InviteRow, room_agent, request_key}
use parler_protocol.Store.Rooms.{
  is_member, add_member, ensure_room, set_room_owner, room_owned_by, room_kind, owned_room_count,
  find_dm_room, delete_room,
}
use parler_protocol.Store.Invites.{redeem_invite, join_now, charge, resolve_join}
use parler_protocol.Store.Invites.Approval.{is_member-add_member}
use parler_protocol.Store.Messages.{set_cursor, get_cursor, read_floor, read_page, pull}
use parler_protocol.Store.Tokens.{strip_prefix}
use parler_protocol.Store.Tokens.Scopes.{strip_prefix-append}
use parler_protocol.Store.Directory.{directory_visibility}
use parler_protocol.Server.Frames.{Target}
use parler_protocol.Server.State.{Config, Library, Draw, Authed}
use parler_protocol.Server.RoomRequests.{
  invite_room, open_room, service_room, handle_invite, handle_serve, resolve_target, expiry,
  invite_uses,
}
use parler_protocol.Server.Gate.Members.{
  Same, reply-Same, create_invite-Same, set_room_owner-Same, serve_role-Same, charge-Same,
  request_join-Same,
}

-- The names that the hub makes for direct rooms and for services.
abbrev pub is_reserved : Text → Bool
is_reserved room =
    is_some (strip_prefix (codes "dm.") room) || is_some (strip_prefix (codes "svc.") room)

dm_apart : (x room : Text) → is_reserved room ≡ false → (codes "dm." ++ x) == room ≡ false
dm_apart x room free = elim (Text-cases (codes "dm." ++ x) room) [
  | inr apart ↦ apart
  | inl same ↦
      let taken : is_some (strip_prefix (codes "dm.") room) ≡ true =
        subst (λ r. is_some (strip_prefix (codes "dm.") r) ≡ true) same
          (rw (strip_prefix-append (codes "dm.") x) refl) in
      ground (arith, free, taken)
]

svc_apart : (x room : Text) → is_reserved room ≡ false → (codes "svc." ++ x) == room ≡ false
svc_apart x room free = elim (Text-cases (codes "svc." ++ x) room) [
  | inr apart ↦ apart
  | inl same ↦
      let taken : is_some (strip_prefix (codes "svc.") room) ≡ true =
        subst (λ r. is_some (strip_prefix (codes "svc.") r) ≡ true) same
          (rw (strip_prefix-append (codes "svc.") x) refl) in
      ground (arith, free, taken)
]

either : (P : Store → Type 0) (b : Bool) (x y : Store) → P x → P y → P (if b then x else y)
either P true x y hx hy = hx
either P false x y hx hy = hy

any-delete_none :
    {A : Type 0} (p q : A → Bool) (xs : List A) → any q xs ≡ false → any q (delete p xs) ≡ false
unfolding any delete
any-delete_none p q [] none_there = refl
any-delete_none p q (x ∷ xs) none_there = ground (arith, none_there, any-delete_none p q xs)

-- The agent is not a member of the room.
abbrev pub IsOutside : Text → Text → Store → Type 0
IsOutside room agent s = is_member room agent s ≡ false

module _ (room agent : Text) where
  pub IsOutside-Same : (s t : Store) → Same s t → IsOutside room agent s → IsOutside room agent t
  unfolding is_member
  IsOutside-Same s t same out = rw (same) out

  add_member-IsOutside :
      (r a : Text) (now : ℕ) (s : Store)
      → (r == room) && (a == agent) ≡ false
      → IsOutside room agent s
      → IsOutside room agent (add_member r a now s)
  add_member-IsOutside r a now s other out = is_member-add_member room agent r a now s other ∙ out

  open_room-IsOutside :
      (r : Text) (kind : RoomKind) (a : Text) (now : ℕ) (s : Store)
      → (r == room) && (a == agent) ≡ false
      → IsOutside room agent s
      → IsOutside room agent (open_room r kind a now s)
  open_room-IsOutside r kind a now s other out =
      add_member-IsOutside r a now (ensure_room r kind none now s) other
        (IsOutside-Same s (ensure_room r kind none now s) (unfold ensure_room in refl) out)

  set_cursor-IsOutside :
      (r a : Text) (cursor : ℕ) (s : Store)
      → IsOutside room agent s
      → IsOutside room agent (set_cursor r a cursor s)
  unfolding is_member set_cursor
  set_cursor-IsOutside r a cursor s out =
      ap (ltb 0) (
        count-update (room_agent r a) (room_agent room agent) (λ m. record m { cursor = cursor })
          (λ m e. refl) s.members)
      ∙ out

  read_floor-IsOutside :
      (r a : Text) (since ack : Option ℕ) (s : Store)
      → IsOutside room agent s
      → IsOutside room agent (read_floor r a since ack s).1
  unfolding read_floor
  read_floor-IsOutside r a (some n) ack s out = out
  read_floor-IsOutside r a none none s out = out
  read_floor-IsOutside r a none (some k) s out =
      choose (IsOutside room agent) (ltb (get_cursor r a s) k) _ _
        (λ t. set_cursor-IsOutside r a k s out) (λ f. out)

  pub delete_room-IsOutside :
      (r a : Text) (s : Store) → IsOutside room agent s → IsOutside room agent (delete_room r a s).1
  unfolding delete_room is_member
  delete_room-IsOutside r a s out =
      let p : MemberRow → Bool = λ m. m.room == r in
      let q = room_agent room agent in
      choose (IsOutside room agent) (room_owned_by r a s) _ _
        (λ mine.
          (sym (any-count q (delete p s.members))
            ∙ any-delete_none p q s.members (any-count q s.members ∙ out)))
        (λ f. out)

  pub pull-IsOutside :
      (l : Library) (r a : Text) (since limit ack : Option ℕ) (s : Store)
      → IsOutside room agent s
      → IsOutside room agent (pull l.codec r a since limit ack s).1
  unfolding pull read_page
  pull-IsOutside l r a since limit ack s out =
      let floor = read_floor-IsOutside r a since ack s out in
      either (IsOutside room agent) _ _ _ (set_cursor-IsOutside r a _ _ floor) floor

  pub resolve_target-IsOutside :
      (d : Draw) (me : Authed) (target : Target) (s : Store)
      → is_reserved room ≡ false
      → IsOutside room agent s
      → IsOutside room agent (resolve_target d me target s).1
  unfolding resolve_target
  resolve_target-IsOutside d me (Target.room r) s free out =
      choose (IsOutside room agent) (not (is_member r me.id s)) _ _ (λ t. out) (λ f. out)
  resolve_target-IsOutside d me (Target.dm a) s free out =
      elim (Option-cases (find_dm_room me.id a s)) [
        | inr (r, found) ↦ rw (found, resolve_target) out
        | inl new ↦ elim (Option-cases (directory_visibility a s)) [
          | inl hidden ↦ rw (new, hidden, resolve_target) out
          | inr (v, seen) ↦
              rw (new, seen, resolve_target)
                (let other = dm_apart d.suffix room free in
                  add_member-IsOutside (codes "dm." ++ d.suffix) a d.now
                    (open_room (codes "dm." ++ d.suffix) dm me.id d.now s) (ground (arith, other))
                    (open_room-IsOutside (codes "dm." ++ d.suffix) dm me.id d.now s
                      (ground (arith, other)) out))
        ]
      ]
  resolve_target-IsOutside d me (Target.service name) s free out =
      choose (IsOutside room agent) (is_none (room_kind (service_room name) s)) _ _ (λ t. out)
        λ f.
          add_member-IsOutside (service_room name) me.id d.now s
            (ground (arith, svc_apart (token name) room free)) out

  pub handle_invite-IsOutside :
      (c : Config) (d : Draw) (me : Authed) (kind : RoomKind) (named : Option Text)
      (ttl uses : Option ℕ) (approval : Bool) (s : Store)
      → is_some (room_kind room s) ≡ true
      → IsOutside room agent s
      → IsOutside room agent (handle_invite c d me kind named ttl uses approval s).1
  unfolding handle_invite
  handle_invite-IsOutside c d me kind named ttl uses approval s there out =
      let name = invite_room kind named d.suffix in
      choose (IsOutside room agent) (is_some (room_kind name s) && not (is_member name me.id s)) _ _
        (λ t. out)
        λ free.
          choose (IsOutside room agent)
            (is_none (room_kind name s) && leb c.max_owned_rooms (owned_room_count me.id s)) _ _
            (λ t. out)
            λ left.
              let apart : (name == room) && (me.id == agent) ≡ false = elim (Text-cases name room) [
                | inr other ↦ ground (arith, other)
                | inl same ↦ elim (Text-cases me.id agent) [
                  | inr other ↦ ground (arith, other)
                  | inl mine ↦
                      let open_name : is_some (room_kind room s) && not (is_member room me.id s)
                          ≡ false =
                        subst (λ n. is_some (room_kind n s) && not (is_member n me.id s) ≡ false)
                          same free in
                      let out_me : is_member room me.id s ≡ false = rw (mine) out in
                      ground (arith, open_name, there, out_me)
                ]
              ] in
              let opened = open_room name kind me.id d.now s in
              let owned = set_room_owner name me.id opened in
              IsOutside-Same opened _
                (reply-Same _ opened _ (
                  create_invite-Same d.code name kind none (invite_uses kind uses)
                    (expiry (24 * 3600) ttl d.now) me.id (approval && is_channel kind) d.now owned
                  ∙ set_room_owner-Same name me.id opened))
                (open_room-IsOutside name kind me.id d.now s apart out)

  pub handle_serve-IsOutside :
      (c : Config) (d : Draw) (me : Authed) (name : Text) (s : Store)
      → is_reserved room ≡ false
      → IsOutside room agent s
      → IsOutside room agent (handle_serve c d me name s).1
  unfolding handle_serve
  handle_serve-IsOutside c d me name s free out =
      choose (IsOutside room agent)
        (is_none (room_kind (service_room name) s)
          && leb c.max_owned_rooms (owned_room_count me.id s))
        _ _ (λ t. out)
        λ f.
          let opened =
            open_room-IsOutside (service_room name) service me.id d.now s
              (ground (arith, svc_apart (token name) room free)) out in
          let room_store = open_room (service_room name) service me.id d.now s in
          IsOutside-Same _ _ (serve_role-Same (service_room name) me.id name d.now _) (
            either (IsOutside room agent) (is_none (room_kind (service_room name) s)) _ _
              (IsOutside-Same room_store _
                (set_room_owner-Same (service_room name) me.id room_store) opened)
              opened)

  pub redeem_invite-IsOutside :
      (code a : Text) (now : ℕ) (s : Store)
      → a == agent ≡ false
      → IsOutside room agent s
      → IsOutside room agent (redeem_invite code a now s).1
  unfolding redeem_invite join_now
  redeem_invite-IsOutside code a now s other out =
      elim (Option-cases (find (λ (i : InviteRow). i.code == code) s.invites)) [
        | inl unknown ↦ rw (unknown, redeem_invite) out
        | inr (i, found) ↦
            rw (found, redeem_invite)
              (choose (IsOutside room agent) (is_member i.room a s) _ _ (λ t. out)
                λ f.
                  choose (IsOutside room agent) (ltb i.expires now) _ _ (λ t. out)
                    λ f.
                      choose (IsOutside room agent) i.require_approval _ _
                        (λ t.
                          IsOutside-Same s _
                            (request_join-Same code i a now s
                              (find (request_key i.room a) s.join_requests))
                            out)
                        λ f.
                          choose (IsOutside room agent) (leb i.max_uses i.uses) _ _ (λ t. out)
                            λ f.
                              add_member-IsOutside i.room a now (charge code s)
                                (ground (arith, other))
                                (IsOutside-Same s (charge code s) (charge-Same code s) out))
      ]

  pub resolve_join-IsOutside :
      (r me a : Text) (approve : Bool) (now : ℕ) (s : Store)
      → (r == room) && ((a == agent) && approve) ≡ false
      → IsOutside room agent s
      → IsOutside room agent (resolve_join r me a approve now s).1
  unfolding resolve_join
  resolve_join-IsOutside r me a true now s other out =
      choose (IsOutside room agent) (not (room_owned_by r me s)) _ _ (λ t. out)
        λ f.
          choose (IsOutside room agent) (eqb (count (request_key r a) s.join_requests) 0) _ _
            (λ t. out)
            λ f.
              add_member-IsOutside r a now _ (ground (arith, other)) (IsOutside-Same s _ refl out)
  resolve_join-IsOutside r me a false now s other out =
      choose (IsOutside room agent) (not (room_owned_by r me s)) _ _ (λ t. out)
        λ f.
          choose (IsOutside room agent) (eqb (count (request_key r a) s.join_requests) 0) _ _
            (λ t. out) λ f. IsOutside-Same s _ refl out
