-- ===== src/Server/Gate.antt =====
-- crates/parler-hub/src/server.rs: how an agent gets into a room that is there already.
pub mod Connections
pub mod Members
pub mod Outside
pub mod Sending
use parler_protocol.Prelude.{
  ℕ, Text, codes, ◌==◌, ◌≡◌, refl, sym, ap, ◌∙◌, Bool, true, false, not, ◌&&◌, ◌||◌, Option, none,
  some, is_some, is_none, List, [], ◌∷◌, choose, Outcome, ok, err, arith, leb, if◌then◌else◌,
}
use parler_protocol.Protocol.TaskStatus.{TaskStatus, is_terminal}
use parler_protocol.Protocol.Mentions.{is_blank}
use parler_protocol.Store.Tables.{Store, Error}
use parler_protocol.Store.Rooms.{is_member, room_kind}
use parler_protocol.Store.Service.{complete_service_message}
use parler_protocol.Store.Directory.{register_card}
use parler_protocol.Store.Facts.{remember}
use parler_protocol.Store.Tokens.{active_token_count, mint_directory_token, mint_watch_token}
use parler_protocol.Store.Presence.{touch_presence, set_attention, refresh_presence}
use parler_protocol.Server.Frames.{ClientFrame, ServerFrame, not_authorized}
use parler_protocol.Server.State.{Config, Library, Draw, Hub, Authed, Answer, refuse, reply, answer}
use parler_protocol.Server.RoomRequests.{
  normalize_code, handle_redeem, handle_resolve_join, handle_delete_room, handle_roster,
  handle_join_requests, handle_rooms, expiry,
}
use parler_protocol.Server.WorkRequests.{
  is_service_room, lease, guarded, handle_claim, handle_queue, handle_complete,
}
use parler_protocol.Server.RecordRequests.{
  handle_register, handle_discover, handle_lookup, handle_mint_directory_token, handle_mint_watch,
  may_use, is_within_quota, handle_remember, handle_recall, handle_presence, handle_set_attention,
  handle_ping, is_verified,
}
use parler_protocol.Server.Sending.{handle_pull}
use parler_protocol.Server.Dispatch.{handle_authed}
use parler_protocol.Server.Gate.Members.{
  Same, reply_state, answer_state, reply-Same, register_card-Same, mint_directory_token-Same,
  mint_watch_token-Same, claim_service_message-Same, complete_service_message-Same, remember-Same,
}
use parler_protocol.Server.Gate.Outside.{
  is_reserved, IsOutside, IsOutside-Same, pull-IsOutside, delete_room-IsOutside,
  handle_invite-IsOutside, handle_serve-IsOutside, redeem_invite-IsOutside, resolve_join-IsOutside,
}
use parler_protocol.Server.Gate.Sending.{handle_send-IsOutside}

-- The requests that can let an agent into a room: its own redemption of a code, and an approval of it.
abbrev pub may_admit : Text → Text → Authed → ClientFrame → Bool
may_admit room agent me (ClientFrame.redeem code) = me.id == agent
may_admit room agent me (ClientFrame.resolve_join r a approve) =
    (r == room) && ((a == agent) && approve)
may_admit room agent me _ = false

-- A call of the store and its reply leave the agent outside where the call does.
reply-IsOutside :
    {A : Type 0} (room agent : Text) (f : A → ServerFrame) (r : Outcome Error A × Store)
    → IsOutside room agent r.1
    → IsOutside room agent (reply f r).1
reply-IsOutside room agent f r out = rw (reply_state f r) out

answer-IsOutside :
    {A : Type 0} (room agent : Text) (f : A → ServerFrame) (s : Store) (o : Outcome Error A)
    → IsOutside room agent s
    → IsOutside room agent (answer f s o).1
answer-IsOutside room agent f s o out = rw (answer_state f s o) out

guarded-IsOutside :
    (room agent r me : Text) (s : Store) (rest : Answer Store)
    → IsOutside room agent s
    → IsOutside room agent rest.1
    → IsOutside room agent (guarded r me s rest).1
guarded-IsOutside room agent r me s rest out after =
    choose (IsOutside room agent) (not (is_member r me s)) _ _ (λ t. out)
      λ f. choose (IsOutside room agent) (not (is_service_room r s)) _ _ (λ t. out) (λ f. after)

complete-IsOutside :
    (room agent r message me : Text) (status : TaskStatus) (now : ℕ) (s : Store)
    → IsOutside room agent s
    → IsOutside room agent
        (if not (is_terminal status)
          then refuse not_authorized s
          else reply
              (ServerFrame.completed r message)
              (complete_service_message r message me status now s)).1
complete-IsOutside room agent r message me status now s out =
    choose (IsOutside room agent) (not (is_terminal status)) _ _ (λ t. out)
      λ f.
        reply-IsOutside room agent (ServerFrame.completed r message)
          (complete_service_message r message me status now s)
          (IsOutside-Same room agent s _ (complete_service_message-Same r message me status now s)
            out)

-- A request to `handle_authed` by anyone, whatever it draws and however it ends, leaves an agent
-- outside a room that is there, unless it is that agent's own redemption of a code or an approval of
-- that agent for that room. The room's name is not one that the hub makes for direct rooms or for
-- services.
pub handle_authed-IsOutside :
    (room agent : Text) (c : Config) (l : Library) (d : Draw) (me : Authed) (f : ClientFrame)
    (h : Hub)
    → may_admit room agent me f ≡ false
    → is_reserved room ≡ false
    → is_some (room_kind room h.store) ≡ true
    → IsOutside room agent h.store
    → IsOutside room agent (handle_authed c l d me f h).1.store
unfolding handle_authed handle_register handle_discover handle_lookup handle_mint_directory_token
    handle_mint_watch handle_redeem handle_join_requests handle_resolve_join handle_claim
    handle_queue handle_complete handle_pull handle_remember handle_recall handle_rooms
    handle_delete_room handle_roster handle_presence handle_set_attention handle_ping
handle_authed-IsOutside room agent c l d me (ClientFrame.hello id name role echoed sig secret) h
      quiet free there out =
    out
handle_authed-IsOutside room agent c l d me (ClientFrame.put_blob target sha256 size media_type) h
      quiet free there out =
    out
handle_authed-IsOutside room agent c l d me (ClientFrame.get_blob id) h quiet free there out = out
handle_authed-IsOutside room agent c l d me ClientFrame.subscribe h quiet free there out = out
handle_authed-IsOutside room agent c l d me ClientFrame.rooms h quiet free there out = out
handle_authed-IsOutside room agent c l d me
      (ClientFrame.discover scope query tag skill status limit) h quiet free there out =
    (answer-IsOutside room agent _ h.store _ out)
handle_authed-IsOutside room agent c l d me (ClientFrame.lookup id) h quiet free there out =
    (answer-IsOutside room agent _ h.store _ out)
handle_authed-IsOutside room agent c l d me (ClientFrame.join_requests r) h quiet free there out =
    (answer-IsOutside room agent _ h.store _ out)
handle_authed-IsOutside room agent c l d me (ClientFrame.register card visibility sig) h quiet free
      there out =
    choose (IsOutside room agent) (not (card.id == me.id)) _ _ (λ t. out)
      (λ f.
        choose (IsOutside room agent) (is_some sig && not (is_verified l card sig)) _ _ (λ t. out)
          (λ f.
            reply-IsOutside room agent _
              (register_card l.cards card sig (is_verified l card sig) visibility d.now h.store)
              (IsOutside-Same room agent h.store
                (register_card l.cards card sig (is_verified l card sig) visibility d.now h.store).1
                (register_card-Same l.cards card sig (is_verified l card sig) visibility d.now
                  h.store)
                out)))
handle_authed-IsOutside room agent c l d me (ClientFrame.mint_directory_token ttl) h quiet free
      there out =
    choose (IsOutside room agent) (leb c.max_active_tokens (active_token_count me.id d.now h.store))
      _ _ (λ t. out)
      (λ f.
        reply-IsOutside room agent _
          (mint_directory_token d.token (codes "hub") (expiry 3600 ttl d.now) me.id d.now h.store)
          (IsOutside-Same room agent h.store
            (mint_directory_token d.token (codes "hub") (expiry 3600 ttl d.now) me.id d.now
              h.store).1
            (mint_directory_token-Same d.token (codes "hub") (expiry 3600 ttl d.now) me.id d.now
              h.store)
            out))
handle_authed-IsOutside room agent c l d me (ClientFrame.mint_watch r ttl) h quiet free there out =
    choose (IsOutside room agent) (leb c.max_active_tokens (active_token_count me.id d.now h.store))
      _ _ (λ t. out)
      (λ f.
        reply-IsOutside room agent _
          (mint_watch_token d.token r me.id (expiry 3600 ttl d.now) d.now h.store)
          (IsOutside-Same room agent h.store
            (mint_watch_token d.token r me.id (expiry 3600 ttl d.now) d.now h.store).1
            (mint_watch_token-Same d.token r me.id (expiry 3600 ttl d.now) d.now h.store) out))
handle_authed-IsOutside room agent c l d me (ClientFrame.invite kind named ttl uses approval) h
      quiet free there out =
    handle_invite-IsOutside room agent c d me kind named ttl uses approval h.store there out
handle_authed-IsOutside room agent c l d me (ClientFrame.serve name) h quiet free there out =
    handle_serve-IsOutside room agent c d me name h.store free out
handle_authed-IsOutside room agent c l d me (ClientFrame.redeem code) h quiet free there out =
    reply-IsOutside room agent _ _
      (redeem_invite-IsOutside room agent (normalize_code code) me.id d.now h.store quiet out)
handle_authed-IsOutside room agent c l d me (ClientFrame.resolve_join r a approve) h quiet free
      there out =
    reply-IsOutside room agent _ _
      (resolve_join-IsOutside room agent r me.id a approve d.now h.store quiet out)
handle_authed-IsOutside room agent c l d me (ClientFrame.claim r message lease_secs) h quiet free
      there out =
    guarded-IsOutside room agent r me.id h.store _ out (
      IsOutside-Same room agent h.store _
        (claim_service_message-Same l.codec r message me.id (lease lease_secs) d.now h.store) out)
handle_authed-IsOutside room agent c l d me (ClientFrame.queue r role limit) h quiet free there
      out =
    guarded-IsOutside room agent r me.id h.store _ out (answer-IsOutside room agent _ h.store _ out)
handle_authed-IsOutside room agent c l d me (ClientFrame.complete r message status) h quiet free
      there out =
    guarded-IsOutside room agent r me.id h.store _ out
      (complete-IsOutside room agent r message me.id status d.now h.store out)
handle_authed-IsOutside room agent c l d me
      (ClientFrame.send target parts mentions reply_to client_id) h quiet free there out =
    handle_send-IsOutside room agent c l d me target parts mentions reply_to client_id h free out
handle_authed-IsOutside room agent c l d me (ClientFrame.pull r since limit wait ack) h quiet free
      there out =
    choose (IsOutside room agent) (not (is_member r me.id h.store)) _ _ (λ t. out)
      (λ f.
        reply-IsOutside room agent _ _
          (pull-IsOutside room agent l r me.id since limit ack h.store out))
handle_authed-IsOutside room agent c l d me (ClientFrame.remember fact embedding model) h quiet free
      there out =
    choose (IsOutside room agent) (not (may_use fact.room me.id h.store)) _ _ (λ t. out)
      (λ f.
        choose (IsOutside room agent) (not (is_within_quota c me.id fact h.store)) _ _ (λ t. out)
          (λ f. reply-IsOutside room agent _ (remember me.id fact d.now embedding model h.store) (
            IsOutside-Same room agent h.store (remember me.id fact d.now embedding model h.store).1
              (remember-Same me.id fact d.now embedding model h.store) out)))
handle_authed-IsOutside room agent c l d me (ClientFrame.recall query r limit embedding none) h
      quiet free there out =
    choose (IsOutside room agent) (not (may_use r me.id h.store)) _ _ (λ t. out)
      (λ f. (answer-IsOutside room agent _ h.store _ out))
handle_authed-IsOutside room agent c l d me (ClientFrame.recall query r limit embedding (some k)) h
      quiet free there out =
    choose (IsOutside room agent) (not (may_use r me.id h.store)) _ _ (λ t. out)
      (λ f.
        choose (IsOutside room agent) (is_blank k) _ _
          (λ t. (answer-IsOutside room agent _ h.store _ out)) (λ f. out))
handle_authed-IsOutside room agent c l d me (ClientFrame.delete_room r) h quiet free there out =
    reply-IsOutside room agent _ _ (delete_room-IsOutside room agent r me.id h.store out)
handle_authed-IsOutside room agent c l d me (ClientFrame.roster r) h quiet free there out =
    choose (IsOutside room agent) (not (is_member r me.id h.store)) _ _ (λ t. out) (λ f. out)
handle_authed-IsOutside room agent c l d me (ClientFrame.presence status activity attention) h quiet
      free there out =
    (IsOutside-Same room agent h.store _ (unfold touch_presence in refl) out)
handle_authed-IsOutside room agent c l d me (ClientFrame.set_attention attention) h quiet free there
      out =
    (IsOutside-Same room agent h.store _ (unfold set_attention in refl) out)
handle_authed-IsOutside room agent c l d me ClientFrame.ping h quiet free there out =
    (IsOutside-Same room agent h.store _ (unfold refresh_presence in refl) out)
