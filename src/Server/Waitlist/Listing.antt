-- ===== src/Server/Waitlist/Listing.antt =====
-- crates/parler-hub/src/server.rs, `api_waitlist`: sequences of posts to the waitlist.
use parler_protocol.Prelude.{
  ℕ, Text, ◌==◌, ◌≡◌, refl, sym, ap, Bool, true, false, Bool-cases, inl, inr, Option, some, List,
  [], ◌∷◌, ◌++◌, any, All, All-append, any-append, insert_or_ignore, Text-eq_symm, arith,
}
use parler_protocol.Store.Tables.{Store, WaitlistRow}
use parler_protocol.Store.Tokens.{waitlist_add}
use parler_protocol.Server.Windows.{Table, Window}
use parler_protocol.Server.Waitlist.{
  HeaderMap, WaitlistReply, api_waitlist, waitlist_charge, client_ip, normalize_email, valid_email,
}

pub record Post : Type 0 where
  pub headers : HeaderMap
  pub peer : Text
  pub email : Text
  pub now : ℕ

-- The answers to the posts, and the store after them.
unfoldable pub posts :
    (Text → Option Text) → Bool → Table Window → Store → List Post → List WaitlistReply × Store
posts parse_ip trust m s [] = ([], s)
posts parse_ip trust m s (p ∷ ps) =
    let (reply, (w, after)) = api_waitlist parse_ip trust p.headers p.peer p.email p.now m s in
    let (replies, end) = posts parse_ip trust w after ps in (reply ∷ replies, end)

unfoldable pub AreDistinct : List WaitlistRow → Type 0
AreDistinct [] = Unit
AreDistinct (x ∷ xs) = (any (λ (w : WaitlistRow). w.email == x.email) xs ≡ false) × AreDistinct xs

-- Every address is valid, and no address stands twice.
unfoldable pub AreListable : List WaitlistRow → Type 0
AreListable ws = All (λ (w : WaitlistRow). valid_email w.email ≡ true) ws × AreDistinct ws

AreDistinct-append :
    (ws : List WaitlistRow) (x : WaitlistRow)
    → any (λ (w : WaitlistRow). w.email == x.email) ws ≡ false
    → AreDistinct ws
    → AreDistinct (ws ++ x ∷ [])
unfolding AreDistinct any
AreDistinct-append [] x new h = (refl, tt)
AreDistinct-append (y ∷ ws) x new h = (
  rw (any-append (λ (w : WaitlistRow). w.email == y.email) ws (x ∷ []))
      (ground (arith, Text-eq_symm x.email y.email, h.0)),
  AreDistinct-append ws x (ground (arith, new)) h.1,
)

waitlist_add-AreListable :
    (email : Text) (now : ℕ) (s : Store)
    → valid_email email ≡ true
    → AreListable s.waitlist
    → AreListable (waitlist_add email now s).waitlist
unfolding AreListable waitlist_add insert_or_ignore
waitlist_add-AreListable email now s v h =
    elim (Bool-cases (any (λ (w : WaitlistRow). w.email == email) s.waitlist)) [
      | inl e ↦ rw e h
      | inr e ↦ rw e (
        All-append (λ (w : WaitlistRow). valid_email w.email ≡ true) s.waitlist _ h.0 (v, tt),
        AreDistinct-append s.waitlist (record { email = email; created_at = now }) e h.1,
      )
    ]

-- A post keeps the list in order, and neither its answer nor what it charges depends on the list.
api_waitlist-AreListable :
    (parse_ip : Text → Option Text) (trust : Bool) (p : Post) (m : Table Window) (s t : Store)
    → AreListable s.waitlist
    → AreListable (api_waitlist parse_ip trust p.headers p.peer p.email p.now m s).1.1.waitlist
      × (((api_waitlist parse_ip trust p.headers p.peer p.email p.now m s).0
            ≡ (api_waitlist parse_ip trust p.headers p.peer p.email p.now m t).0)
          × ((api_waitlist parse_ip trust p.headers p.peer p.email p.now m s).1.0
              ≡ (api_waitlist parse_ip trust p.headers p.peer p.email p.now m t).1.0))
unfolding api_waitlist
api_waitlist-AreListable parse_ip trust p m s t h =
    let charge = waitlist_charge (client_ip parse_ip p.headers (some p.peer) trust) p.now m in
    elim (Bool-cases charge.0) [
      | inr full ↦ rw full (h, (refl, refl))
      | inl room ↦ elim (Bool-cases (valid_email (normalize_email p.email))) [
        | inr bad ↦ rw (room, bad) (h, (refl, refl))
        | inl good ↦
            rw (room, good)
              (waitlist_add-AreListable (normalize_email p.email) p.now s good h, (refl, refl))
      ]
    ]

-- Over any sequence of posts the waitlist holds valid addresses only, each once; and the answers are
-- those that the same posts get with any other waitlist, so they do not tell who is listed.
pub posts-AreListable :
    (parse_ip : Text → Option Text) (trust : Bool) (m : Table Window) (s t : Store) (ps : List Post)
    → AreListable s.waitlist
    → AreListable (posts parse_ip trust m s ps).1.waitlist
      × ((posts parse_ip trust m s ps).0 ≡ (posts parse_ip trust m t ps).0)
unfolding posts
posts-AreListable parse_ip trust m s t [] h = (h, refl)
posts-AreListable parse_ip trust m s t (p ∷ ps) h =
    let step = api_waitlist-AreListable parse_ip trust p m s t h in
    let answer = api_waitlist parse_ip trust p.headers p.peer p.email p.now m s in
    let other = api_waitlist parse_ip trust p.headers p.peer p.email p.now m t in
    let rest = posts-AreListable parse_ip trust answer.1.0 answer.1.1 other.1.1 ps step.0 in
    rw (sym step.1.0, sym step.1.1) (rest.0, ap (λ rs. answer.0 ∷ rs) rest.1)
