-- ===== src/Store/Presence/Liveness.antt =====
-- What the roster shows of an agent after its heartbeats.
use parler_protocol.Prelude.{
  ℕ, Text, codes, ◌==◌, eq_refl, ◌≡◌, refl, Bool, true, Option, none, some, Option-cases, inl, inr,
  List, arith, if◌then◌else◌, upsert, find, find-update_self, find_new, any-find,
}
use parler_protocol.Protocol.Attention.{Attention}
use parler_protocol.Store.Tables.{Store, AgentRow, PresenceRow, WorkerRow, is_fresh}
use parler_protocol.Store.Presence.{touch_presence, refresh_presence, or_else, attention_text}
use parler_protocol.Store.Rooms.{roster_entry}

-- The row after an upsert under its key.
find-upsert :
    {A : Type 0} (p : A → Bool) (new : A) (f : A → A) (xs : List A)
    → p new ≡ true
    → ((x : A) → p (f x) ≡ p x)
    → find p (upsert p new f xs) ≡ some (elim (find p xs) [ none ↦ new | some x ↦ f x ])
unfolding upsert
find-upsert p new f xs h same = elim (Option-cases (find p xs)) [
  | inl e ↦ ground (arith, e, any-find p xs, find_new p xs new e h)
  | inr (x, e) ↦ ground (arith, e, any-find p xs, find-update_self p f same xs x e)
]

-- A reported status shows while it is fresh and as `offline` afterwards, with the time and the activity
-- of the report, whatever was stored before.
pub roster_entry-touch_presence :
    (a : AgentRow) (w : Option WorkerRow) (status : Text) (activity : Option Text)
    (attention : Option Attention) (ts now : ℕ) (s : Store)
    → let e =
        roster_entry now a
          (find
            (λ (p : PresenceRow). p.agent == a.id)
            (touch_presence a.id status activity attention ts s).presence)
          w in
      (e.status ≡ (if is_fresh now ts then status else codes "offline"))
      × (e.last_seen ≡ ts)
      × (e.activity ≡ activity)
unfolding touch_presence roster_entry
roster_entry-touch_presence a w status activity attention ts now s =
    let row =
      find-upsert (λ (p : PresenceRow). p.agent == a.id)
        (record {
          agent = a.id;
          status = status;
          activity = activity;
          attention = attention_text attention;
          ts = ts;
        })
        (λ p. record p {
          status = status;
          activity = activity;
          attention = or_else (attention_text attention) p.attention;
          ts = ts;
        })
        s.presence (eq_refl a.id) (λ p. refl) in
    elim (Option-cases (find (λ (p : PresenceRow). p.agent == a.id) s.presence)) [
      | inl e ↦ rw (row, e) (refl, refl, refl)
      | inr (p, e) ↦ rw (row, e) (refl, refl, refl)
    ]

-- A bare heartbeat keeps what was reported last, and makes it fresh again; an agent that never
-- reported shows as idle.
roster_entry-refresh_presence :
    (a : AgentRow) (w : Option WorkerRow) (ts now : ℕ) (s : Store)
    → let old = find (λ (p : PresenceRow). p.agent == a.id) s.presence in
      let e =
        roster_entry now a
          (find (λ (p : PresenceRow). p.agent == a.id) (refresh_presence a.id ts s).presence)
          w in
      (e.status ≡ (
        if is_fresh now ts
        then elim old [ none ↦ codes "idle" | some p ↦ p.status ]
        else codes "offline"))
      × (e.activity ≡ elim old [ none ↦ none | some p ↦ p.activity ])
unfolding refresh_presence roster_entry
roster_entry-refresh_presence a w ts now s =
    let row =
      find-upsert (λ (p : PresenceRow). p.agent == a.id)
        (record { agent = a.id; status = codes "idle"; activity = none; attention = none; ts = ts })
        (λ p. record p { ts = ts }) s.presence (eq_refl a.id) (λ p. refl) in
    elim (Option-cases (find (λ (p : PresenceRow). p.agent == a.id) s.presence)) [
      | inl e ↦ rw (row, e) (refl, refl)
      | inr (p, e) ↦ rw (row, e) (refl, refl)
    ]
