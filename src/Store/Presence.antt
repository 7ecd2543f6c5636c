-- ===== src/Store/Presence.antt =====
-- crates/parler-hub/src/store.rs, "agents / presence".
pub mod Liveness
use parler_protocol.Prelude.{ℕ, Text, codes, ◌==◌, Option, none, some, upsert}
use parler_protocol.Protocol.Attention.{Attention}
use parler_protocol.Protocol.Attention as Attention
use parler_protocol.Store.Tables.{Store}

unfoldable pub upsert_agent : Text → Text → Option Text → ℕ → Store → Store
upsert_agent id name role now s = record s {
  agents =
      upsert (λ a. a.id == id)
        (record { id = id; name = name; role = role; first_seen = now; last_seen = now })
        (λ a. record a { name = name; role = role; last_seen = now }) s.agents;
}

-- `COALESCE`.
abbrev pub or_else : Option Text → Option Text → Option Text
or_else none old = old
or_else (some a) old = some a

abbrev pub attention_text : Option Attention → Option Text
attention_text none = none
attention_text (some a) = some (Attention.as_str a)

unfoldable pub touch_presence : Text → Text → Option Text → Option Attention → ℕ → Store → Store
touch_presence agent status activity attention now s = record s {
  presence =
      upsert (λ p. p.agent == agent)
        (record {
          agent = agent;
          status = status;
          activity = activity;
          attention = attention_text attention;
          ts = now;
        })
        (λ p. record p {
          status = status;
          activity = activity;
          attention = or_else (attention_text attention) p.attention;
          ts = now;
        })
        s.presence;
}

unfoldable pub refresh_presence : Text → ℕ → Store → Store
refresh_presence agent now s = record s {
  presence =
      upsert (λ p. p.agent == agent)
        (record {
          agent = agent;
          status = codes "idle";
          activity = none;
          attention = none;
          ts = now;
        })
        (λ p. record p { ts = now }) s.presence;
}

unfoldable pub set_attention : Text → Attention → ℕ → Store → Store
set_attention agent attention now s = record s {
  presence =
      upsert (λ p. p.agent == agent)
        (record {
          agent = agent;
          status = codes "idle";
          activity = none;
          attention = some (Attention.as_str attention);
          ts = now;
        })
        (λ p. record p { attention = some (Attention.as_str attention); ts = now }) s.presence;
}
