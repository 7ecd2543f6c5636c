-- ===== src/Server/Janitor.antt =====
-- crates/parler-hub/src/server.rs, `Retention` and `janitor_pass`: what the background janitor asks
-- of the store. Ages are in milliseconds; SQLite's `incremental_vacuum` changes no row.
pub mod Floor
use parler_protocol.Prelude.{
  ℕ, ◌-◌, ◌*◌, Text, ◌==◌, ◌≡◌, refl, Bool, true, Option, none, some, List, [], ◌∷◌, leb, take,
  reverse, select, arith,
}
use parler_protocol.Store.Tables.{Store, MessageRow}
use parler_protocol.Store.Retention.{prune_messages, sweep_expired, prune_facts}
use parler_protocol.Store.Retention.Pruning.{prune_messages-keeps}
use parler_protocol.Store.Blobs.{gc_blobs}

pub record Retention : Type 0 where
  pub message_max_age : Option ℕ
  pub keep_messages_per_room : ℕ
  pub keep_unkeyed_facts : Option ℕ
  pub blob_max_idle : Option ℕ
  pub interval : ℕ

unfoldable pub default : Retention
default = record {
  message_max_age = some (30 * 24 * 3600 * 1000);
  keep_messages_per_room = 10000;
  keep_unkeyed_facts = some 500;
  blob_max_idle = some (14 * 24 * 3600 * 1000);
  interval = 3600 * 1000;
}

unfoldable pub aged : Option ℕ → ℕ → ℕ → Store → Store
aged none keep now s = s
aged (some age) keep now s = (prune_messages age keep now s).1

unfoldable pub trimmed : Option ℕ → Store → Store
trimmed none s = s
trimmed (some keep) s = (prune_facts keep s).1

unfoldable pub collected : Option ℕ → ℕ → Store → List Text × Store
collected none now s = ([], s)
collected (some idle) now s = gc_blobs idle now s

-- The content ids whose bytes are to be unlinked.
unfoldable pub janitor_pass : Retention → ℕ → Store → List Text × Store
unfolding aged trimmed collected
janitor_pass r now s =
    let swept = (sweep_expired now s).1 in
    let pruned = aged r.message_max_age r.keep_messages_per_room now swept in
    collected r.blob_max_idle now (trimmed r.keep_unkeyed_facts pruned)
