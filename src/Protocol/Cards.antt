-- ===== src/Protocol/Cards.antt =====
-- crates/parler-protocol/src: directory cards (types.rs) and what the directory says of them (hub.rs).
use parler_protocol.Prelude.{ℕ, Text, Bool, Option, List}
use parler_protocol.Protocol.Visibility.{Visibility}
use parler_protocol.Protocol.Attention.{Attention}
use parler_protocol.Protocol.Parts.{Fields}

pub data EndpointKind : Type 0 where
  agent endpoint : EndpointKind

pub record AgentSkill : Type 0 where
  pub id : Text
  pub name : Text
  pub description : Option Text

pub record AgentCard : Type 0 where
  pub id : Text
  pub name : Text
  pub kind : EndpointKind
  pub role : Option Text
  pub description : Option Text
  pub tags : Option (List Text)
  pub skills : Option (List AgentSkill)
  pub meta : Option Fields
  pub protocol_version : Option Text

pub data DiscoverScope : Type 0 where
  hub public_only : DiscoverScope

pub record DirectoryEntry : Type 0 where
  pub card : AgentCard
  pub visibility : Visibility
  pub status : Text
  pub activity : Option Text
  pub attention : Option Attention
  pub hub : Text
  pub verified : Bool
  pub sig : Option Text
  pub first_seen : ℕ
  pub last_seen : ℕ
