-- ===== src/Protocol/Spelling.antt =====
-- Reading back what is written: the spellings of the enums, and references inside parts.
use parler_protocol.Protocol.RoomKind
use parler_protocol.Protocol.RoomKind.{RoomKind}
use parler_protocol.Protocol.Attention
use parler_protocol.Protocol.Attention.{Attention}
use parler_protocol.Protocol.TaskStatus
use parler_protocol.Protocol.TaskStatus.{TaskStatus, working, awaiting, done, failed, cancelled}
