-- ===== src/Lib.antt =====
-- The game server of dnf_mock_server-client: how bytes become packets, and what the server keeps
-- about sessions, parties, channels and dungeons.
--
-- A TCP session reads bytes, appends them to a receive buffer and pops packets from it. Requests
-- reach the party manager and the channel manager. A dungeon has rooms with enemies and obstacles
-- and a state for each player; its players send their inputs by UDP, to a session of its own, which
-- knows them by tokens and endpoints. The dungeon manager makes dungeons from the templates of a
-- catalog, the UDP manager their UDP sessions, and the lifecycle service keeps the two together. A
-- tick starts, cancels and ends dungeons, and a combat tick turns the queued attacks into hits. The
-- database executor runs tasks from a bounded queue. Before a login, a limiter counts the attempts
-- of an address and of an account.
--
-- Packet (include/Packet.h, src/Packet.cpp): `ValidateHeader`, `EncodeHeader`, `DecodeHeader`,
--   `EncodePacket`. Packet.PacketType has the packet types, Packet.RoundTrip the two round trips.
-- ReceiveBuffer (include/ReceiveBuffer.h, src/ReceiveBuffer.cpp): `Append`, `TryPop`, `Size`,
--   `CompactIfNeeded`. ReceiveBuffer.View sees the buffer as its unread bytes, Whole and Drain treat
--   one packet and the packets that have arrived, Stream a connection.
-- Party (include/PartyManager.h, src/PartyManager.cpp): `CreateParty`, `JoinParty`, `LeaveParty`,
--   `GetParty`, `GetJoinedParty`. Party.Invariant relates the two tables, Party.Calls has histories.
-- Channel (include/ChannelManager.h, src/ChannelManager.cpp): `AddChannel`, `JoinChannel`,
--   `LeaveChannel`, `GetChannelList`, `GetJoinedChannel`, in the same way.
-- Geometry (include/DungeonRoom.h, src/DungeonRoom.cpp), EnemyCatalog (include/EnemyCatalog.h,
--   src/EnemyCatalog.cpp).
-- Room (include/RoomState.h, src/RoomState.cpp): `StartNextWave`, `ApplyEnemyDamage`,
--   `ApplyObstacleDamage`, `IsCleared`, `CheckPosition`; the properties in Waves, Damage, Positions.
-- Player (include/DungeonPlayerState.h, src/DungeonPlayerState.cpp): `ApplyDamage`, `BeginSkill`,
--   `AdvanceCombatTick`, `MoveTo`, `EnterRoom`, `RebindSession`, `Snapshot`; the properties in
--   Invariant, Calls, Timeline, Movement, Skills.
-- UdpMessages (include/DungeonProtocol.h) and UdpSession (include/DungeonUdpSession.h,
--   src/DungeonUdpSession.cpp): `HandleReceive` and the handlers it calls, `DisconnectParticipant`,
--   `ReplaceParticipant`, `RemoveParticipant`, `RemoveInactiveEndpoints`, the two input queues; the
--   properties in Sequence, Invariant, Handlers, Calls, Participants, Inputs.
-- Dungeon (include/DungeonInstance.h, src/DungeonInstance.cpp): the constructor. Dungeon.Membership has
--   `BindParticipantPlayer`, `DisconnectParticipant`, `ReconnectParticipant`,
--   `RollbackParticipantReconnect`, `RemoveExpiredDisconnectedParticipants`,
--   `RemoveAllParticipants`, `ConnectedParticipantCount`, with the properties in Invariant, Rename,
--   Reconnect, Rollback, Reachable; Dungeon.Progress has `Start`, `Finish`, `AdvanceRoomWaves`,
--   `TryUsePortal`, `TryFinishIfCleared`, with the properties in Portals and Phases. Dungeon.Calls has
--   histories of all of these calls and of those on the players and rooms; Membership.Others has what
--   the latter leave in agreement.
-- Limiter (include/LoginAttemptLimiter.h, src/LoginAttemptLimiter.cpp): `TryAcquire` and the permit's
--   release; Limiter.Histories has the tables of attempts, Limiter.Bounds the whole.
-- DungeonCatalog (include/DungeonCatalog.h, src/DungeonCatalog.cpp): `AddDungeon`, `GetDungeon`,
--   `GetDungeonList`. Accepted and Additions have the templates that get in, Instances the dungeons
--   that are made of them, Furnished, Housed and PortalTargets their rooms,
--   players and portals.
-- DungeonManager (include/DungeonManager.h, src/DungeonManager.cpp): `CreateDungeon`, `Stop` and the
--   lookups; DungeonManager.Sessions has `RegisterPlayerSession`, `RollbackPlayerReconnect` and
--   `DisconnectPlayerSession`, DungeonManager.Lifetime has `SweepAbandonedParticipants`,
--   `StartDungeon`, `CancelDungeon` and `FinishDungeon`. Ids, Invariant, Sweep, LogIn, Creation and
--   Calls have the agreement of the tables, Success and Made the creation, Participants, Returns,
--   TakenBack and Departures who takes part.
-- DungeonUdpManager (include/DungeonUdpManager.h, src/DungeonUdpManager.cpp): `Allocate`,
--   `GenerateToken`, `ReplaceParticipant`, `Release`, `Stop` and the calls that are passed on to a
--   session. Tokens has the loops that draw tokens, Replacement the sixteen attempts.
-- Lifecycle (include/DungeonLifecycleService.h, src/DungeonLifecycleService.cpp): the five operations
--   on both managers; Agreement, Removal, Endings and Calls have the agreement of tokens and
--   participants.
-- Dispatcher (src/PacketDispatcher.cpp): `HandleEnterDungeonRequest`; Opened and Entry.
-- SkillCatalog (include/SkillCatalog.h, src/SkillCatalog.cpp, src/PlayerSkillBook.cpp): `AddSkill`,
--   `GetSkill`, `SkillCount`, and `LearnSkill`, `HasSkill`, `SkillLevel`, `Snapshot` of a skill book.
-- Combat (include/DungeonCombatProcessor.h, src/DungeonCombatProcessor.cpp): the hits of a player and
--   `ResolvePendingHits`, with Pending; Combat.Process has `Process`.
-- TickService (include/DungeonTickService.h, src/DungeonTickService.cpp): `AdvanceDeadline`, and the
--   loops of `HandleTick` over the waiting and the finished dungeons; Deadline, Waiting and Cancelled.
-- DatabaseExecutor (include/DatabaseExecutor.h, src/DatabaseExecutor.cpp): `TryPost`, `Post`,
--   `DrainAndStop` and what a worker does before and after a task; Steps has the invariant, Calls any
--   interleaving of callers and workers.
-- Prelude, Map, Sort and Float are shared: tests and lists on native numbers, `std::unordered_map` as
-- an association list with distinct keys, `std::sort` by a key, and `float`. Examples has concrete
-- data on which the theorems are used.
--
-- State is passed explicitly: an operation takes a record and returns the next one with its result.
-- Most methods hold a mutex for their whole body, so each is one step, and a list of calls stands for
-- any interleaving of threads. `AdvanceRoomWaves`, `TryUsePortal` and `TryFinishIfCleared` of a
-- dungeon, and `HandleReceive` of its UDP session, lock in several pieces, and are modelled as they
-- run when no other call comes between; so are the operations of the lifecycle service, the loops of
-- a tick, a combat tick and the request to enter a dungeon. Exceptions are the `err` case of
-- Prelude.Except. An integer of w bits is a natural number, and where the code can wrap, the
-- remainder is written out. A `float` is a type with operations and no laws. The order of iteration of a hash map is the order of the list,
-- so a theorem about any list is one about any order. Time is an argument of the operations that
-- read the clock.
--
-- Bounds: the loop that pops packets runs on fuel, one more than the number of unread bytes, which
-- is enough since every packet has at least one byte. Party ids are 64-bit numbers that wrap, so the
-- theorem on parties is for fewer than 2 ^ 64 - 1 calls, and that on dungeons too. The loops that draw
-- a UDP token until it is new run on the list of tokens that the generator gives, and return as soon
-- as the list has enough different ones. The loop over the queued attacks of a dungeon has the
-- length of the queue as its fuel.
--
-- Not modelled: sockets, timers and threads; the FlatBuffers codecs, which are generated (the
-- decoders of UDP messages are a parameter); the databases and password hashing; the snapshots
-- that a UDP session sends; the movement of the players and the loop of a tick over the running
-- dungeons; the login of a player; the client.
mod Prelude
pub mod Map
pub mod Packet
pub mod ReceiveBuffer
pub mod Party
pub mod Sort
pub mod Channel
pub mod Float
pub mod Geometry
pub mod EnemyCatalog
pub mod Room
pub mod Player
pub mod UdpMessages
pub mod UdpSession
pub mod Dungeon
pub mod DungeonCatalog
pub mod DungeonManager
pub mod DungeonUdpManager
pub mod Lifecycle
pub mod Dispatcher
pub mod DatabaseExecutor
pub mod TickService
pub mod SkillCatalog
pub mod Combat
pub mod Limiter
pub mod Examples
