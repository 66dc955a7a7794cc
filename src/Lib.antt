-- ===== src/Lib.antt =====
-- A model of the game server of this repository (Server/Server/Server), with theorems on it.
--
-- A client's bytes arrive at a session, which collects them in a receive buffer, cuts them into
-- packets and hands each to a packet handler. Handlers push jobs to the job queue of a room, and
-- the timer pushes others there after a delay; worker threads of a completion port drain the job
-- queues. A job changes the room: its objects, the grid of its map, the view lists of its
-- characters. What it has to tell its players goes to their sessions' send queues.
--
-- The modules, and the code that each is about:
--   Net.RecvBuffer       RecvBuffer.h and .cpp: `OnRead` is `on_read`, `OnWrite` is `on_write`,
--                        `CleanCheck` is `clean_check`; `deposit` is what the kernel writes
--   Net.Framing          `Session::ProcessData` (Session.cpp) is `process_data`
--   Net.SendBuffer, Net.SendBufferQueue    SendBuffer.h and .cpp
--   Net.Session          Session.h and .cpp: one function per handler, with `disconnect`,
--                        `register_recv`, `process_recv`, `send`, `register_send`, `process_send`
--   Net.Session.Threads  `Send`, `RegisterSend` and `ProcessSend` again, as a relation of atomic
--                        steps of any number of threads
--   Jobs.JobQueue        JobQueue.h and .cpp, as a relation of atomic steps of any number of threads
--   Jobs.Timer           Timer.h, Timer.cpp and `ConcurrentPQ` (ConcurrentQueue.h)
--   Game.Floats          `float` and its functions, a parameter of the rest
--   Game.Objects         ProtocolSturct.h, GameObject.h, Character.h, Player.h, Monster.h: the data
--   Game.Removal         the removal from a vector in `Character::RemoveView` and in GameMap.cpp
--   Game.GameMap         GameMap.h and GameMap.cpp; what the two files give is an argument of
--                        `load_map_data`
--   Game.World, Game.World.Broadcast    the state of Room.h and its sends
--   Game.Monster         Monster.cpp: stopping, state changes, sleeping and waking
--   Game.Movement        GameObject.cpp: `Move`, `ApplyMovement`, `Update`, over DirectXMath, a
--                        parameter
--   Game.Patrol, Game.Behavior    Monster.cpp: `UpdateAI` and what it decides in each state
--   Game.Updates         Monster.cpp: `FollowPath` and `Update`; `Room::Update` (Room.cpp)
--   Game.Moves           `AddObject`, `PlayerEnterRoom`, `PlayerLeaveRoom`, `PlayerMove`,
--                        `NpcEnterRoom` and `NPCMove` of Room.cpp
--   Game.RoomManager     `RoomManager` (Room.h, Room.cpp)
--   Game.Handling        the jobs of a room, and their run by `JobQueue::ExecuteJobs`
--   Game.Stat, Game.Damage    StatComponent.h; OnDamaged and OnDead of Character.cpp, Player.cpp and
--                        Monster.cpp, `Room::ApplyDelayedDamage`
--   Game.Skills, Game.Combat    ServerData.h, `MathUtils` (Utils.h), CombatProcessor.cpp,
--                        `Character::Attack`, `Room::CharacterAttack`, `Room::ExecuteSkillHit`
--   Game.Characters      the table of characters (ServerData.h) and the constructors of Monster.cpp
--                        and Player.cpp
--   Game.Navmesh         NavmeshManager.cpp, over Detour's queries, a parameter
--   Game.View            `Room::UpdateView` (Room.cpp)
--   Wire                 PacketSerializer.cpp over the packed structs of ProtocolSturct.h and
--                        TestProtocol.h; Wire.Handlers is PacketHandler.cpp, Wire.Chat is
--                        `Room::PlayerChat`, Wire.Stress is the receive loop of the test client
--                        (STRESS/STRESS/NetworkModule.cpp)
-- In each of them the children hold the proofs, and Tests the examples. Prelude has what they share.
--
-- Handlers are functions from state to state. A session's handlers run to their end one at a time;
-- the job queue and the sends of a session are the parts whose interleavings are modelled. A packet
-- handler in the loop of `process_data` also gives what it writes into its packet, since the loop
-- goes on reading that memory. A handler that would read through a
-- null pointer or would not end says so in its result. Socket calls are entries of a log, and
-- whether one fails at once is an argument. The objects of a room stand in a heap by address, so
-- that the maps of the room share them. Floats are a parameter; a theorem that needs a law of them
-- has it as a hypothesis.
--
-- The one fuel is that of the loop of `process_data`. A round more than there are bytes is enough
-- unless the loop comes to a header of size 0, and then no fuel is.
--
-- Not modelled: the sockets, the completion port and the start-up, ODBC, the reading of files and
-- Detour's navigation mesh, which are input, output and other projects' libraries; the rest of the
-- test client, which drives sockets and a window, and the generator of meshes, which calls Recast;
-- and, of the server, the first filling of a room with monsters, the login and the database's
-- thread, and the set of sessions.
mod Prelude
pub mod Net
pub mod Jobs
pub mod Game
pub mod Wire
