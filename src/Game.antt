-- ===== src/Game.antt =====
-- The game of a room (Server/Server/Server): objects, the map, what each player sees, and combat.
pub mod Floats
pub mod Removal
pub mod Objects
pub mod Stat
pub mod GameMap
pub mod World
pub mod Monster
pub mod Movement
pub mod Navmesh
pub mod Damage
pub mod Skills
pub mod Combat
mod Characters
pub mod View
pub mod Moves
pub mod Patrol
pub mod Behavior
pub mod Updates
pub mod Handling
mod RoomManager
mod Examples
mod Tests
