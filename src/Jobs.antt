-- ===== src/Jobs.antt =====
-- Jobs of the server (Server/Server/Server): the queue of a room or a lobby, and the timer.
pub mod JobQueue
pub mod Timer
