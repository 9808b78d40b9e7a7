-- ===== src/Jobs.antt =====
-- The life of a job: what the web handlers (backend/app/api/jobs.py), the runner (backend/app/worker/
-- runner.py) and the pin rules (backend/app/services/pins.py) write into its row, and which moves of
-- its status follow; and the new order that an administrator gives the queue.
pub mod Rows
pub mod Handlers
pub mod Moves
pub mod Races
pub mod Returns
pub mod Arrange
pub mod Arrangement
