-- ===== src/Projects.antt =====
-- backend/app/services/projects.py and backend/app/api/projects.py: the projects of a user (Store), and
-- that each user has one default project (Default, Race).
pub mod Store
pub mod Default
pub mod Race
