-- ===== src/Community.antt =====
-- The invariant of the tables of posts, comments and likes, and that each operation keeps it.
pub mod Invariant
pub mod Threads
pub mod Likes
pub mod CommentLikes
pub mod Comments
pub mod Posts
pub mod Reports
pub mod Keeps
pub mod Edits
pub mod Purges
pub mod Moderation
pub mod Reach
mod Tests
