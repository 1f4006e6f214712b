-- ===== src/Social.antt =====
-- The social graph and the posts: the services under apps/api/src/modules/{likes,comments,posts,
-- follows,blocks} over the tables that they share.
pub mod Schema
pub mod Likes
pub mod Comments
pub mod Blocks
pub mod Follows
pub mod Posts
mod Tests
