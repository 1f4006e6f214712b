-- ===== src/Social/Tests.antt =====
-- A small community on which the services run.
mod Likes
mod Comments
mod Posts
mod Follows
use motogram.Prelude.{ℕ, refl, Bool, true, false, Option, none, some, List, [], ◌∷◌}
use motogram.Prelude.Assoc.{id_table, pair_table}
use motogram.Prelude.Int.{ℤ, pos}
use motogram.Social.Schema.{User, Post, Like, Comment, Follow, Block, accepted, Tables, Store}

abbrev pub tables : Tables
tables = record {
  user = id_table User;
  post = id_table Post;
  like = pair_table Like;
  comment = id_table Comment;
  follow = pair_table Follow;
  block = pair_table Block;
}

abbrev pub member : Bool → ℕ → ℕ → ℕ → User
member hidden followers following posts = record {
  is_private = hidden;
  is_banned = false;
  deleted_at = none;
  followers_count = pos followers;
  following_count = pos following;
  posts_count = pos posts;
}

abbrev pub ride : Post
ride = record {
  user_id = 1;
  caption = some "first ride";
  hashtags = [];
  likes_count = pos 1;
  comments_count = pos 1;
  deleted_at = none;
}

-- User 2 follows user 1, likes post 10 and has commented on it; user 4 has blocked user 1.
abbrev pub town : Store tables
town = record {
  users = (
    (1, member false 1 0 1)
        ∷ (2, member false 0 1 0)
        ∷ (3, member true 0 0 0)
        ∷ (4, member false 0 0 0)
        ∷ [],
    (refl, (refl, (refl, (refl, tt)))),
  );
  posts = ((10, ride) ∷ [], (refl, tt));
  likes = (((10, 2), record { created_at = 5 }) ∷ [], (refl, tt));
  comments = (
    (20, record { post_id = 10; user_id = 2; content = "nice"; deleted_at = none }) ∷ [],
    (refl, tt),
  );
  follows = (((2, 1), record { status = accepted }) ∷ [], (refl, tt));
  blocks = (((4, 1), record { created_at = 6 }) ∷ [], (refl, tt));
  events = [];
}
