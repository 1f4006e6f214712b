-- ===== src/Social/Posts/Visibility.antt =====
-- Who may read and change a post.
use motogram.Prelude.{
  ℕ, ◌≡◌, ◌≢◌, Option, none, some, is_some, not, inl, inr, arith, ◌==◌, ==_iff, ◌&&◌, Option-cases,
  Bool-cases, String, List, any,
}
use motogram.Prelude.Action.{ok, IsRefused}
use motogram.Prelude.Queries.{any-of_In, In-of_any, find_first-row_if}
use motogram.Social.Schema.{Post, Like, Tables, Store}
use motogram.Social.Follows.Guards.{IsBlocked}
use motogram.Social.Blocks.Laws.{has, peers, has-peers_iff, peers_blocked_either_way_lem}
use motogram.Social.Posts.{find_by_id, attach_liked_by_me, update_post}

module _ (T : Tables) (s : Store T) (viewer id : ℕ) where
  any-liked :
      any (λ l. l.0.0 == id) (T.like.find_many (λ k _. k.1 == viewer && k.0 == id) s.likes)
      ≡ is_some (T.like.find_unique (id, viewer) s.likes)
  any-liked = elim (Option-cases (T.like.find_unique (id, viewer) s.likes)) [
    | inr (l, found) ↦ rw found (
        any-of_In (λ l. l.0.0 == id) ((id, viewer), l) _
          (T.like.find_many_complete (λ k _. k.1 == viewer && k.0 == id) (id, viewer) l s.likes
            found (ground (arith, ==_iff id id, ==_iff viewer viewer)))
          (ground (arith, ==_iff id id)))
    | inl gone ↦
        rw gone
          (elim (Bool-cases (
            any (λ l. l.0.0 == id)
              (T.like.find_many (λ k _. k.1 == viewer && k.0 == id) s.likes))) [
                | inr no_row ↦ no_row
                | inl some_row ↦
                    let (((q, u), l), m, hit) =
                      In-of_any (λ (l : (ℕ × ℕ) × Like). l.0.0 == id)
                        (T.like.find_many (λ k _. k.1 == viewer && k.0 == id) s.likes) some_row in
                    ground (
                      arith,
                      T.like.find_many_sound (λ k _. k.1 == viewer && k.0 == id) (q, u) l s.likes m,
                      gone,
                    )
              ])
  ]

  -- `likedByMe` says whether the viewer's like is there.
  attach_liked_by_me_lem :
      (p : Post)
      → attach_liked_by_me T viewer id p s ≡ (
        ok (record {
          id = id;
          row = p;
          liked_by_me = is_some (T.like.find_unique (id, viewer) s.likes);
        }),
        s,
      )
  unfolding attach_liked_by_me
  attach_liked_by_me_lem p = rw any-liked

  -- Reading a post of another user throws and changes nothing if either of the two blocks the
  -- other.
  pub find_by_id_blocked :
      (p : Post)
      → T.post.find_unique id s.posts ≡ some p
      → p.user_id ≢ viewer
      → IsBlocked T s viewer p.user_id
      → IsRefused (find_by_id T id viewer) s
  unfolding find_by_id
  find_by_id_blocked p found differ b = ground (
    arith,
    ==_iff p.user_id viewer,
    find_first-row_if T.post id (λ p. not (is_some p.deleted_at)) s.posts,
    peers_blocked_either_way_lem T s viewer,
    (has-peers_iff T s viewer p.user_id differ).1 b,
  )

  -- Reading a post of another user that is not deleted returns it and changes nothing if neither
  -- of the two blocks the other, and likedByMe says whether the viewer's like row is there.
  find_by_id_allowed :
      (p : Post)
      → T.post.find_unique id s.posts ≡ some p
      → p.deleted_at ≡ none
      → p.user_id ≢ viewer
      → ¬ IsBlocked T s viewer p.user_id
      → find_by_id T id viewer s ≡ (
        ok (record {
          id = id;
          row = p;
          liked_by_me = is_some (T.like.find_unique (id, viewer) s.likes);
        }),
        s,
      )
  unfolding find_by_id
  find_by_id_allowed p found live differ free =
      elim (Bool-cases (has p.user_id (peers T s viewer))) [
        | inl listed ↦ absurd (free ((has-peers_iff T s viewer p.user_id differ).0 listed))
        | inr clear ↦ ground (
          arith,
          ==_iff p.user_id viewer,
          find_first-row_if T.post id (λ p. not (is_some p.deleted_at)) s.posts,
          peers_blocked_either_way_lem T s viewer,
          attach_liked_by_me_lem p,
        )
      ]

  -- Changing a post of another user throws and changes nothing.
  update_post_foreign :
      (p : Post) (caption : Option String) (hashtags : Option (List String))
      → T.post.find_unique id s.posts ≡ some p
      → p.user_id ≢ viewer
      → IsRefused (update_post T viewer id caption hashtags) s
  unfolding update_post find_by_id
  update_post_foreign p caption hashtags found differ = ground (
    arith,
    ==_iff p.user_id viewer,
    find_first-row_if T.post id (λ p. not (is_some p.deleted_at)) s.posts,
    peers_blocked_either_way_lem T s viewer,
    attach_liked_by_me_lem p,
  )
