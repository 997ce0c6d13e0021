-- ===== src/Community/Keeps.antt =====
-- app/domain/{likes,comments,posts,reports,admin}: a call of a service, however it ends, keeps the
-- invariant.
use kyjness_community_be.Prelude.{
  ℕ, ◌≡◌, refl, ap, ◌∙◌, true, false, ◌&&◌, ◌||◌, Option, none, some, count_if, arith, ◌==◌,
  Bool-split, Option-cases, is_none, inl, inr,
}
use kyjness_community_be.Text.{Text}
use kyjness_community_be.Db.Rows.{Db, Comment}
use kyjness_community_be.Db.Action.{Error, Result, ok, err}
use kyjness_community_be.Db.Found.{one_or_none_absent}
use kyjness_community_be.Posts
use kyjness_community_be.Comments
use kyjness_community_be.Comments.{is_comment}
use kyjness_community_be.Comments.Service
use kyjness_community_be.Likes.{like_post, unlike_post, like_comment, unlike_comment}
use kyjness_community_be.Community.Invariant.{IsSound}
use kyjness_community_be.Community.Likes.{like_post_lem, like_post_refused, unlike_post_lem}
use kyjness_community_be.Community.CommentLikes.{
  is_there, like_comment_lem, like_comment_refused, unlike_comment_lem,
}
use kyjness_community_be.Community.Comments.{
  ensure_parent_lem, create_comment_lem, delete_comment_lem, delete_comment_again,
}

pub like_post-IsSound :
    (post_id user_id nid now : ℕ) (d : Db)
    → IsSound d
    → IsSound (like_post post_id user_id nid now d).1
like_post-IsSound post_id user_id nid now d h =
    Bool-split (Posts.post_is_visible post_id none d)
      (λ visible.
        let (_, d', e, sound, _, _, _) = like_post_lem post_id user_id now d nid visible h in
        rw e sound)
      (λ hidden. rw (like_post_refused post_id user_id now d nid hidden) h)

unlike_post_refused :
    (post_id user_id now : ℕ) (d : Db)
    → Posts.post_is_visible post_id none d ≡ false
    → (unlike_post post_id user_id now d).1 ≡ d
unfolding unlike_post
unlike_post_refused post_id user_id now d hidden = ground arith

pub unlike_post-IsSound :
    (post_id user_id now : ℕ) (d : Db) → IsSound d → IsSound (unlike_post post_id user_id now d).1
unlike_post-IsSound post_id user_id now d h =
    Bool-split (Posts.post_is_visible post_id none d)
      (λ visible.
        let (d', e, sound, _) = unlike_post_lem post_id user_id now d visible h in rw e sound)
      (λ hidden. rw (unlike_post_refused post_id user_id now d hidden) h)

pub like_comment-IsSound :
    (comment_id user_id nid now : ℕ) (d : Db)
    → IsSound d
    → IsSound (like_comment comment_id user_id nid now d).1
like_comment-IsSound comment_id user_id nid now d h =
    Bool-split (is_there comment_id d)
      (λ there.
        let (_, d', e, sound, _, _, _) = like_comment_lem comment_id user_id now d nid there h in
        rw e sound)
      (λ absent. rw (like_comment_refused comment_id user_id now d nid absent) h)

unlike_comment_refused :
    (comment_id user_id : ℕ) (d : Db)
    → is_there comment_id d ≡ false
    → (unlike_comment comment_id user_id d).1 ≡ d
unfolding unlike_comment Comments.get_comment_by_id
unlike_comment_refused comment_id user_id d absent = ground (
  arith,
  one_or_none_absent (λ c. is_comment comment_id c && (false || is_none c.deleted_at)) d.comments
      absent,
)

pub unlike_comment-IsSound :
    (comment_id user_id : ℕ) (d : Db) → IsSound d → IsSound (unlike_comment comment_id user_id d).1
unlike_comment-IsSound comment_id user_id d h =
    Bool-split (is_there comment_id d)
      (λ there.
        let (d', e, sound, _) = unlike_comment_lem comment_id user_id 0 d there h in rw e sound)
      (λ absent. rw (unlike_comment_refused comment_id user_id d absent) h)

module _ (comment_id post_id user_id : ℕ) (content : Text) (parent_id : Option ℕ) (nid now : ℕ)
    (d : Db) where
  abbrev after : Db
  after = (Service.create_comment comment_id post_id user_id content parent_id nid now d).1

  create_comment_hidden : Posts.post_is_visible post_id (some user_id) d ≡ false → after ≡ d
  unfolding Service.create_comment Service.ensure_post_visible
  create_comment_hidden hidden = ground arith

  create_comment_no_parent :
      (e : Error) (d' : Db)
      → Service.ensure_parent post_id parent_id d ≡ (err e, d')
      → Posts.post_is_visible post_id (some user_id) d ≡ true
      → after ≡ d
  unfolding Service.create_comment Service.ensure_post_visible
  create_comment_no_parent e d' raised visible = ground arith

  pub create_comment-IsSound :
      count_if (is_comment comment_id) d.comments ≡ 0 → IsSound d → IsSound after
  create_comment-IsSound fresh h =
      Bool-split (Posts.post_is_visible post_id (some user_id) d)
        (answered (Service.ensure_parent post_id parent_id d) refl)
        (λ hidden. rw (create_comment_hidden hidden) h)
    where
      answered :
          (r : Result (Unit {0}) × Db)
          → Service.ensure_parent post_id parent_id d ≡ r
          → Posts.post_is_visible post_id (some user_id) d ≡ true
          → IsSound after
      answered (err e, d') raised visible = rw (create_comment_no_parent e d' raised visible) h
      answered (ok _, d') passed visible =
          let (same, _) = ensure_parent_lem post_id parent_id d d' passed in
          let (_, d'', e, sound, _, _) =
            create_comment_lem post_id now d comment_id user_id content parent_id nid visible
              (passed ∙ ap (λ x. (ok tt, x)) same) fresh h in
          rw (e, after) sound

module _ (post_id comment_id now : ℕ) (d : Db) where
  delete_comment_absent :
      Comments.get_comment_by_id comment_id true d ≡ none
      → (Service.delete_comment post_id comment_id now d).1 ≡ d
  unfolding Service.delete_comment
  delete_comment_absent absent = ground arith

  delete_comment_elsewhere :
      (c : Comment)
      → Comments.get_comment_by_id comment_id true d ≡ some c
      → (c.post_id == post_id) ≡ false
      → (Service.delete_comment post_id comment_id now d).1 ≡ d
  unfolding Service.delete_comment
  delete_comment_elsewhere c found other = ground arith

  pub delete_comment-IsSound :
      IsSound d → IsSound (Service.delete_comment post_id comment_id now d).1
  delete_comment-IsSound h = elim (Option-cases (Comments.get_comment_by_id comment_id true d)) [
    | inl absent ↦ rw (delete_comment_absent absent) h
    | inr (c, found) ↦
        Bool-split (c.post_id == post_id)
          (λ here. elim (Option-cases c.deleted_at) [
            | inl live ↦
                let (d', e, sound, _) =
                  delete_comment_lem post_id now d comment_id c found here live h in
                rw e sound
            | inr (t, gone) ↦
                rw (delete_comment_again post_id now d comment_id c t found here gone) h
          ])
          (λ other. rw (delete_comment_elsewhere c found other) h)
  ]
