-- ===== src/Community/Moderation.antt =====
-- app/domain/{reports,admin}/service.py: reports and the moderation of posts and comments keep the
-- invariant.
use kyjness_community_be.Prelude.{
  ℕ, ◌≡◌, refl, sym, Bool, true, false, ◌&&◌, ◌||◌, Option, List, [], any_of, arith, Bool-split,
  Option-cases, is_none, inl, inr,
}
use mathlib.Core.Path.{subst}
use kyjness_community_be.Text.{Text}
use kyjness_community_be.Db.Rows.{Db, Comment, TargetType, post, comment}
use kyjness_community_be.Db.Sql.{returning, one_or_none}
use kyjness_community_be.Db.Found.{
  one_or_none_there, one_or_none_absent, one_or_none-any_of, one_or_none_found,
}
use kyjness_community_be.Posts
use kyjness_community_be.Posts.{is_undeleted_post}
use kyjness_community_be.Comments
use kyjness_community_be.Comments.{is_comment, is_undeleted_comment, is_undeleted_in}
use kyjness_community_be.Reports.{delete_by_target, submit_report, has_target}
use kyjness_community_be.Admin
use kyjness_community_be.Community.Invariant.{IsSound, with_reports-IsSound}
use kyjness_community_be.Community.Comments.{uncommented, uncommented-IsSound}
use kyjness_community_be.Community.Reports.{
  submit_report_refused, submit_report_post, submit_report_comment,
}
use kyjness_community_be.Community.Posts.{
  touch_posts-IsSound, touch_comments-IsSound, delete_post_lem, delete_post_absent,
}

module _ (target now : ℕ) (d : Db) (h : IsSound d) where
  pub blind_post-IsSound : IsSound (Admin.blind_post target now d).1
  unfolding Admin.blind_post Posts.set_blinded
  blind_post-IsSound =
      touch_posts-IsSound (is_undeleted_post target)
        (λ p. record p { is_blinded = true; updated_at = now }) (λ r. (refl, refl, refl, refl)) d h

  pub unblind_post-IsSound : IsSound (Admin.unblind_post target now d).1
  unfolding Admin.unblind_post Posts.unblind_post
  unblind_post-IsSound =
      touch_posts-IsSound (is_undeleted_post target)
        (λ p. record p { is_blinded = false; updated_at = now }) (λ r. (refl, refl, refl, refl)) d h

  pub reset_post_reports-IsSound : IsSound (Admin.reset_post_reports target now d).1
  unfolding Admin.reset_post_reports delete_by_target Posts.reset_reports
  reset_post_reports-IsSound =
      touch_posts-IsSound (is_undeleted_post target)
        (λ p. record p { report_count = 0; is_blinded = false; updated_at = now })
        (λ r. (refl, refl, refl, refl)) _ (with_reports-IsSound d _ h)

  pub blind_comment-IsSound : IsSound (Admin.blind_comment target now d).1
  unfolding Admin.blind_comment Comments.set_blinded
  blind_comment-IsSound =
      touch_comments-IsSound (is_comment target)
        (λ c. record c { is_blinded = true; updated_at = now })
        (λ c. (refl, refl, refl, refl, refl)) d h

  pub unblind_comment-IsSound : IsSound (Admin.unblind_comment target now d).1
  unfolding Admin.unblind_comment Comments.unblind_comment
  unblind_comment-IsSound =
      touch_comments-IsSound (is_undeleted_comment target)
        (λ c. record c { is_blinded = false; updated_at = now })
        (λ c. (refl, refl, refl, refl, refl)) d h

  pub reset_comment_reports-IsSound : IsSound (Admin.reset_comment_reports target now d).1
  unfolding Admin.reset_comment_reports delete_by_target Comments.reset_reports
  reset_comment_reports-IsSound =
      touch_comments-IsSound (is_undeleted_comment target)
        (λ c. record c { report_count = 0; is_blinded = false; updated_at = now })
        (λ c. (refl, refl, refl, refl, refl)) _ (with_reports-IsSound d _ h)

  delete_post_ok :
      (images : List ℕ) (d' : Db)
      → Posts.delete_post target now d ≡ ((true, images), d')
      → (Admin.delete_post target now d).1 ≡ d'
  unfolding Admin.delete_post
  delete_post_ok images d' e = ground arith

  delete_post_not_found :
      Posts.delete_post target now d ≡ ((false, []), d) → (Admin.delete_post target now d).1 ≡ d
  unfolding Admin.delete_post
  delete_post_not_found e = ground arith

  pub delete_post-IsSound : IsSound (Admin.delete_post target now d).1
  delete_post-IsSound =
      Bool-split (any_of (is_undeleted_post target) d.posts)
        (λ there.
          let (images, d', e, sound, _, _, _, _, _, _) = delete_post_lem target now d there h in
          rw (delete_post_ok images d' e) sound)
        (λ absent. rw (delete_post_not_found (delete_post_absent target now d absent)) h)

  delete_comment_ok :
      (post_id : ℕ)
      → any_of (is_undeleted_in post_id target) d.comments ≡ true
      → (Admin.delete_comment post_id target now d).1 ≡ uncommented post_id now d target
  unfolding Admin.delete_comment Comments.get_comment_by_id Comments.delete_comment
      Posts.decrement_comment_count returning
  delete_comment_ok post_id there =
      let undeleted : Comment → Bool =
        λ c. is_comment target c && (false || is_none c.deleted_at) in
      let (c, found, is_c) = one_or_none_there (is_undeleted_in post_id target) d.comments there in
      let (_, got, _) = one_or_none_there undeleted d.comments (
        one_or_none-any_of (is_undeleted_in post_id target) undeleted d.comments c found
          (ground arith)) in
      ground arith

  delete_comment_not_found :
      (post_id : ℕ)
      → any_of (is_undeleted_in post_id target) d.comments ≡ false
      → (Admin.delete_comment post_id target now d).1 ≡ d
  unfolding Admin.delete_comment Comments.delete_comment returning
  delete_comment_not_found post_id absent =
      let none_found = one_or_none_absent (is_undeleted_in post_id target) d.comments absent in
      elim (Option-cases (Comments.get_comment_by_id target false d)) [
        | inl no_row ↦ ground arith
        | inr (c, row) ↦ ground arith
      ]

  pub delete_comment-IsSound : (post_id : ℕ) → IsSound (Admin.delete_comment post_id target now d).1
  delete_comment-IsSound post_id =
      Bool-split (any_of (is_undeleted_in post_id target) d.comments)
        (λ there.
          rw (delete_comment_ok post_id there) (uncommented-IsSound post_id now d target there h))
        (λ absent. rw (delete_comment_not_found post_id absent) h)

  module _ (threshold report_id reporter_id : ℕ) (reason : Option Text) where
    abbrev reported : TargetType → Db
    reported kind = (submit_report threshold report_id reporter_id kind target reason now d).1

    refused : (kind : TargetType) → has_target kind target d ≡ false → IsSound (reported kind)
    refused kind absent =
        let (_, e) =
          submit_report_refused threshold report_id reporter_id target reason now d kind absent in
        subst (λ x. IsSound x.1) (sym e) h

    pub submit_report-IsSound : (kind : TargetType) → IsSound (reported kind)
    unfolding has_target Posts.get_post_author_id Comments.get_comment_by_id
    submit_report-IsSound post =
        elim (Option-cases (one_or_none (is_undeleted_post target) d.posts)) [
          | inl absent ↦ refused post (ground arith)
          | inr (p, found) ↦
              Bool-split (is_none p.user_id) (λ no_author. refused post (ground arith))
                (λ author.
                  let (_, e, sound, _, _, _) =
                    submit_report_post threshold report_id reporter_id target reason now d p found
                      author h in
                  subst (λ x. IsSound x.1) (sym e) sound)
        ]
    submit_report-IsSound comment =
        Bool-split (any_of (λ c. is_comment target c && is_none c.deleted_at) d.comments)
          (λ there.
            let (c, found, _, live) =
              one_or_none_found (is_comment target) (λ c. is_none c.deleted_at) d.comments
                (h.comment_likes.unique target) there in
            let (_, e, sound, _, _) =
              submit_report_comment threshold report_id reporter_id target reason now d c found
                (ground arith) h in
            subst (λ x. IsSound x.1) (sym e) sound)
          (λ absent.
            let no_row =
              one_or_none_absent (λ c. is_comment target c && is_none c.deleted_at) d.comments
                absent in
            refused comment (ground arith))
