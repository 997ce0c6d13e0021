-- ===== src/Community/Reports.antt =====
-- app/domain/reports/service.py: what a report does to its target.
use kyjness_community_be.Prelude.{
  ℕ, ◌+◌, ◌≡◌, refl, ◌∙◌, Bool, true, false, not, ◌&&◌, ◌||◌, Option, none, some, [], ◌∷◌, ◌++◌,
  leb, arith, Bool-split, is_none, any_of,
}
use kyjness_community_be.Text.{Text}
use kyjness_community_be.Db.Rows.{Db, Post, Comment, Report, TargetType, post, comment}
use kyjness_community_be.Db.Sql.{update_where, returning, one_or_none, any_of-hide}
use kyjness_community_be.Db.Action.{Error, ok, err, post_not_found, comment_not_found}
use kyjness_community_be.Db.Found.{
  one_or_none-test, one_or_none_there, one_or_none-any_of, one_or_none-update_where,
}
use kyjness_community_be.Posts
use kyjness_community_be.Posts.{is_undeleted_post, is_post, is_visible_to}
use kyjness_community_be.Comments
use kyjness_community_be.Comments.{is_comment}
use kyjness_community_be.Reports.{
  create_report, create_report_and_maybe_blind, submit_report, has_target, increment_report_count,
  set_blinded,
}
use kyjness_community_be.Community.Invariant.{IsSound, with_reports-IsSound}
use kyjness_community_be.Community.Posts.{touch_posts-IsSound, touch_comments-IsSound}

module _ (threshold report_id reporter_id target_id : ℕ) (reason : Option Text) (now : ℕ)
    (d : Db) where
  -- A report of a target that is not there, or of a post without an author, is refused and leaves no
  -- row behind.
  pub submit_report_refused :
      (kind : TargetType)
      → has_target kind target_id d ≡ false
      → (e : Error) × (submit_report threshold report_id reporter_id kind target_id reason now d
          ≡ (err e, d))
  unfolding submit_report
  submit_report_refused post absent = (post_not_found, ground arith)
  submit_report_refused comment absent = (comment_not_found, ground arith)

  abbrev pub new_report : TargetType → Report
  new_report kind = record {
    id = report_id;
    reporter_id = reporter_id;
    target_type = kind;
    target_id = target_id;
    reason = reason;
    created_at = now;
    deleted_at = none;
  }

  abbrev up : Post → Post
  up p = record p { report_count = p.report_count + 1; updated_at = now }

  abbrev blind : Post → Post
  blind p = record p { is_blinded = true; updated_at = now }

  -- the tables with the report and the post's count
  abbrev reported : Db
  reported = record d {
    reports = d.reports ++ new_report post ∷ [];
    posts = update_where (is_undeleted_post target_id) up d.posts;
  }

  abbrev blinded : Db
  blinded = record reported {
    posts = update_where (is_undeleted_post target_id) blind reported.posts;
  }

  reported-IsSound : IsSound d → IsSound reported
  reported-IsSound h =
      touch_posts-IsSound (is_undeleted_post target_id) up (λ r. (refl, refl, refl, refl))
        (record d { reports = reported.reports }) (with_reports-IsSound d reported.reports h)

  -- the row of the post has a report more than `p` had
  abbrev pub IsReported : Post → Db → Type 0
  IsReported p d' =
      (q : Post) × (one_or_none (is_undeleted_post target_id) d'.posts ≡ some q)
      × (q.report_count ≡ p.report_count + 1)
      × (q.title ≡ p.title)
      × (q.content ≡ p.content)

  reported-IsReported :
      (p : Post)
      → one_or_none (is_undeleted_post target_id) d.posts ≡ some p
      → IsReported p reported
  reported-IsReported p found =
      let is_p = one_or_none-test (is_undeleted_post target_id) d.posts p found in
      let moved =
        one_or_none-update_where (is_undeleted_post target_id) (is_undeleted_post target_id) up
          (λ r. refl) d.posts p found in
      (up p, moved ∙ ground arith, refl, refl, refl)

  blinded-IsReported :
      (p : Post) → one_or_none (is_undeleted_post target_id) d.posts ≡ some p → IsReported p blinded
  blinded-IsReported p found =
      let (q, there, counted, title, content) = reported-IsReported p found in
      let is_q = one_or_none-test (is_undeleted_post target_id) reported.posts q there in
      let moved =
        one_or_none-update_where (is_undeleted_post target_id) (is_undeleted_post target_id) blind
          (λ r. refl) reported.posts q there in
      (blind q, moved ∙ ground arith, counted, title, content)

  -- On sound tables a report of an undeleted post that has an author is accepted: its row is added, and
  -- the count of reports that the post carries goes up by one. The answer is whether the new count
  -- reaches the threshold; if it does, no viewer sees the post any more. The tables stay sound.
  pub submit_report_post :
      (p : Post)
      → one_or_none (is_undeleted_post target_id) d.posts ≡ some p
      → is_none p.user_id ≡ false
      → IsSound d
      → (d' : Db) × (submit_report threshold report_id reporter_id post target_id reason now d
          ≡ (ok (leb threshold (p.report_count + 1)), d'))
        × IsSound d'
        × (d'.reports ≡ d.reports ++ new_report post ∷ [])
        × IsReported p d'
        × (leb threshold (p.report_count + 1) ≡ true
            → (viewer : Option ℕ) → Posts.post_is_visible target_id viewer d' ≡ false)
  unfolding submit_report has_target Posts.get_post_author_id create_report
      create_report_and_maybe_blind increment_report_count Posts.increment_report_count set_blinded
      Posts.set_blinded returning Posts.post_is_visible
  submit_report_post p found author h =
      Bool-split (leb threshold (p.report_count + 1))
        (λ reached. (
          blinded,
          ground arith,
          touch_posts-IsSound (is_undeleted_post target_id) blind (λ r. (refl, refl, refl, refl))
              reported (reported-IsSound h),
          refl,
          blinded-IsReported p found,
          λ _ viewer.
              any_of-hide (λ p. is_post target_id p && is_visible_to viewer blinded p)
                (is_undeleted_post target_id) blind (λ r. ground arith) (λ r e. ground arith)
                reported.posts,
        ))
        (λ short. (
          reported,
          ground arith,
          reported-IsSound h,
          refl,
          reported-IsReported p found,
          λ reached. ground arith,
        ))

  abbrev up_comment : Comment → Comment
  up_comment c = record c { report_count = c.report_count + 1 }

  abbrev blind_comment : Comment → Comment
  blind_comment c = record c { is_blinded = true; updated_at = now }

  -- the tables with the report and the comment's count
  abbrev comment_reported : Db
  comment_reported = record d {
    reports = d.reports ++ new_report comment ∷ [];
    comments = update_where (is_comment target_id) up_comment d.comments;
  }

  abbrev comment_blinded : Db
  comment_blinded = record comment_reported {
    comments = update_where (is_comment target_id) blind_comment comment_reported.comments;
  }

  comment_reported-IsSound : IsSound d → IsSound comment_reported
  comment_reported-IsSound h =
      touch_comments-IsSound (is_comment target_id) up_comment (λ r. (refl, refl, refl, refl, refl))
        (record d { reports = comment_reported.reports })
        (with_reports-IsSound d comment_reported.reports h)

  -- A report of an undeleted comment is accepted. It answers that it blinds the comment exactly if the
  -- comment's reports, this one counted, reach the threshold; then the comment is blinded. The counts
  -- and threads stay right.
  pub submit_report_comment :
      (c : Comment)
      → one_or_none (is_comment target_id) d.comments ≡ some c
      → c.deleted_at ≡ none
      → IsSound d
      → (d' : Db) × (submit_report threshold report_id reporter_id comment target_id reason now d
          ≡ (ok (leb threshold (c.report_count + 1)), d'))
        × IsSound d'
        × (d'.reports ≡ d.reports ++ new_report comment ∷ [])
        × (leb threshold (c.report_count + 1) ≡ true
            → any_of (λ c. is_comment target_id c && not c.is_blinded) d'.comments ≡ false)
  unfolding submit_report has_target Comments.get_comment_by_id create_report
      create_report_and_maybe_blind increment_report_count Comments.increment_report_count
      set_blinded Comments.set_blinded returning
  submit_report_comment c found live h =
      let undeleted : Comment → Bool =
        λ c. is_comment target_id c && (false || is_none c.deleted_at) in
      let is_c = one_or_none-test (is_comment target_id) d.comments c found in
      let (_, there, _) =
        one_or_none_there undeleted d.comments
          (one_or_none-any_of (is_comment target_id) undeleted d.comments c found (ground arith)) in
      Bool-split (leb threshold (c.report_count + 1))
        (λ reached. (
          comment_blinded,
          ground arith,
          touch_comments-IsSound (is_comment target_id) blind_comment
              (λ r. (refl, refl, refl, refl, refl)) comment_reported (comment_reported-IsSound h),
          refl,
          λ _.
              any_of-hide (λ c. is_comment target_id c && not c.is_blinded) (is_comment target_id)
                blind_comment (λ r. ground arith) (λ r e. ground arith) comment_reported.comments,
        ))
        (λ short. (
          comment_reported,
          ground arith,
          comment_reported-IsSound h,
          refl,
          λ reached. ground arith,
        ))
