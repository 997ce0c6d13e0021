-- ===== src/Reports.antt =====
-- app/domain/reports: `ReportsModel` (model.py) and `ReportService` (service.py).
use kyjness_community_be.Prelude.{
  ℕ, Bool, true, false, not, ◌&&◌, Option, none, some, [], ◌∷◌, ◌++◌, if◌then◌else◌, leb, ◌==◌,
  is_none,
}
use kyjness_community_be.Text.{Text}
use kyjness_community_be.Db.Rows.{Db, Report, TargetType, post, comment}
use kyjness_community_be.Db.Sql.{update_where}
use kyjness_community_be.Db.Action.{
  Action, Result, err, post_not_found, comment_not_found, pure, gets, run, transaction, ◌>>=◌, ◌>>◌,
}
use kyjness_community_be.Posts
use kyjness_community_be.Comments

abbrev pub same_type : TargetType → TargetType → Bool
same_type post post = true
same_type post comment = false
same_type comment post = false
same_type comment comment = true

-- a report of the target that is not deleted
abbrev pub reports_target : TargetType → ℕ → Report → Bool
reports_target kind target_id r =
    same_type r.target_type kind && r.target_id == target_id && is_none r.deleted_at

-- `report_id` is the UUID that the new row is given.
unfoldable pub create_report : ℕ → ℕ → TargetType → ℕ → Option Text → ℕ → Db → (Unit {0}) × Db
create_report report_id reporter_id kind target_id reason now d = (
  tt,
  record d {
    reports =
        d.reports
        ++ record {
          id = report_id;
          reporter_id = reporter_id;
          target_type = kind;
          target_id = target_id;
          reason = reason;
          created_at = now;
          deleted_at = none;
        }
          ∷ [];
  },
)

unfoldable pub delete_by_target : TargetType → ℕ → ℕ → Db → (Unit {0}) × Db
delete_by_target kind target_id now d = (
  tt,
  record d {
    reports =
        update_where (reports_target kind target_id) (λ r. record r { deleted_at = some now })
          d.reports;
  },
)

-- `PostsModel.increment_report_count` or `CommentsModel.increment_report_count`
unfoldable pub increment_report_count : TargetType → ℕ → ℕ → Db → Option ℕ × Db
increment_report_count post target_id now d = Posts.increment_report_count target_id now d
increment_report_count comment target_id now d = Comments.increment_report_count target_id d

unfoldable pub set_blinded : TargetType → ℕ → ℕ → Db → Bool × Db
set_blinded post target_id now d = Posts.set_blinded target_id now d
set_blinded comment target_id now d = Comments.set_blinded target_id now d

-- the guard of `submit_report`: an undeleted post with an author, or an undeleted comment
unfoldable pub has_target : TargetType → ℕ → Db → Bool
has_target post target_id d = not (is_none (Posts.get_post_author_id target_id d))
has_target comment target_id d = not (is_none (Comments.get_comment_by_id target_id false d))

abbrev pub not_found_of : TargetType → Db → Result (Unit {0}) × Db
not_found_of post d = (err post_not_found, d)
not_found_of comment d = (err comment_not_found, d)

-- `threshold` is `settings.REPORT_BLIND_THRESHOLD`.
unfoldable pub create_report_and_maybe_blind :
    ℕ → ℕ → ℕ → TargetType → ℕ → Option Text → ℕ → Action Bool
create_report_and_maybe_blind threshold report_id reporter_id kind target_id reason now = do
  run (create_report report_id reporter_id kind target_id reason now)
  new_count ← run (increment_report_count kind target_id now)
  elim new_count [
    | none ↦ pure false
    | some n ↦
        if leb threshold n then run (set_blinded kind target_id now) >> pure true else pure false
  ]

-- The answer is whether the target was blinded.
unfoldable pub submit_report : ℕ → ℕ → ℕ → TargetType → ℕ → Option Text → ℕ → Action Bool
submit_report threshold report_id reporter_id kind target_id reason now = transaction (do
  there ← gets (has_target kind target_id)
  (if there then pure tt else not_found_of kind)
  create_report_and_maybe_blind threshold report_id reporter_id kind target_id reason now)
