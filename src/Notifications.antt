-- ===== src/Notifications.antt =====
-- app/domain/notifications/model.py: `NotificationsModel`. `purge_older_than_days` is left out.
pub mod Listing
mod Tests
use kyjness_community_be.Prelude.{
  ℕ, suc, Bool, true, ◌&&◌, Option, none, some, List, [], ◌∷◌, ◌++◌, keep, length, any_of, ◌==◌,
  is_none, if◌then◌else◌, take,
}
use kyjness_community_be.Db.Rows.{Db, Notification, NotificationKind}
use kyjness_community_be.Db.Sql.{update_where}
use kyjness_community_be.Db.Keyset.{page, last_id}

-- what `publish_after_commit` is called with
pub record Notice : Type 0 where
  pub recipient_user_id : ℕ
  pub notification_id : ℕ
  pub kind : NotificationKind
  pub actor_id : ℕ
  pub post_id : ℕ
  pub comment_id : Option ℕ

-- `NotificationsModel.insert`, where `nid` is the new UUID
unfoldable pub insert : ℕ → ℕ → NotificationKind → ℕ → ℕ → Option ℕ → ℕ → Db → ℕ × Db
insert nid user_id kind actor_id post_id comment_id now d = (
  nid,
  record d {
    notifications =
        d.notifications
        ++ record {
          id = nid;
          user_id = user_id;
          kind = kind;
          actor_id = some actor_id;
          post_id = some post_id;
          comment_id = comment_id;
          read_at = none;
          created_at = now;
        }
          ∷ [];
  },
)

abbrev pub is_for : ℕ → Notification → Bool
is_for user_id n = n.user_id == user_id

-- the rows of a page, and `has_more`
unfoldable pub list_for_user : ℕ → Option ℕ → ℕ → Db → List Notification × Bool
list_for_user user_id cursor_id size d =
    page (λ n. n.id) cursor_id size (keep (is_for user_id) d.notifications)

-- `if notification_ids:`, so an empty list of ids stands for all
abbrev pub is_chosen : Option (List ℕ) → Notification → Bool
is_chosen none n = true
is_chosen (some []) n = true
is_chosen (some (i ∷ ids)) n = any_of (λ j. n.id == j) (i ∷ ids)

abbrev pub is_unread_of : ℕ → Option (List ℕ) → Notification → Bool
is_unread_of user_id ids n = is_for user_id n && is_none n.read_at && is_chosen ids n

-- the number of the rows that the UPDATE reaches
unfoldable pub mark_read : ℕ → Option (List ℕ) → ℕ → Db → ℕ × Db
mark_read user_id ids now d = (
  length (keep (is_unread_of user_id ids) d.notifications),
  record d {
    notifications =
        update_where (is_unread_of user_id ids) (λ n. record n { read_at = some now })
          d.notifications;
  },
)
