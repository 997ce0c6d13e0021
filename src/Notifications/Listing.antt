-- ===== src/Notifications/Listing.antt =====
-- app/domain/notifications/model.py: the pages of a user's notifications, and marking them as read.
use kyjness_community_be.Prelude.{
  ℕ, zero, suc, ◌≤◌, ◌≡◌, refl, ◌∙◌, not, Option, none, some, List, [], ◌∷◌, ◌++◌, if◌then◌else◌,
  keep, length, length-keep, count_if, arith,
}
use kyjness_community_be.Db.Rows.{Db, Notification}
use kyjness_community_be.Db.Sql.{update_where}
use kyjness_community_be.Db.Keyset.{last_id, walk, order_desc, IsDistinct}
use kyjness_community_be.Db.Walk.{walk_lem}
use kyjness_community_be.Notifications.{is_for, is_unread_of, list_for_user, mark_read}

module _ (user_id size : ℕ) (d : Db) where
  -- a client that follows the cursors of the list, as it is asked for by `has_more`
  unfoldable pub read_on : ℕ → Option ℕ → List Notification
  read_on zero cursor = []
  read_on (suc fuel) cursor =
      let (shown, more) = list_for_user user_id cursor size d in
      let rest = read_on fuel (some (last_id (λ n. n.id) 0 shown)) in
      if more then shown ++ rest else shown

  abbrev own : List Notification
  own = keep (is_for user_id) d.notifications

  read_on-walk :
      (fuel : ℕ) (cursor : Option ℕ) → read_on fuel cursor ≡ walk (λ n. n.id) fuel cursor size own
  unfolding read_on walk list_for_user
  read_on-walk zero cursor = refl
  read_on-walk (suc fuel) cursor =
      let rest =
        read_on-walk fuel (some (last_id (λ n. n.id) 0 (list_for_user user_id cursor size d).0)) in
      ground arith

  -- With distinct ids, a user who follows the cursors in pages of at least one row is shown each of the
  -- user's notifications once, the newest first, and no one else's.
  pub read_on_all :
      IsDistinct (λ n. n.id) (keep (is_for user_id) d.notifications)
      → 1 ≤ size
      → let sorted = order_desc (λ n. n.id) (keep (is_for user_id) d.notifications) in
        read_on (suc (length sorted)) none ≡ sorted
  read_on_all distinct pos = read_on-walk _ none ∙ walk_lem (λ n. n.id) size own distinct pos

marked :
    (user_id now : ℕ) (ids : Option (List ℕ)) (rows : List Notification)
    → let f : Notification → Notification = λ n. record n { read_at = some now } in
      let rows' = update_where (is_unread_of user_id ids) f rows in
      (count_if (is_unread_of user_id ids) rows' ≡ 0)
      × (keep (λ n. not (is_for user_id n)) rows' ≡ keep (λ n. not (is_for user_id n)) rows)
      × (length rows' ≡ length rows)
unfolding update_where
marked user_id now ids [] = (refl, refl, refl)
marked user_id now ids (n ∷ rows) =
    let (none_left, others, size) = marked user_id now ids rows in
    (ground arith, ground arith, ground arith)

-- Marking as read answers how many of the user's chosen notifications were unread; none of them is
-- afterwards, and the notifications of others are as they were.
pub mark_read_lem :
    (user_id now : ℕ) (ids : Option (List ℕ)) (d : Db)
    → let (n, d') = mark_read user_id ids now d in
      (n ≡ count_if (is_unread_of user_id ids) d.notifications)
      × (count_if (is_unread_of user_id ids) d'.notifications ≡ 0)
      × (keep (λ n. not (is_for user_id n)) d'.notifications
          ≡ keep (λ n. not (is_for user_id n)) d.notifications)
unfolding mark_read
mark_read_lem user_id now ids d =
    let (none_left, others, _) = marked user_id now ids d.notifications in
    (length-keep (is_unread_of user_id ids) d.notifications, none_left, others)
