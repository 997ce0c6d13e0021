-- ===== src/Comments/Tree.antt =====
-- app/domain/comments: the list of a post's comments, `get_root_comments` and `get_replies_for_roots` of
-- model.py with `CommentService.get_comments` of service.py.
use kyjness_community_be.Prelude.{
  ℕ, suc, Bool, false, not, ◌&&◌, ◌||◌, Option, none, some, List, [], ◌++◌, if◌then◌else◌, ◌==◌,
  is_none, opt_eq, keep, map, take, length, any_of, ltb,
}
use kyjness_community_be.Text.{Text}
use kyjness_community_be.Db.Rows.{Db, Comment}
use kyjness_community_be.Db.Keyset.{order_desc, is_before}
use kyjness_community_be.Db.Ascending.{order_asc, is_after}
use kyjness_community_be.Db.Action.{
  post_not_found, Action, gets, transaction, raise_if, ◌>>=◌, ◌>>◌,
}
use kyjness_community_be.Posts.{has_blocked, post_is_visible}
use kyjness_community_be.Comments.CommentLikes.{get_liked_comment_ids_for_user}

-- `sort`
pub data Sort : Type 0 where
  latest oldest : Sort

-- `_reply_visible_conditions`, with `_author_not_blocked`
unfoldable pub is_reply_visible : Option ℕ → Db → Comment → Bool
is_reply_visible viewer d c =
    is_none c.deleted_at && not c.is_blinded && not (has_blocked viewer c.author_id d.user_blocks)

-- a deleted root stays in place while a reply to it can be shown
unfoldable pub is_root_shown : ℕ → Option ℕ → Db → Comment → Bool
is_root_shown post_id viewer d c =
    c.post_id == post_id
    && is_none c.parent_id
    && not c.is_blinded
    && (is_none c.deleted_at
        || any_of (λ r. opt_eq r.parent_id c.id && is_reply_visible viewer d r) d.comments)
    && not (has_blocked viewer c.author_id d.user_blocks)

unfoldable pub get_root_comments : ℕ → ℕ → Option ℕ → Sort → Option ℕ → Db → List Comment
get_root_comments post_id size cursor latest viewer d = take (suc size) (
    order_desc (λ c. c.id)
      (keep (λ c. is_root_shown post_id viewer d c && is_before (λ c. c.id) cursor c) d.comments))
get_root_comments post_id size cursor oldest viewer d = take (suc size) (
    order_asc (λ c. c.id)
      (keep (λ c. is_root_shown post_id viewer d c && is_after (λ c. c.id) cursor c) d.comments))

abbrev pub mem_opt : List ℕ → Option ℕ → Bool
mem_opt ids none = false
mem_opt ids (some i) = any_of (λ j. i == j) ids

unfoldable pub get_replies_for_roots : List ℕ → Option ℕ → Db → List Comment
get_replies_for_roots root_ids viewer d =
    keep (λ c. mem_opt root_ids c.parent_id && is_reply_visible viewer d c) d.comments

-- `CommentResponse` but for its replies; of the author it has the id
pub record CommentItem : Type 0 where
  pub id : ℕ
  pub content : Text
  pub author_id : Option ℕ
  pub created_at : ℕ
  pub updated_at : ℕ
  pub post_id : ℕ
  pub parent_id : Option ℕ
  pub like_count : ℕ
  pub is_liked : Bool
  pub is_edited : Bool
  pub is_deleted : Bool

-- `CommentResponse`; a reply has no replies of its own.
pub record CommentResponse : Type 0 where
  pub item : CommentItem
  pub replies : List CommentItem

-- `_comment_to_response`
unfoldable pub comment_to_response : Text → List ℕ → Comment → CommentItem
comment_to_response placeholder liked_ids c = record {
  id = c.id;
  content = if is_none c.deleted_at then c.content else placeholder;
  author_id = c.author_id;
  created_at = c.created_at;
  updated_at = c.updated_at;
  post_id = c.post_id;
  parent_id = c.parent_id;
  like_count = c.like_count;
  is_liked = any_of (λ i. c.id == i) liked_ids;
  is_edited = ltb c.created_at c.updated_at;
  is_deleted = not (is_none c.deleted_at);
}

abbrev pub in_order : Sort → List CommentItem → List CommentItem
in_order latest items = order_desc (λ x. x.id) items
in_order oldest items = order_asc (λ x. x.id) items

-- `_build_comment_tree`; roots have different ids
unfoldable pub build_comment_tree :
    Text → List Comment → List Comment → List ℕ → Sort → List CommentResponse
build_comment_tree placeholder roots replies liked_ids sort =
    map
      (λ r. record {
        item = comment_to_response placeholder liked_ids r;
        replies = in_order sort (
            map (comment_to_response placeholder liked_ids)
              (keep (λ c. opt_eq c.parent_id r.id) replies));
      })
      roots

abbrev pub liked_by : Option ℕ → List ℕ → Db → List ℕ
liked_by none comment_ids d = []
liked_by (some viewer) comment_ids d = get_liked_comment_ids_for_user viewer comment_ids d

-- the tree of the roots of a page
unfoldable pub tree_of : Text → List Comment → Sort → Option ℕ → Db → List CommentResponse
tree_of placeholder roots sort viewer d =
    let replies = get_replies_for_roots (map (λ c. c.id) roots) viewer d in
    build_comment_tree placeholder roots replies
      (liked_by viewer (map (λ c. c.id) roots ++ map (λ c. c.id) replies) d) sort

unfoldable pub get_comments :
    Text → ℕ → ℕ → Sort → Option ℕ → Option ℕ → Action (List CommentResponse × Bool)
get_comments placeholder post_id size sort cursor viewer = transaction (do
  visible ← gets (post_is_visible post_id viewer)
  raise_if (not visible) post_not_found
  fetched ← gets (get_root_comments post_id size cursor sort viewer)
  gets (λ d. (tree_of placeholder (take size fetched) sort viewer d, ltb size (length fetched))))
