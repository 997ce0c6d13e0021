-- ===== src/Comments/Pages.antt =====
-- app/domain/comments: a client that follows the cursors of a post's comments, the newest first.
use kyjness_community_be.Prelude.{
  ℕ, zero, suc, ◌≤◌, ◌≡◌, refl, sym, ap, ◌∙◌, Bool, true, false, Option, none, some, List, [], ◌∷◌,
  ◌++◌, if◌then◌else◌, keep, map, take, length, ltb, arith,
}
use kyjness_community_be.Text.{Text}
use kyjness_community_be.Db.Rows.{Db, Comment}
use kyjness_community_be.Db.Keyset.{order_desc, is_before, page, last_id, walk, IsDistinct}
use kyjness_community_be.Db.Walk.{walk_lem}
use kyjness_community_be.Db.Action.{Result, ok, err}
use kyjness_community_be.Posts.{post_is_visible}
use kyjness_community_be.Comments.Tree.{
  latest, is_root_shown, get_root_comments, CommentResponse, comment_to_response,
  build_comment_tree, tree_of, get_comments,
}
use kyjness_community_be.Comments.Shown.{keep_and}

abbrev last_number : ℕ → List ℕ → ℕ
last_number i [] = i
last_number i (j ∷ ids) = last_number j ids

map-append : (f : Comment → ℕ) (xs ys : List Comment) → map f (xs ++ ys) ≡ map f xs ++ map f ys
map-append f [] ys = refl
map-append f (x ∷ xs) ys = ap (◌∷◌ (f x)) (map-append f xs ys)

map_if :
    (b : Bool) (f : Comment → ℕ) (xs ys : List Comment)
    → (if b then map f xs ++ map f ys else map f xs) ≡ map f (if b then xs ++ ys else xs)
map_if true f xs ys = sym (map-append f xs ys)
map_if false f xs ys = refl

last_of :
    (i : ℕ) (xs : List Comment) → last_number i (map (λ c. c.id) xs) ≡ last_id (λ c. c.id) i xs
last_of i [] = refl
last_of i (x ∷ xs) = last_of x.id xs

module _ (placeholder : Text) (post_id size : ℕ) (viewer : Option ℕ) (d : Db) where
  -- the ids of the roots of an answer, and whether there are more
  abbrev pub roots_of : Result (List CommentResponse × Bool) → List ℕ × Bool
  roots_of (ok (tree, more)) = (map (λ r. r.item.id) tree, more)
  roots_of (err _) = ([], false)

  -- the ids of the roots that a client is shown who follows the cursors
  unfoldable pub read_roots : ℕ → Option ℕ → List ℕ
  read_roots zero cursor = []
  read_roots (suc fuel) cursor =
      let (shown, more) =
        roots_of (get_comments placeholder post_id size latest cursor viewer d).0 in
      let rest = read_roots fuel (some (last_number 0 shown)) in
      if more then shown ++ rest else shown

  abbrev rows : List Comment
  rows = keep (is_root_shown post_id viewer d) d.comments

  ids-tree :
      (roots : List Comment)
      → map (λ r. r.item.id) (tree_of placeholder roots latest viewer d) ≡ map (λ c. c.id) roots
  unfolding tree_of build_comment_tree comment_to_response
  ids-tree roots = composed _ roots
    where
      composed :
          (f : Comment → CommentResponse) (xs : List Comment)
          → map (λ r. r.item.id) (map f xs) ≡ map (λ c. (f c).item.id) xs
      composed f [] = refl
      composed f (x ∷ xs) = ap (◌∷◌ (f x).item.id) (composed f xs)

  answered :
      post_is_visible post_id viewer d ≡ true
      → (cursor : Option ℕ)
      → let (shown, more) = page (λ c. c.id) cursor size rows in
        roots_of (get_comments placeholder post_id size latest cursor viewer d).0
        ≡ (map (λ c. c.id) shown, more)
  unfolding get_comments get_root_comments page
  answered visible cursor =
      let split =
        keep_and (is_root_shown post_id viewer d) (is_before (λ c. c.id) cursor) d.comments in
      let fetched = get_root_comments post_id size cursor latest viewer d in
      let same : fetched
          ≡ take (suc size) (order_desc (λ c. c.id) (keep (is_before (λ c. c.id) cursor) rows)) =
        ap (λ l. take (suc size) (order_desc (λ c. c.id) l)) split in
      let ran : roots_of (get_comments placeholder post_id size latest cursor viewer d).0 ≡ (
        map (λ r. r.item.id) (tree_of placeholder (take size fetched) latest viewer d),
        ltb size (length fetched),
      ) =
        ground arith in
      ran
      ∙ ap (λ l. (l, ltb size (length fetched))) (ids-tree (take size fetched))
      ∙ ap (λ l. (map (λ c. c.id) (take size l), ltb size (length l))) same

  read_roots-walk :
      post_is_visible post_id viewer d ≡ true
      → (fuel : ℕ) (cursor : Option ℕ)
      → read_roots fuel cursor ≡ map (λ c. c.id) (walk (λ c. c.id) fuel cursor size rows)
  unfolding read_roots walk
  read_roots-walk visible zero cursor = refl
  read_roots-walk visible (suc fuel) cursor =
      let (shown, more) = page (λ c. c.id) cursor size rows in
      let ids = map (λ c. c.id) shown in
      let next = last_id (λ c. c.id) 0 shown in
      ap
        (λ (o : List ℕ × Bool).
          if o.1 then o.0 ++ read_roots fuel (some (last_number 0 o.0)) else o.0)
        (answered visible cursor)
      ∙ ap (λ i. if more then ids ++ read_roots fuel (some i) else ids) (last_of 0 shown)
      ∙ ap (λ l. if more then ids ++ l else ids) (read_roots-walk visible fuel (some next))
      ∙ map_if more (λ c. c.id) shown (walk (λ c. c.id) fuel (some next) size rows)

  -- With distinct ids and pages of at least one root, a viewer of the post who follows the cursors is shown
  -- each of the roots that can be shown once, the newest first, and no others.
  pub read_roots_all :
      post_is_visible post_id viewer d ≡ true
      → IsDistinct (λ c. c.id) (keep (is_root_shown post_id viewer d) d.comments)
      → 1 ≤ size
      → let sorted = order_desc (λ c. c.id) (keep (is_root_shown post_id viewer d) d.comments) in
        read_roots (suc (length sorted)) none ≡ map (λ c. c.id) sorted
  read_roots_all visible distinct pos =
      read_roots-walk visible _ none
      ∙ ap (λ l. map (λ c. c.id) l) (walk_lem (λ c. c.id) size rows distinct pos)
