-- ===== src/Comments/Shown.antt =====
-- app/domain/comments: what the list of a post's comments shows, and that its pages show every root once.
use mathlib.Core.Path.{subst}
use kyjness_community_be.Prelude.{
  ℕ, zero, suc, ◌≤◌, ◌≡◌, refl, ap, Bool, true, false, ◌&&◌, Option, none, some, List, [], ◌∷◌,
  ◌++◌, ◌==◌, opt_eq, keep, map, take, length, length-take, any_of, ltb, All, All-map, All-zip,
  arith,
}
use kyjness_community_be.Text.{Text}
use kyjness_community_be.Db.Rows.{Db, Comment}
use kyjness_community_be.Db.Keyset.{insert_desc, order_desc, is_before, All-keep, All-order_desc}
use kyjness_community_be.Db.Walk.{All_kept}
use kyjness_community_be.Db.Ascending.{insert_asc, order_asc, is_after, All-order_asc}
use kyjness_community_be.Db.Action.{ok}
use kyjness_community_be.Posts.{post_is_visible}
use kyjness_community_be.Comments.Tree.{
  Sort, latest, oldest, is_reply_visible, is_root_shown, get_root_comments, mem_opt,
  get_replies_for_roots, CommentItem, CommentResponse, comment_to_response, in_order,
  build_comment_tree, liked_by, tree_of, get_comments,
}

pub keep_and :
    (p q : Comment → Bool) (rows : List Comment)
    → keep (λ c. p c && q c) rows ≡ keep q (keep p rows)
keep_and p q [] = refl
keep_and p q (c ∷ rows) = ground (arith, keep_and p q rows)

All_mapped :
    {A B : Type 0} (P : B → Type 0) (f : A → B) (xs : List A)
    → All (λ x. P (f x)) xs
    → All P (map f xs)
All_mapped P f [] h = tt
All_mapped P f (x ∷ xs) h = (h.0, All_mapped P f xs h.1)

All_take : {A : Type 0} (P : A → Type 0) (n : ℕ) (xs : List A) → All P xs → All P (take n xs)
All_take P zero xs h = tt
All_take P (suc n) [] h = tt
All_take P (suc n) (x ∷ xs) h = (h.0, All_take P n xs h.1)

ids_self :
    (ids : List ℕ) (roots : List Comment)
    → ((i : ℕ)
        → any_of (λ j. i == j) (map (λ c. c.id) roots) ≡ true
        → any_of (λ j. i == j) ids ≡ true)
    → All (λ c. mem_opt ids (some c.id) ≡ true) roots
ids_self ids [] h = tt
ids_self ids (c ∷ roots) h = (h c.id (ground arith), ids_self ids roots (λ i e. h i (ground arith)))

-- a row that satisfies a test is found by its id
found_self :
    (t : Comment → Bool) (all rows : List Comment)
    → ((i : ℕ)
        → any_of (λ x. x.id == i && t x) rows ≡ true
        → any_of (λ x. x.id == i && t x) all ≡ true)
    → All (λ c. t c ≡ true → any_of (λ x. x.id == c.id && t x) all ≡ true) rows
found_self t all [] h = tt
found_self t all (c ∷ rows) h =
    ((λ e. h c.id (ground arith)), found_self t all rows (λ i e. h i (ground arith)))

insert_desc_some :
    (x : CommentItem) (xs : List CommentItem) → (length (insert_desc (λ r. r.id) x xs) == 0) ≡ false
unfolding insert_desc
insert_desc_some x [] = refl
insert_desc_some x (y ∷ xs) = ground arith

insert_asc_some :
    (x : CommentItem) (xs : List CommentItem) → (length (insert_asc (λ r. r.id) x xs) == 0) ≡ false
unfolding insert_asc
insert_asc_some x [] = refl
insert_asc_some x (y ∷ xs) = ground arith

in_order_some :
    (sort : Sort) (xs : List CommentItem)
    → (length xs == 0) ≡ false
    → (length (in_order sort xs) == 0) ≡ false
unfolding order_desc order_asc
in_order_some latest [] e = e
in_order_some oldest [] e = e
in_order_some latest (x ∷ xs) e = insert_desc_some x (order_desc (λ r. r.id) xs)
in_order_some oldest (x ∷ xs) e = insert_asc_some x (order_asc (λ r. r.id) xs)

All-in_order :
    (P : CommentItem → Type 0) (sort : Sort) (xs : List CommentItem)
    → All P xs
    → All P (in_order sort xs)
All-in_order P latest xs h = All-order_desc (λ r. r.id) P xs h
All-in_order P oldest xs h = All-order_asc (λ r. r.id) P xs h

kept_some :
    (p q : Comment → Bool) (f : Comment → CommentItem) (rows : List Comment)
    → any_of (λ c. p c && q c) rows ≡ true
    → (length (map f (keep p (keep q rows))) == 0) ≡ false
kept_some p q f [] e = ground arith
kept_some p q f (c ∷ rows) e = ground (arith, kept_some p q f rows)

pub length_mapped : {A B : Type 0} (f : A → B) (xs : List A) → length (map f xs) ≡ length xs
length_mapped f [] = refl
length_mapped f (x ∷ xs) = ap suc (length_mapped f xs)

parent_mem :
    (ids : List ℕ) (i : ℕ) (parent : Option ℕ)
    → mem_opt ids (some i) ≡ true
    → opt_eq parent i ≡ true
    → mem_opt ids parent ≡ true
parent_mem ids i none e is = ground arith
parent_mem ids i (some j) e is =
    let same : i ≡ j = ground arith in subst (λ k. mem_opt ids (some k) ≡ true) same e

-- a reply to a root of the page is one of the page's replies
with_root :
    (ids : List ℕ) (i : ℕ) (v : Comment → Bool) (rows : List Comment)
    → mem_opt ids (some i) ≡ true
    → any_of (λ r. opt_eq r.parent_id i && v r) rows ≡ true
    → any_of (λ r. opt_eq r.parent_id i && (mem_opt ids r.parent_id && v r)) rows ≡ true
with_root ids i v [] e there = ground arith
with_root ids i v (r ∷ rows) e there =
    ground (arith, parent_mem ids i r.parent_id e, with_root ids i v rows e)

module _ (placeholder : Text) (post_id : ℕ) (viewer : Option ℕ) (d : Db) where
  -- A deleted root shows the placeholder, and has a reply. Each reply is a comment to the root, not
  -- deleted and not blinded, whose author the viewer has not blocked.
  abbrev pub IsShown : CommentResponse → Type 0
  IsShown r =
      (r.item.is_deleted ≡ true
        → (r.item.content ≡ placeholder) × ((length r.replies == 0) ≡ false))
      × All
          (λ x.
            (x.is_deleted ≡ false)
            × (any_of
                  (λ c.
                    c.id == x.id && (opt_eq c.parent_id r.item.id && is_reply_visible viewer d c))
                  d.comments
                ≡ true))
          r.replies

  abbrev is_root : Comment → Bool
  is_root = is_root_shown post_id viewer d

  roots_shown :
      (size : ℕ) (cursor : Option ℕ) (sort : Sort)
      → All (λ c. is_root c ≡ true) (get_root_comments post_id size cursor sort viewer d)
  unfolding get_root_comments
  roots_shown size cursor latest =
      All_take (λ c. is_root c ≡ true) (suc size) _
        (All-order_desc (λ c. c.id) (λ c. is_root c ≡ true) _
          (All-map (λ c e. ground arith) _
            (All_kept (λ c. is_root c && is_before (λ c. c.id) cursor c) d.comments)))
  roots_shown size cursor oldest =
      All_take (λ c. is_root c ≡ true) (suc size) _
        (All-order_asc (λ c. c.id) (λ c. is_root c ≡ true) _
          (All-map (λ c e. ground arith) _
            (All_kept (λ c. is_root c && is_after (λ c. c.id) cursor c) d.comments)))

  length-tree :
      (roots : List Comment) (sort : Sort)
      → length (tree_of placeholder roots sort viewer d) ≡ length roots
  unfolding tree_of build_comment_tree
  length-tree roots sort = length_mapped _ roots

  abbrev IsReply : ℕ → CommentItem → Type 0
  IsReply i x =
      (x.is_deleted ≡ false)
      × (any_of (λ c. c.id == x.id && (opt_eq c.parent_id i && is_reply_visible viewer d c))
            d.comments
          ≡ true)

  replies-IsReply :
      (ids : List ℕ) (liked_ids : List ℕ) (i : ℕ)
      → All
          (λ c. IsReply i (comment_to_response placeholder liked_ids c))
          (keep (λ c. opt_eq c.parent_id i) (get_replies_for_roots ids viewer d))
  unfolding get_replies_for_roots comment_to_response is_reply_visible
  replies-IsReply ids liked_ids i =
      let p : Comment → Bool = λ c. opt_eq c.parent_id i in
      let q : Comment → Bool = λ c. mem_opt ids c.parent_id && is_reply_visible viewer d c in
      let t : Comment → Bool = λ c. opt_eq c.parent_id i && is_reply_visible viewer d c in
      let found =
        All-keep (λ c. c.id) _ p (keep q d.comments)
          (All-keep (λ c. c.id) _ q d.comments (found_self t d.comments d.comments (λ j e. e))) in
      let visible = All-keep (λ c. c.id) _ p (keep q d.comments) (All_kept q d.comments) in
      let both : All (λ c. (q c ≡ true) × (p c ≡ true)) (keep p (keep q d.comments)) =
        All-zip (λ c v e. (v, e)) (keep p (keep q d.comments)) visible
          (All_kept p (keep q d.comments)) in
      All-zip (λ c f (is_q, is_p). (ground (arith, is_q, is_p), f (ground (arith, is_q, is_p))))
        (keep p (keep q d.comments)) found both

  tree-IsShown :
      (roots : List Comment) (sort : Sort)
      → All (λ c. is_root c ≡ true) roots
      → All IsShown (tree_of placeholder roots sort viewer d)
  unfolding tree_of build_comment_tree get_replies_for_roots comment_to_response is_root_shown
  tree-IsShown roots sort shown =
      let ids = map (λ c. c.id) roots in
      let v = is_reply_visible viewer d in
      let replies = get_replies_for_roots ids viewer d in
      let liked_ids = liked_by viewer (ids ++ map (λ c. c.id) replies) d in
      All_mapped IsShown _ roots (
        All-zip
          (λ c is_mine is_shown. (
            (λ deleted. (
              ground arith,
              in_order_some sort _ (
                  kept_some (λ r. opt_eq r.parent_id c.id) (λ r. mem_opt ids r.parent_id && v r) _
                    d.comments (with_root ids c.id v d.comments is_mine (ground arith))),
            )),
            All-in_order (IsReply c.id) sort _
                (All_mapped (IsReply c.id) _ _ (replies-IsReply ids liked_ids c.id)),
          ))
          roots (ids_self ids roots (λ i e. e)) shown)

  -- Where the viewer sees the post, the list of its comments is answered: it has `size` roots at most,
  -- each of which is shown as it should be.
  pub get_comments_lem :
      (size : ℕ) (sort : Sort) (cursor : Option ℕ)
      → post_is_visible post_id viewer d ≡ true
      → (tree : List CommentResponse) × (more : Bool) × (get_comments placeholder post_id size sort
            cursor viewer d
          ≡ (ok (tree, more), d))
        × All IsShown tree
        × (length tree ≤ size)
  unfolding get_comments
  get_comments_lem size sort cursor visible =
      let fetched = get_root_comments post_id size cursor sort viewer d in
      (
        tree_of placeholder (take size fetched) sort viewer d,
        ltb size (length fetched),
        ground arith,
        tree-IsShown (take size fetched) sort
            (All_take (λ c. is_root c ≡ true) size fetched (roots_shown size cursor sort)),
        omega (arith, length-tree (take size fetched) sort, length-take size fetched),
      )
