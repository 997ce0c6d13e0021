-- ===== src/Community/Threads.antt =====
-- app/domain/comments: replies and their roots under the statements on the table of comments.
use kyjness_community_be.Prelude.{
  ℕ, ◌≡◌, refl, ◌∙◌, Bool, true, Option, none, some, List, [], ◌∷◌, ◌++◌, any_of-append, All-map,
  arith,
}
use kyjness_community_be.Db.Rows.{Comment}
use kyjness_community_be.Db.Sql.{update_where, any_of-update_where, All-update_where, All-snoc}
use kyjness_community_be.Community.Invariant.{has_root, is_root, IsThreaded}

-- an UPDATE that leaves the keys of comments alone
module _ (p : Comment → Bool) (f : Comment → Comment)
    (same : (c : Comment)
      → ((f c).id ≡ c.id) × ((f c).post_id ≡ c.post_id) × ((f c).parent_id ≡ c.parent_id)) where
  has_root-update :
      (comments : List Comment) (post_id : ℕ) (parent_id : Option ℕ)
      → has_root (update_where p f comments) post_id parent_id ≡ has_root comments post_id parent_id
  has_root-update comments post_id none = refl
  has_root-update comments post_id (some parent_id) =
      any_of-update_where (is_root post_id parent_id) p f root comments
    where
      root : (c : Comment) → is_root post_id parent_id (f c) ≡ is_root post_id parent_id c
      root c = let (i, q, k) = same c in rw (i, q, k) refl

  pub IsThreaded-touch :
      (comments : List Comment) → IsThreaded comments → IsThreaded (update_where p f comments)
  IsThreaded-touch comments h =
      All-map (λ c k. has_root-update comments c.post_id c.parent_id ∙ k)
        (update_where p f comments)
        (All-update_where (λ c. has_root comments c.post_id c.parent_id ≡ true) p f
          (λ c k. let (_, q, o) = same c in rw (q, o) k) comments h)

has_root-snoc :
    (comments : List Comment) (new : Comment) (post_id : ℕ) (parent_id : Option ℕ)
    → has_root comments post_id parent_id ≡ true
    → has_root (comments ++ new ∷ []) post_id parent_id ≡ true
has_root-snoc comments new post_id none h = refl
has_root-snoc comments new post_id (some parent_id) h =
    ground (arith, any_of-append (is_root post_id parent_id) comments (new ∷ []))

-- a new comment that is a root, or answers one
pub IsThreaded-insert :
    (comments : List Comment) (new : Comment)
    → has_root comments new.post_id new.parent_id ≡ true
    → IsThreaded comments
    → IsThreaded (comments ++ new ∷ [])
IsThreaded-insert comments new k h =
    All-snoc (λ c. has_root (comments ++ new ∷ []) c.post_id c.parent_id ≡ true) comments new
      (All-map (λ c. has_root-snoc comments new c.post_id c.parent_id) comments h)
      (has_root-snoc comments new new.post_id new.parent_id k)
