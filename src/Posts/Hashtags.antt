-- ===== src/Posts/Hashtags.antt =====
-- app/domain/posts: `PostsModel.sync_post_hashtags` (repository.py), and `_normalize_hashtags`
-- (services/post_service.py).
use kyjness_community_be.Prelude.{
  ℕ, suc, Bool, ◌&&◌, none, some, List, [], ◌∷◌, ◌++◌, if◌then◌else◌, any_of, ◌==◌,
}
use kyjness_community_be.Text.{Text, text_eq}
use kyjness_community_be.Db.Rows.{Db, Hashtag, PostHashtag}
use kyjness_community_be.Db.Sql.{delete_where, one_or_none}

abbrev pub is_named : Text → Hashtag → Bool
is_named name h = text_eq h.name name

-- INSERT INTO hashtags ... ON CONFLICT (name) DO NOTHING, one row after another: each row takes a
-- value of the sequence, one that is not inserted too.
unfoldable pub upsert_names : List Text → ℕ → List Hashtag → List Hashtag
upsert_names [] next tags = tags
upsert_names (n ∷ names) next tags =
    upsert_names names (suc next)
      (if any_of (is_named n) tags then tags else tags ++ record { id = next; name = n } ∷ [])

-- `[id_by_name[n] for n in hashtag_names if n in id_by_name]`
unfoldable pub ids_of_names : List Text → List Hashtag → List ℕ
ids_of_names [] tags = []
ids_of_names (n ∷ names) tags = elim (one_or_none (is_named n) tags) [
  | none ↦ ids_of_names names tags
  | some h ↦ h.id ∷ ids_of_names names tags
]

abbrev pub is_link : ℕ → ℕ → PostHashtag → Bool
is_link post_id hashtag_id l = l.post_id == post_id && l.hashtag_id == hashtag_id

-- INSERT INTO post_hashtags ... ON CONFLICT DO NOTHING
unfoldable pub link_all : ℕ → List ℕ → List PostHashtag → List PostHashtag
link_all post_id [] links = links
link_all post_id (i ∷ ids) links = link_all post_id ids (
    if any_of (is_link post_id i) links
    then links
    else links ++ record { post_id = post_id; hashtag_id = i } ∷ [])

unfoldable pub sync_post_hashtags : ℕ → List Text → ℕ → Db → Db
sync_post_hashtags post_id [] next d = record d {
  post_hashtags = delete_where (λ l. l.post_id == post_id) d.post_hashtags;
}
sync_post_hashtags post_id (n ∷ names) next d =
    let tags = upsert_names (n ∷ names) next d.hashtags in
    record d {
      hashtags = tags;
      post_hashtags =
          link_all post_id (ids_of_names (n ∷ names) tags)
            (delete_where (λ l. l.post_id == post_id) d.post_hashtags);
    }
