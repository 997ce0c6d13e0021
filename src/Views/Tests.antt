-- ===== src/Views/Tests.antt =====
-- Hashes of Redis as functions into lists of pairs, and the theorems on views at them.
use kyjness_community_be.Prelude.{
  ℕ, ◌+◌, ◌≡◌, ◌≢◌, refl, Bool, true, false, none, some, List, [], ◌∷◌, arith, to_ℕ,
}
use mathlib.Core.Logic.{ite, if_pos, if_neg}
use native.Mathlib.Decide.{ℕ_discrete}
use kyjness_community_be.Text.{codes}
use kyjness_community_be.Db.Rows.{Db, Post}
use kyjness_community_be.Db.Sql.{one_or_none}
use kyjness_community_be.Posts.{is_undeleted_post, get_post_by_id, has_blocked}
use kyjness_community_be.Views.{
  HashKey, buffer, drain, total, Hashes, created, Flush, consume_view_if_new, get_post_detail,
  unread, committed, flush_view_counts_to_db,
}
use kyjness_community_be.Views.Conserved.{
  IsShown, flush_keeps_views, flush_unread, get_post_detail_lem,
}

abbrev Store : Type 0
Store = HashKey → List (ℕ × ℕ)

HashKey-discrete : Discrete HashKey
HashKey-discrete = hlevel ℕ_discrete

write : HashKey → List (ℕ × ℕ) → Store → Store
write k v s k' = ite (HashKey-discrete k' k) v (s k')

write_self : (k k' : HashKey) (v : List (ℕ × ℕ)) (s : Store) → k ≡ k' → write k' v s k ≡ v
unfolding write
write_self k k' v s e = if_pos (HashKey-discrete k k') e v (s k)

write_ne : (k k' : HashKey) (v : List (ℕ × ℕ)) (s : Store) → k ≢ k' → write k' v s k ≡ s k
unfolding write
write_ne k k' v s ne = if_neg (HashKey-discrete k k') ne v (s k)

abbrev is_there : List (ℕ × ℕ) → Bool
is_there [] = false
is_there (p ∷ ps) = true

not_there : (f : ℕ) (ps : List (ℕ × ℕ)) → is_there ps ≡ false → total f ps ≡ 0
not_there f [] e = refl
not_there f (p ∷ ps) e = ground arith

abbrev move : HashKey → HashKey → Store → Store
move k k' s = write k [] (write k' (s k) s)

memory : Hashes Store
memory = record {
  hget = λ k f s. total f (s k);
  hincrby = λ k f n s. write k ((f, n) ∷ s k) s;
  hgetall = λ k s. s k;
  exists = λ k s. is_there (s k);
  rename = λ k k' s. move k k' s;
  delete = λ k s. write k [] s;
  hget-hincrby = λ k k' f g n s e. let w = write_self k k' ((g, n) ∷ s k') s e in ground arith;
  hget-hincrby_ne = λ k k' f g n s ne. let w = write_ne k k' ((g, n) ∷ s k') s ne in ground arith;
  total-hgetall = λ k f s. refl;
  hget-absent = λ k f s e. not_there f (s k) e;
  hget-rename_new = λ k k' f s ne.
      let w = write_ne k' k [] (write k' (s k) s) (λ e. ne (ground arith)) in
      let v = write_self k' k' (s k) s refl in ground arith;
  hget-rename_old =
      λ k k' f s ne. let w = write_self k k [] (write k' (s k) s) refl in ground arith;
  hget-rename_ne = λ k k' k'' f s ne ne'.
      let w = write_ne k'' k [] (write k' (s k) s) ne in
      let v = write_ne k'' k' (s k) s ne' in ground arith;
  hget-delete_self = λ k f s. let w = write_self k k [] s refl in ground arith;
  hget-delete_ne = λ k k' f s ne. let w = write_ne k k' [] s ne in ground arith;
}

abbrev photo : Post
photo = record {
  id = 1;
  user_id = some 10;
  title = codes "photo";
  content = codes "at the sea";
  category_id = none;
  view_count = 40;
  like_count = 0;
  comment_count = 0;
  report_count = 0;
  is_blinded = false;
  created_at = 3;
  updated_at = 3;
  deleted_at = none;
  version = 1;
}

abbrev gallery : Db
gallery = record {
  users = [];
  user_blocks = [];
  categories = [];
  posts = photo ∷ [];
  hashtags = [];
  post_hashtags = [];
  post_images = [];
  post_likes = [];
  comments = [];
  comment_likes = [];
  reports = [];
  notifications = [];
  images = [];
  dog_profiles = [];
  chat_rooms = [];
  chat_messages = [];
}

-- two views wait in the buffer
abbrev waiting : Store
waiting buffer = (1, 2) ∷ []
waiting (drain ulid) = []

seen : get_post_by_id 1 none gallery ≡ some photo
unfolding get_post_by_id one_or_none has_blocked
seen = refl

found : one_or_none (is_undeleted_post 1) gallery.posts ≡ some photo
unfolding one_or_none
found = refl

pending : memory.hget buffer 1 waiting ≡ 2
unfolding memory
pending = refl

flush_keeps_views_example :
    IsShown memory 1
      (flush_view_counts_to_db memory false (committed true) 9 50 (gallery, waiting))
      42
flush_keeps_views_example =
    flush_keeps_views memory false (committed true) 9 50 1 42 gallery waiting refl
      (40, (photo, found, refl), omega (arith, pending))

there : memory.exists buffer waiting ≡ true
unfolding memory
there = refl

flush_unread_example :
    let (d', s') = flush_view_counts_to_db memory false unread 9 50 (gallery, waiting) in
    (d' ≡ gallery)
    × (memory.hget buffer 1 s' ≡ 0)
    × (memory.hget (drain 9) 1 s' ≡ memory.hget buffer 1 waiting)
    × ((locked : Bool) (end : Flush) (now' : ℕ) (d2 : Db) (s2 : Store)
        → memory.hget (drain 9) 1 (flush_view_counts_to_db memory locked end 10 now' (d2, s2)).1
          ≡ memory.hget (drain 9) 1 s2)
flush_unread_example = flush_unread memory 9 50 10 1 gallery waiting (λ e. ground arith) there

get_post_detail_lem_example :
    let (shown, d', s') =
      get_post_detail memory 60 (created true) true 1 none 50 (gallery, waiting) in
    let n' = 42 + to_ℕ (consume_view_if_new 60 (created true)) in
    (shown ≡ some n') × IsShown memory 1 (d', s') n'
get_post_detail_lem_example =
    get_post_detail_lem memory 60 (created true) 1 none 50 42 photo gallery waiting seen found
      (omega (arith, pending))
