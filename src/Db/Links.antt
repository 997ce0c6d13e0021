-- ===== src/Db/Links.antt =====
-- A table with a unique key (the likes): what an insert without conflict and a delete by the key do
-- to the number of rows that belong to an owner.
use kyjness_community_be.Prelude.{
  ℕ, ◌+◌, ◌≤◌, ◌≡◌, refl, Bool, true, false, List, [], ◌∷◌, ◌++◌, if◌then◌else◌, keep, count_if,
  count_if-append, any_of, to_ℕ, arith, ◌==◌,
}
use kyjness_community_be.Db.Sql.{delete_where, count_if-delete_where}
use kyjness_community_be.Db.Found.{any_of-count_if}

module _ {Link : Type 0} where
  pub count_if-keep :
      (q p : Link → Bool) (b : Bool)
      → ((l : Link) → p l ≡ true → q l ≡ b)
      → (links : List Link) → count_if q (keep p links) ≡ (if b then count_if p links else 0)
  count_if-keep q p b same [] = ground arith
  count_if-keep q p b same (l ∷ links) = ground (arith, same l, count_if-keep q p b same links)

  pub delete_where_none :
      (p : Link → Bool) (links : List Link) → any_of p links ≡ false → delete_where p links ≡ links
  unfolding delete_where
  delete_where_none p [] e = refl
  delete_where_none p (l ∷ links) e = ground (arith, delete_where_none p links)

  pub any_of-delete_where :
      (p : Link → Bool) (links : List Link) → any_of p (delete_where p links) ≡ false
  unfolding delete_where
  any_of-delete_where p [] = refl
  any_of-delete_where p (l ∷ links) = ground (arith, any_of-delete_where p links)

  module _ (key : Link → Bool) (belongs : ℕ → Link → Bool) (target : ℕ)
      (owned : (l : Link) (i : ℕ) → key l ≡ true → belongs i l ≡ (i == target)) where
    -- a row of the key that is not there yet
    pub insert_grows :
        (links : List Link) (l : Link)
        → key l ≡ true
        → (i : ℕ)
        → count_if (belongs i) (links ++ l ∷ []) ≡ count_if (belongs i) links + to_ℕ (i == target)
    insert_grows links l k i =
        ground (arith, owned l i k, count_if-append (belongs i) links (l ∷ []))

    -- the one row of the key
    pub delete_falls :
        (links : List Link)
        → count_if key links ≤ 1
        → any_of key links ≡ true
        → (i : ℕ)
        → count_if (belongs i) (delete_where key links) + to_ℕ (i == target)
          ≡ count_if (belongs i) links
    delete_falls links u there i = ground (
      arith,
      count_if-delete_where (belongs i) key links,
      count_if-keep (belongs i) key (i == target) (λ l k. owned l i k) links,
      any_of-count_if key links there,
    )
