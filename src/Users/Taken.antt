-- ===== src/Users/Taken.antt =====
-- app/domain/users/model.py: the users that a round of the purge takes, the first ones that satisfy a test.
use kyjness_community_be.Prelude.{
  ℕ, zero, suc, ◌+◌, ◌≤◌, ◌≡◌, ◌≢◌, refl, Bool, true, false, List, [], ◌∷◌, if◌then◌else◌, keep,
  length, take, count_if, All, All-map, All-zip, arith, Bool-split, length-keep,
}
use kyjness_community_be.Db.Rows.{Db, User}
use kyjness_community_be.Db.Sql.{delete_where}
use kyjness_community_be.Db.Keyset.{IsDistinct}
use kyjness_community_be.Users.Purge.{mem_id, is_purged, ids_of, chosen}

abbrev pub id_of : User → ℕ
id_of u = u.id

All-delete_where :
    (a : User → Bool) (P : User → Type 0) (users : List User)
    → All P users
    → All P (delete_where a users)
unfolding delete_where
All-delete_where a P [] h = tt
All-delete_where a P (u ∷ users) h = by_test (a u) (All-delete_where a P users h.1)
  where
    by_test :
        (b : Bool)
        → All P (delete_where a users)
        → All P (if b then delete_where a users else u ∷ delete_where a users)
    by_test true rest = rest
    by_test false rest = (h.0, rest)

module _ (p : User → Bool) where
  first_found :
      (users : List User) (u : User) (rows : List User) (ids : List ℕ)
      → keep p users ≡ u ∷ rows
      → 1 ≤ length (ids_of (keep (λ x. mem_id (u.id ∷ ids) x.id) users))
  first_found [] u rows ids e = ground arith
  first_found (x ∷ users) u rows ids e = ground (arith, first_found users u rows ids)

  mem_taken_other :
      (n i : ℕ) (users : List User)
      → All (λ u. u.id ≢ i) users
      → mem_id (ids_of (take n (keep p users))) i ≡ false
  mem_taken_other zero i users h = refl
  mem_taken_other (suc n) i [] h = refl
  mem_taken_other (suc n) i (u ∷ users) h =
      let first = h.0 in
      Bool-split (p u) (λ pu. ground (arith, mem_taken_other n i users h.1))
        (λ pu. ground (arith, mem_taken_other (suc n) i users h.1))

  -- with distinct ids, a user whose id is one of the first rows of a test satisfies the test
  taken_satisfies :
      (n : ℕ) (users : List User)
      → IsDistinct id_of users
      → All (λ u. mem_id (ids_of (take n (keep p users))) u.id ≡ true → p u ≡ true) users
  taken_satisfies n [] h = tt
  taken_satisfies zero (u ∷ users) h =
      ((λ e. ground arith), All-map (λ x f e. ground arith) users (taken_satisfies zero users h.1))
  taken_satisfies (suc n) (u ∷ users) h =
      Bool-split (p u)
        (λ pu. (
          (λ e. pu),
          All-zip (λ x ne f e. f (ground arith)) users h.0 (taken_satisfies n users h.1),
        ))
        (λ pu. (
          (λ e. let none = mem_taken_other (suc n) u.id users h.0 in ground arith),
          All-map (λ x f e. f (ground arith)) users (taken_satisfies (suc n) users h.1),
        ))

  module _ (a : User → Bool) where
    pub delete_where-within :
        (users : List User)
        → All (λ u. a u ≡ true → p u ≡ true) users
        → delete_where p (delete_where a users) ≡ delete_where p users
    unfolding delete_where
    delete_where-within [] h = refl
    delete_where-within (u ∷ users) h =
        let first = h.0 in ground (arith, first, delete_where-within users h.1)

    -- what a deletion within the test takes out of the count of the test
    pub count_within :
        (users : List User)
        → All (λ u. a u ≡ true → p u ≡ true) users
        → length (ids_of (keep a users)) + count_if p (delete_where a users) ≡ count_if p users
    unfolding delete_where
    count_within [] h = refl
    count_within (u ∷ users) h = let first = h.0 in ground (arith, first, count_within users h.1)

    pub delete_where-IsDistinct :
        (users : List User) → IsDistinct id_of users → IsDistinct id_of (delete_where a users)
    unfolding delete_where
    delete_where-IsDistinct [] h = tt
    delete_where-IsDistinct (u ∷ users) h = by_test (a u) (delete_where-IsDistinct users h.1)
      where
        by_test :
            (b : Bool)
            → IsDistinct id_of (delete_where a users)
            → IsDistinct id_of (if b then delete_where a users else u ∷ delete_where a users)
        by_test true rest = rest
        by_test false rest = (All-delete_where a (λ x. x.id ≢ u.id) users h.0, rest)

  pub delete_where_zero : (users : List User) → count_if p users ≡ 0 → delete_where p users ≡ users
  unfolding delete_where
  delete_where_zero [] e = refl
  delete_where_zero (u ∷ users) e = ground (arith, delete_where_zero users)

  -- the first user of the test is deleted
  pub some_taken :
      (n : ℕ) (users : List User)
      → length (ids_of (keep (λ u. mem_id (ids_of (take (suc n) (keep p users))) u.id) users)) ≡ 0
      → count_if p users ≡ 0
  some_taken n users e = of_first (keep p users) refl
    where
      of_first : (rows : List User) → keep p users ≡ rows → count_if p users ≡ 0
      of_first [] k = ground (arith, length-keep p users)
      of_first (u ∷ rows) k = ground (arith, first_found users u rows (ids_of (take n rows)) k)

-- the deletion of a batch takes the test's rows only
pub taken_users :
    (cutoff n : ℕ) (d : Db)
    → IsDistinct id_of d.users
    → All (λ u. mem_id (chosen cutoff n d) u.id ≡ true → is_purged cutoff u ≡ true) d.users
taken_users cutoff n d distinct = taken_satisfies (is_purged cutoff) n d.users distinct
