-- ===== src/Dogs/Rows.antt =====
-- app/domain/dogs/model.py: what the statements of `upsert_dog_profile` leave of the table of dogs.
use kyjness_community_be.Prelude.{
  ℕ, suc, ◌≤◌, ◌≡◌, refl, ◌∙◌, Bool, true, false, not, ◌&&◌, ◌||◌, List, [], ◌∷◌, ◌++◌, ◌==◌, map,
  keep, any_of, count_if, arith, Bool-split,
}
use kyjness_community_be.Db.Rows.{DogProfile}
use kyjness_community_be.Db.Sql.{update_where, delete_where, count_if-hide}
use kyjness_community_be.Dogs.{
  is_dog_of, mem_id, NewDog, ChangedDog, create_from, change_dog, update_all, clear_representatives,
}

abbrev pub is_representative_of : ℕ → DogProfile → Bool
is_representative_of owner_id r = r.owner_id == owner_id && r.is_representative

abbrev pub is_other : ℕ → DogProfile → Bool
is_other owner_id r = not (r.owner_id == owner_id)

abbrev pub has_id : ℕ → DogProfile → Bool
has_id i r = r.id == i

-- an UPDATE of one owner's dogs leaves those of the others alone
keep-update_where :
    (owner_id : ℕ) (p : DogProfile → Bool) (f : DogProfile → DogProfile)
    → ((r : DogProfile) → p r ≡ true → (r.owner_id == owner_id) ≡ true)
    → ((r : DogProfile) → (f r).owner_id ≡ r.owner_id)
    → (rows : List DogProfile)
    → keep (is_other owner_id) (update_where p f rows) ≡ keep (is_other owner_id) rows
unfolding update_where
keep-update_where owner_id p f mine same [] = refl
keep-update_where owner_id p f mine same (r ∷ rows) =
    ground (arith, mine r, same r, keep-update_where owner_id p f mine same rows)

pub keep-delete_where :
    (owner_id : ℕ) (p : DogProfile → Bool)
    → ((r : DogProfile) → p r ≡ true → (r.owner_id == owner_id) ≡ true)
    → (rows : List DogProfile)
    → keep (is_other owner_id) (delete_where p rows) ≡ keep (is_other owner_id) rows
unfolding delete_where
keep-delete_where owner_id p mine [] = refl
keep-delete_where owner_id p mine (r ∷ rows) =
    ground (arith, mine r, keep-delete_where owner_id p mine rows)

pub keep-created :
    (new_id : ℕ → ℕ) (i owner_id now : ℕ) (news : List NewDog) (rows : List DogProfile)
    → keep (is_other owner_id) (rows ++ create_from new_id i owner_id news now)
      ≡ keep (is_other owner_id) rows
unfolding create_from
keep-created new_id i owner_id now [] [] = refl
keep-created new_id i owner_id now (n ∷ news) [] =
    ground (arith, keep-created new_id (suc i) owner_id now news [])
keep-created new_id i owner_id now news (r ∷ rows) =
    ground (arith, keep-created new_id i owner_id now news rows)

pub keep-update_all :
    (owner_id now : ℕ) (cs : List ChangedDog) (rows : List DogProfile)
    → keep (is_other owner_id) (update_all owner_id cs now rows) ≡ keep (is_other owner_id) rows
unfolding update_all
keep-update_all owner_id now [] rows = refl
keep-update_all owner_id now (c ∷ cs) rows =
    keep-update_all owner_id now cs _
    ∙ keep-update_where owner_id (λ r. r.owner_id == owner_id && r.id == c.dog_id)
        (change_dog c now) (λ r h. ground arith) (λ r. refl) rows

pub reps-update_all :
    (owner_id now : ℕ) (cs : List ChangedDog) (rows : List DogProfile)
    → count_if (is_representative_of owner_id) (update_all owner_id cs now rows)
      ≤ count_if (is_representative_of owner_id) rows
unfolding update_all
reps-update_all owner_id now [] rows = omega arith
reps-update_all owner_id now (c ∷ cs) rows = omega (
  arith,
  reps-update_all owner_id now cs
      (update_where (λ r. r.owner_id == owner_id && r.id == c.dog_id) (change_dog c now) rows),
  count_if-hide (is_representative_of owner_id) (λ r. r.owner_id == owner_id && r.id == c.dog_id)
      (change_dog c now) (λ r. ground arith) rows,
)

pub reps-created :
    (new_id : ℕ → ℕ) (i owner_id now : ℕ) (news : List NewDog)
    → count_if (is_representative_of owner_id) (create_from new_id i owner_id news now) ≡ 0
unfolding create_from
reps-created new_id i owner_id now [] = refl
reps-created new_id i owner_id now (n ∷ news) =
    ground (arith, reps-created new_id (suc i) owner_id now news)

pub reps-set :
    (owner_id dog_id now : ℕ) (rows : List DogProfile)
    → count_if (is_representative_of owner_id) (
        update_where
          (λ r. r.id == dog_id && r.owner_id == owner_id)
          (λ r. record r { is_representative = true; updated_at = now })
          (clear_representatives owner_id rows))
      ≤ count_if (has_id dog_id) rows
unfolding update_where clear_representatives
reps-set owner_id dog_id now [] = omega arith
reps-set owner_id dog_id now (r ∷ rows) = ground (arith, reps-set owner_id dog_id now rows)

pub keep-set :
    (owner_id dog_id now : ℕ) (rows : List DogProfile)
    → keep (is_other owner_id) (
        update_where
          (λ r. r.id == dog_id && r.owner_id == owner_id)
          (λ r. record r { is_representative = true; updated_at = now })
          (clear_representatives owner_id rows))
      ≡ keep (is_other owner_id) rows
unfolding clear_representatives
keep-set owner_id dog_id now rows =
    keep-update_where owner_id (λ r. r.id == dog_id && r.owner_id == owner_id)
      (λ r. record r { is_representative = true; updated_at = now }) (λ r h. ground arith)
      (λ r. refl) _
    ∙ keep-update_where owner_id (is_dog_of owner_id) (λ r. record r { is_representative = false })
        (λ r h. h) (λ r. refl) rows

pub any_of_mono :
    (a b : DogProfile → Bool)
    → ((r : DogProfile) → a r ≡ true → b r ≡ true)
    → (rows : List DogProfile) → any_of b rows ≡ false
    → any_of a rows ≡ false
any_of_mono a b h [] e = refl
any_of_mono a b h (r ∷ rows) e = ground (arith, h r, any_of_mono a b h rows)

pub any_of-delete_where :
    (q p : DogProfile → Bool) (rows : List DogProfile)
    → any_of (λ r. q r && not (p r)) rows ≡ false
    → any_of q (delete_where p rows) ≡ false
unfolding delete_where
any_of-delete_where q p [] e = refl
any_of-delete_where q p (r ∷ rows) e = ground (arith, any_of-delete_where q p rows)

pub mem_id-keep :
    (f : ℕ → Bool) (i : ℕ) (ids : List ℕ) → mem_id (keep f ids) i ≡ (mem_id ids i && f i)
mem_id-keep f i [] = refl
mem_id-keep f i (j ∷ ids) = ground (arith, mem_id-keep f i ids)

pub mem_id-append : (i : ℕ) (xs ys : List ℕ) → mem_id (xs ++ ys) i ≡ (mem_id xs i || mem_id ys i)
mem_id-append i [] ys = refl
mem_id-append i (j ∷ xs) ys = ground (arith, mem_id-append i xs ys)

module _ (owner_id : ℕ) (ids : List ℕ) where
  -- a dog of the owner whose id is not among the ids
  abbrev pub is_missing : DogProfile → Bool
  is_missing r = r.owner_id == owner_id && not (mem_id ids r.id)

  pub none_missing :
      (rows : List DogProfile)
      → ((i : ℕ)
          → mem_id (map (λ r. r.id) (keep (is_dog_of owner_id) rows)) i ≡ true
          → mem_id ids i ≡ true)
      → any_of is_missing rows ≡ false
  none_missing [] h = refl
  none_missing (r ∷ rows) h =
      Bool-split (r.owner_id == owner_id)
        (λ mine.
          let first = h r.id (ground arith) in
          let rest = none_missing rows (λ i e. h i (ground arith)) in ground arith)
        (λ other. let rest = none_missing rows (λ i e. h i (ground arith)) in ground arith)

  pub none_missing_all :
      (rows : List DogProfile)
      → ((i : ℕ) → mem_id (map (λ r. r.id) rows) i ≡ true → mem_id ids i ≡ true)
      → any_of is_missing rows ≡ false
  none_missing_all [] h = refl
  none_missing_all (r ∷ rows) h =
      let first = h r.id (ground arith) in
      let rest = none_missing_all rows (λ i e. h i (ground arith)) in ground arith

  pub missing-update_where :
      (p : DogProfile → Bool) (f : DogProfile → DogProfile)
      → ((r : DogProfile) → (f r).id ≡ r.id)
      → ((r : DogProfile) → (f r).owner_id ≡ r.owner_id)
      → (rows : List DogProfile)
      → any_of is_missing (update_where p f rows) ≡ any_of is_missing rows
  unfolding update_where
  missing-update_where p f same mine [] = refl
  missing-update_where p f same mine (r ∷ rows) =
      ground (arith, same r, mine r, missing-update_where p f same mine rows)

  pub missing-update_all :
      (now : ℕ) (cs : List ChangedDog) (rows : List DogProfile)
      → any_of is_missing (update_all owner_id cs now rows) ≡ any_of is_missing rows
  unfolding update_all
  missing-update_all now [] rows = refl
  missing-update_all now (c ∷ cs) rows =
      missing-update_all now cs _
      ∙ missing-update_where (λ r. r.owner_id == owner_id && r.id == c.dog_id) (change_dog c now)
          (λ r. refl) (λ r. refl) rows
