-- ===== src/Dogs/Representative.antt =====
-- app/domain/dogs/service.py: what `upsert_dog_profile` makes of the table of dogs, and that an owner
-- has one representative dog at most.
use kyjness_community_be.Prelude.{
  length, ℕ, ◌≤◌, ◌≡◌, refl, Bool, true, false, not, ◌&&◌, List, [], ◌∷◌, ◌++◌, ◌==◌, map, keep,
  any_of, count_if, arith, Bool-split, is_none,
}
use kyjness_community_be.Db.Rows.{Db, DogProfile}
use kyjness_community_be.Db.Sql.{update_where, delete_where, returning}
use kyjness_community_be.Db.Found.{one_or_none_absent, one_or_none_there, any_of_both}
use kyjness_community_be.Db.Action.{Result, ok, err, forbidden, internal_server_error}
use kyjness_community_be.Users.{get_user_by_id}
use kyjness_community_be.Dogs.{
  is_dog_of, mem_id, create_from, update_all, clear_representatives, set_representative,
  DogProfileUpsertItem, Plan, plan_items, no_plan, get_owned_ids_in, distinct,
  set_representative_dog, get_by_id,
}
use kyjness_community_be.Dogs.Rows.{is_representative_of, is_other, has_id, reps-set, keep-set}

module _ (new_id : ℕ → ℕ) (owner_id : ℕ) (items : List DogProfileUpsertItem) (now : ℕ)
    (d : Db) where
  abbrev plan : Plan
  plan = plan_items items no_plan

  abbrev created : List DogProfile
  created = create_from new_id 0 owner_id plan.create_rows now

  -- the ids that the request names, and those that its new dogs are given
  abbrev pub requested_ids : List ℕ
  requested_ids = plan.update_ids ++ map (λ r. r.id) created

  abbrev existing : List ℕ
  existing = map (λ r. r.id) (keep (is_dog_of owner_id) d.dog_profiles)

  abbrev dropped : List ℕ
  dropped = keep (λ i. not (mem_id requested_ids i)) existing

  abbrev changed : List DogProfile
  changed = update_all owner_id plan.update_rows now d.dog_profiles

  abbrev left : List DogProfile
  left = delete_where (λ r. r.owner_id == owner_id && mem_id dropped r.id) (changed ++ created)

  -- one representative at most, no dog that was not requested, and the other owners' dogs as they were
  abbrev pub IsUpserted : Db → Type 0
  IsUpserted d' =
      (count_if (is_representative_of owner_id) d'.dog_profiles ≤ 1)
      × (any_of (λ r. r.owner_id == owner_id && not (mem_id requested_ids r.id)) d'.dog_profiles
          ≡ false)
      × (keep (is_other owner_id) d'.dog_profiles ≡ keep (is_other owner_id) d.dog_profiles)

  -- every id that the request names is one of the owner's dogs
  abbrev pub all_owned : Bool
  all_owned =
      length (get_owned_ids_in owner_id plan.update_ids d) == length (distinct plan.update_ids)

  -- the request names a dog, and the ORM refuses the UPDATE of such dogs
  abbrev pub is_refused : Bool → Bool
  is_refused orm_runs = not (length (plan_items items no_plan).update_rows == 0) && not orm_runs

  abbrev pub IsUpsert : Bool → Bool → Result (Unit {0}) × Db → Type 0
  IsUpsert false refused outcome = outcome ≡ (err forbidden, d)
  IsUpsert true true outcome = outcome ≡ (err internal_server_error, d)
  IsUpsert true false outcome = (d' : Db) × (outcome ≡ (ok tt, d')) × IsUpserted d'

set_there :
    (owner_id dog_id now : ℕ) (rows : List DogProfile)
    → any_of (λ r. r.id == dog_id && r.owner_id == owner_id) rows ≡ true
    → any_of
        (λ r. has_id dog_id r && is_representative_of owner_id r)
        (update_where
          (λ r. r.id == dog_id && r.owner_id == owner_id)
          (λ r. record r { is_representative = true; updated_at = now })
          (clear_representatives owner_id rows))
      ≡ true
unfolding update_where clear_representatives
set_there owner_id dog_id now [] e = ground arith
set_there owner_id dog_id now (r ∷ rows) e = ground (arith, set_there owner_id dog_id now rows)

still_there :
    (owner_id dog_id : ℕ) (rows : List DogProfile)
    → any_of (λ r. r.id == dog_id && r.owner_id == owner_id) rows ≡ true
    → any_of (λ r. r.id == dog_id && r.owner_id == owner_id) (clear_representatives owner_id rows)
      ≡ true
unfolding update_where clear_representatives
still_there owner_id dog_id [] e = ground arith
still_there owner_id dog_id (r ∷ rows) e = ground (arith, still_there owner_id dog_id rows)

any_of_swap :
    (owner_id dog_id : ℕ) (rows : List DogProfile)
    → any_of (λ r. has_id dog_id r && is_representative_of owner_id r) rows
      ≡ any_of (λ r. is_representative_of owner_id r && has_id dog_id r) rows
any_of_swap owner_id dog_id [] = refl
any_of_swap owner_id dog_id (r ∷ rows) = ground (arith, any_of_swap owner_id dog_id rows)

-- Choosing one of the owner's dogs makes it the representative, the only one, where its id is one row's.
pub set_representative_dog_lem :
    (owner_id dog_id now : ℕ) (d : Db)
    → is_none (get_by_id dog_id owner_id d) ≡ false
    → is_none (get_user_by_id owner_id d) ≡ false
    → count_if (has_id dog_id) d.dog_profiles ≤ 1
    → (d' : Db) × (set_representative_dog owner_id dog_id now d ≡ (ok tt, d'))
      × (count_if (is_representative_of owner_id) d'.dog_profiles ≡ 1)
      × (any_of (λ r. has_id dog_id r && is_representative_of owner_id r) d'.dog_profiles ≡ true)
      × (keep (is_other owner_id) d'.dog_profiles ≡ keep (is_other owner_id) d.dog_profiles)
unfolding set_representative_dog set_representative get_by_id get_user_by_id returning
set_representative_dog_lem owner_id dog_id now d mine known keyed =
    let is_it : DogProfile → Bool = λ r. r.id == dog_id && r.owner_id == owner_id in
    let set : DogProfile → DogProfile =
      λ r. record r { is_representative = true; updated_at = now } in
    let d' : Db = (set_representative owner_id dog_id now d).1 in
    let here : any_of is_it d.dog_profiles ≡ true =
      Bool-split (any_of is_it d.dog_profiles) (λ e. e)
        (λ e. let gone = one_or_none_absent is_it d.dog_profiles e in ground arith) in
    let there = set_there owner_id dog_id now d.dog_profiles here in
    let (r, found, _) =
      one_or_none_there is_it (clear_representatives owner_id d.dog_profiles)
        (still_there owner_id dog_id d.dog_profiles here) in
    let at_most = reps-set owner_id dog_id now d.dog_profiles in
    let at_least =
      any_of_both (λ r. is_representative_of owner_id r) (has_id dog_id) d'.dog_profiles
        (ground (arith, any_of_swap owner_id dog_id d'.dog_profiles)) in
    (
      d',
      ground arith,
      omega (arith, at_most, at_least, keyed),
      there,
      keep-set owner_id dog_id now d.dog_profiles,
    )
