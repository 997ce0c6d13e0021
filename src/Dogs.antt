-- ===== src/Dogs.antt =====
-- app/domain/dogs: `DogProfilesModel` (model.py) and `DogService` (service.py). The UUIDs of new dogs
-- are an argument.
pub mod Rows
pub mod Representative
mod Tests
use kyjness_community_be.Prelude.{
  ℕ, suc, ◌+◌, ◌≡◌, Bool, true, false, not, ◌&&◌, Option, none, some, List, [], ◌∷◌, ◌++◌,
  if◌then◌else◌, ◌==◌, is_none, map, keep, any_of, length, get_elem?,
}
use kyjness_community_be.Text.{Text}
use kyjness_community_be.Db.Rows.{Db, DogProfile}
use kyjness_community_be.Db.Sql.{update_where, delete_where, one_or_none, returning}
use kyjness_community_be.Db.Action.{
  Action, Result, ok, err, Error, forbidden, not_found, internal_server_error, pure, gets, run,
  transaction, ◌>>=◌, ◌>>◌, raise_if,
}
use kyjness_community_be.Users.{get_user_by_id}

abbrev pub is_dog_of : ℕ → DogProfile → Bool
is_dog_of owner_id r = r.owner_id == owner_id

abbrev pub mem_id : List ℕ → ℕ → Bool
mem_id ids i = any_of (λ j. i == j) ids

unfoldable pub get_by_id : ℕ → ℕ → Db → Option DogProfile
get_by_id dog_id owner_id d =
    one_or_none (λ r. r.id == dog_id && r.owner_id == owner_id) d.dog_profiles

-- as a list, where the code makes a set of it
unfoldable pub get_ids_by_owner_id : ℕ → Db → List ℕ
get_ids_by_owner_id owner_id d = map (λ r. r.id) (keep (is_dog_of owner_id) d.dog_profiles)

unfoldable pub get_owned_ids_in : ℕ → List ℕ → Db → List ℕ
get_owned_ids_in owner_id dog_ids d =
    map (λ r. r.id) (keep (λ r. r.owner_id == owner_id && mem_id dog_ids r.id) d.dog_profiles)

-- a row of `create_rows`, whose `is_representative` is False
pub record NewDog : Type 0 where
  pub name : Text
  pub breed : Text
  pub gender : Text
  pub birth_date : ℕ
  pub profile_image_id : Option ℕ

-- a row of `update_rows`; no `profile_image_id` stands for `touch_profile_image` False
pub record ChangedDog : Type 0 where
  pub dog_id : ℕ
  pub name : Text
  pub breed : Text
  pub gender : Text
  pub birth_date : ℕ
  pub profile_image_id : Option (Option ℕ)

-- the UUIDs of new rows, by the order of creation
unfoldable pub create_from : (ℕ → ℕ) → ℕ → ℕ → List NewDog → ℕ → List DogProfile
create_from new_id i owner_id [] now = []
create_from new_id i owner_id (r ∷ rows) now =
    record {
      id = new_id i;
      owner_id = owner_id;
      name = r.name;
      breed = r.breed;
      gender = r.gender;
      birth_date = r.birth_date;
      profile_image_id = r.profile_image_id;
      is_representative = false;
      created_at = now;
      updated_at = now;
    }
    ∷ create_from new_id (suc i) owner_id rows now

unfoldable pub create_many : (ℕ → ℕ) → ℕ → List NewDog → ℕ → Db → List DogProfile × Db
create_many new_id owner_id rows now d =
    let dogs = create_from new_id 0 owner_id rows now in
    (dogs, record d { dog_profiles = d.dog_profiles ++ dogs })

abbrev pub change_dog : ChangedDog → ℕ → DogProfile → DogProfile
change_dog c now r = record r {
  name = c.name;
  breed = c.breed;
  gender = c.gender;
  birth_date = c.birth_date;
  is_representative = false;
  profile_image_id = elim c.profile_image_id [ none ↦ r.profile_image_id | some image ↦ image ];
  updated_at = now;
}

-- the UPDATE of `bulk_update_by_owner`, once for each row
unfoldable pub update_all : ℕ → List ChangedDog → ℕ → List DogProfile → List DogProfile
update_all owner_id [] now dogs = dogs
update_all owner_id (c ∷ rows) now dogs =
    update_all owner_id rows now
      (update_where (λ r. r.owner_id == owner_id && r.id == c.dog_id) (change_dog c now) dogs)

-- `orm_runs` says that the ORM runs an UPDATE with a WHERE once for each of a list of parameters without
-- the primary key. SQLAlchemy 2.0 does not: it raises InvalidRequestError, which nothing catches.
unfoldable pub bulk_update_by_owner : Bool → ℕ → List ChangedDog → ℕ → Action (Unit {0})
bulk_update_by_owner orm_runs owner_id rows now d =
    if not (length rows == 0) && not orm_runs
    then (err internal_server_error, d)
    else (ok tt, record d { dog_profiles = update_all owner_id rows now d.dog_profiles })

unfoldable pub bulk_delete_by_owner_ids : ℕ → List ℕ → Db → Unit {0} × Db
bulk_delete_by_owner_ids owner_id dog_ids d = (
  tt,
  record d {
    dog_profiles = delete_where (λ r. r.owner_id == owner_id && mem_id dog_ids r.id) d.dog_profiles;
  },
)

unfoldable pub clear_representatives : ℕ → List DogProfile → List DogProfile
clear_representatives owner_id dogs =
    update_where (is_dog_of owner_id) (λ r. record r { is_representative = false }) dogs

unfoldable pub set_representative : ℕ → ℕ → ℕ → Db → Bool × Db
set_representative owner_id dog_id now d =
    let dogs = clear_representatives owner_id d.dog_profiles in
    let is_it : DogProfile → Bool = λ r. r.id == dog_id && r.owner_id == owner_id in
    let set : DogProfile → DogProfile =
      λ r. record r { is_representative = true; updated_at = now } in
    (
      not (is_none (returning is_it set dogs)),
      record d { dog_profiles = update_where is_it set dogs },
    )

-- `DogProfileUpsertItem`; no `profile_image_id` stands for a field that is not set
pub record DogProfileUpsertItem : Type 0 where
  pub id : Option ℕ
  pub name : Text
  pub breed : Text
  pub gender : Text
  pub birth_date : ℕ
  pub profile_image_id : Option (Option ℕ)
  pub is_representative : Bool

-- what the loop of `upsert_dog_profile` has gathered
pub record Plan : Type 0 where
  pub update_ids : List ℕ
  pub create_rows : List NewDog
  pub update_rows : List ChangedDog
  pub representative_existing_id : Option ℕ
  pub representative_new_index : Option ℕ

abbrev pub given : Option (Option ℕ) → Option ℕ
given none = none
given (some image) = image

unfoldable pub plan_item : Option ℕ → DogProfileUpsertItem → Plan → Plan
plan_item none item p = record p {
  create_rows =
      p.create_rows
      ++ record {
        name = item.name;
        breed = item.breed;
        gender = item.gender;
        birth_date = item.birth_date;
        profile_image_id = given item.profile_image_id;
      }
        ∷ [];
  representative_new_index =
      if item.is_representative then some (length p.create_rows) else p.representative_new_index;
  representative_existing_id =
      if item.is_representative then none else p.representative_existing_id;
}
plan_item (some i) item p = record p {
  update_ids = p.update_ids ++ i ∷ [];
  update_rows =
      p.update_rows
      ++ record {
        dog_id = i;
        name = item.name;
        breed = item.breed;
        gender = item.gender;
        birth_date = item.birth_date;
        profile_image_id = item.profile_image_id;
      }
        ∷ [];
  representative_existing_id =
      if item.is_representative then some i else p.representative_existing_id;
  representative_new_index = if item.is_representative then none else p.representative_new_index;
}

unfoldable pub plan_items : List DogProfileUpsertItem → Plan → Plan
plan_items [] p = p
plan_items (item ∷ items) p = plan_items items (plan_item item.id item p)

abbrev pub no_plan : Plan
no_plan = record {
  update_ids = [];
  create_rows = [];
  update_rows = [];
  representative_existing_id = none;
  representative_new_index = none;
}

-- `set(ids)` in some order, for its length
unfoldable pub distinct : List ℕ → List ℕ
distinct [] = []
distinct (i ∷ ids) = let rest = distinct ids in if mem_id ids i then rest else i ∷ rest

abbrev pub id_at : List DogProfile → ℕ → Option ℕ
id_at dogs i = elim (get_elem? dogs i) [ none ↦ none | some r ↦ some r.id ]

unfoldable pub representative_id : Plan → List DogProfile → Option ℕ
representative_id p created = elim p.representative_new_index [
  | none ↦ p.representative_existing_id
  | some i ↦ id_at created i
]

abbrev pub appoint : ℕ → Option ℕ → ℕ → Db → Unit {0} × Db
appoint owner_id none now d = (tt, d)
appoint owner_id (some i) now d = let (_, d') = set_representative owner_id i now d in (tt, d')

-- It runs in the transaction of its caller. A representative is one of the requested dogs, so that the
-- test of `requested_ids` never fails where there is one.
unfoldable pub upsert_dog_profile :
    Bool → (ℕ → ℕ) → ℕ → List DogProfileUpsertItem → ℕ → Action (Unit {0})
upsert_dog_profile orm_runs new_id owner_id items now = do
  existing_ids ← gets (get_ids_by_owner_id owner_id)
  let p = plan_items items no_plan
  owned ← gets (get_owned_ids_in owner_id p.update_ids)
  raise_if (not (length owned == length (distinct p.update_ids))) forbidden
  bulk_update_by_owner orm_runs owner_id p.update_rows now
  created ← run (create_many new_id owner_id p.create_rows now)
  let requested = p.update_ids ++ map (λ r. r.id) created
  run (bulk_delete_by_owner_ids owner_id (keep (λ i. not (mem_id requested i)) existing_ids))
  run (appoint owner_id (representative_id p created) now)

unfoldable pub set_representative_dog : ℕ → ℕ → ℕ → Action (Unit {0})
set_representative_dog owner_id dog_id now = transaction (do
  dog ← gets (get_by_id dog_id owner_id)
  raise_if (is_none dog) not_found
  set ← run (set_representative owner_id dog_id now)
  raise_if (not set) internal_server_error
  user ← gets (get_user_by_id owner_id)
  raise_if (is_none user) internal_server_error)
