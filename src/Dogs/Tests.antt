-- ===== src/Dogs/Tests.antt =====
-- An owner with two dogs, one of whom is replaced, and the theorems at them.
use kyjness_community_be.Prelude.{
  ℕ, ◌+◌, ◌≡◌, refl, Bool, true, false, Option, none, some, List, [], ◌∷◌, is_none,
}
use kyjness_community_be.Text.{codes}
use kyjness_community_be.Db.Rows.{Db, DogProfile, User, active}
use kyjness_community_be.Db.Empty.{no_rows}
use kyjness_community_be.Db.Action.{ok, err, forbidden, internal_server_error}
use kyjness_community_be.Db.Sql.{one_or_none}
use kyjness_community_be.Dogs.{
  DogProfileUpsertItem, upsert_dog_profile, plan_items, plan_item, get_owned_ids_in, distinct,
  get_by_id, bulk_update_by_owner,
}
use kyjness_community_be.Users.{get_user_by_id}

abbrev dog : ℕ → ℕ → Bool → DogProfile
dog i owner_id chosen = record {
  id = i;
  owner_id = owner_id;
  name = codes "Coco";
  breed = codes "Jindo";
  gender = codes "female";
  birth_date = 7;
  profile_image_id = none;
  is_representative = chosen;
  created_at = 1;
  updated_at = 1;
}

abbrev owner : User
owner = record {
  id = 10;
  version = 1;
  email = codes "a@b.c";
  password = codes "hash";
  nickname = codes "mong";
  profile_image_id = none;
  role = codes "USER";
  status = active;
  created_at = 1;
  updated_at = 1;
  deleted_at = none;
}

abbrev kennel : Db
kennel = record no_rows {
  users = owner ∷ [];
  dog_profiles = dog 1 10 true ∷ dog 2 10 false ∷ dog 3 11 true ∷ [];
}

abbrev item : Option ℕ → Bool → DogProfileUpsertItem
item i chosen = record {
  id = i;
  name = codes "Bori";
  breed = codes "Poodle";
  gender = codes "male";
  birth_date = 8;
  profile_image_id = none;
  is_representative = chosen;
}

-- the second dog stays, the first goes, and a new one becomes the representative
abbrev wishes : List DogProfileUpsertItem
wishes = item (some 2) false ∷ item none true ∷ []

abbrev new_id : ℕ → ℕ
new_id i = i + 40

upserted : (upsert_dog_profile true new_id 10 wishes 50 kennel).0 ≡ ok tt
unfolding bulk_update_by_owner upsert_dog_profile plan_items plan_item get_owned_ids_in distinct
upserted = refl

abbrev after : Db
after = (upsert_dog_profile true new_id 10 wishes 50 kennel).1

-- with SQLAlchemy 2.0
not_upserted : (upsert_dog_profile false new_id 10 wishes 50 kennel).0 ≡ err internal_server_error
unfolding upsert_dog_profile plan_items plan_item get_owned_ids_in distinct bulk_update_by_owner
not_upserted = refl

-- a dog of another owner
stolen : (upsert_dog_profile true new_id 10 (item (some 3) false ∷ []) 50 kennel).0 ≡ err forbidden
unfolding upsert_dog_profile plan_items plan_item get_owned_ids_in distinct
stolen = refl

chosen_there : is_none (get_by_id 2 10 kennel) ≡ false
unfolding get_by_id one_or_none
chosen_there = refl

owner_there : is_none (get_user_by_id 10 kennel) ≡ false
unfolding get_user_by_id one_or_none
owner_there = refl
