-- ===== src/Db/Action.antt =====
-- app/common/exceptions.py, and a transaction: what the database holds comes back beside a raise, and
-- `async with db.begin()` puts the tables back if its block raises.
use kyjness_community_be.Prelude.{◌≡◌, refl, ◌⊎◌, inl, inr, Bool, Option, none, some, if◌then◌else◌}
use kyjness_community_be.Db.Rows.{Db}

-- one constructor for each exception class that a modelled service raises
pub data Error : Type 0 where
  post_not_found comment_not_found user_not_found image_not_found not_found : Error
  user_withdrawn email_already_exists nickname_already_exists missing_required_field : Error
  signup_image_token_invalid invalid_credentials invalid_user_info unauthorized forbidden : Error
  invalid_post_id_format invalid_image invalid_image_file invalid_file_type : Error
  invalid_request internal_server_error concurrent_update integrity_error dm_same_user : Error

pub data Result (A : Type 0) : Type 0 where
  ok : A → Result A
  err : Error → Result A

pub Result-cases :
    {A : Type 0} (r : Result A) → ((a : A) × (r ≡ ok a)) ⊎ ((e : Error) × (r ≡ err e))
Result-cases (ok a) = inl (a, refl)
Result-cases (err e) = inr (e, refl)

abbrev pub Action : Type 0 → Type 0
Action A = Db → Result A × Db

module _ {A : Type 0} where
  abbrev pub pure : A → Action A
  pure a d = (ok a, d)

  abbrev pub raise : Error → Action A
  raise e d = (err e, d)

  -- a query
  abbrev pub gets : (Db → A) → Action A
  gets f d = (ok (f d), d)

  -- a statement that answers
  abbrev pub run : (Db → A × Db) → Action A
  run f d = let (a, d') = f d in (ok a, d')

  abbrev pub settle : Db → Result A × Db → Result A × Db
  settle d (ok a, d') = (ok a, d')
  settle d (err e, d') = (err e, d)

  -- `async with db.begin():`
  abbrev pub transaction : Action A → Action A
  transaction m d = settle d (m d)

infixl 5 ◌>>=◌ ◌>>◌
abbrev pub ◌>>=◌ : {A B : Type 0} → Action A → (A → Action B) → Action B
◌>>=◌ m f d = let (r, d') = m d in elim r [ ok a ↦ f a d' | err e ↦ (err e, d') ]

abbrev pub ◌>>◌ : {A B : Type 0} → Action A → Action B → Action B
m >> k = m >>= λ _. k

-- `if c: raise e`
abbrev pub raise_if : Bool → Error → Action (Unit {0})
raise_if c e d = (if c then err e else ok tt, d)

abbrev pub or_raise : {A : Type 0} → Option A → Error → Action A
or_raise none e = raise e
or_raise (some a) e = pure a

-- What an action makes true of the tables, from what its parts do.
module _ (P : Db → Type 0) where
  pub bind-keeps :
      {A B : Type 0} (m : Action A) (f : A → Action B) (d : Db)
      → P (m d).1
      → ((a : A) → (m d).0 ≡ ok a → P (f a (m d).1).1)
      → P ((m >>= f) d).1
  bind-keeps {A} {B} m f d start next = by_result (m d) start next
    where
      by_result :
          (x : Result A × Db)
          → P x.1
          → ((a : A) → x.0 ≡ ok a → P (f a x.1).1)
          → P (elim x.0 as (λ _. Result B × Db) [ ok a ↦ f a x.1 | err e ↦ (err e, x.1) ]).1
      by_result (ok a, d') start next = next a refl
      by_result (err e, d') start next = start

  pub transaction-keeps :
      {A : Type 0} (m : Action A) (d : Db) → P d → P (m d).1 → P (transaction m d).1
  transaction-keeps {A} m d start done = by_result (m d) done
    where
      by_result : (x : Result A × Db) → P x.1 → P (settle d x).1
      by_result (ok a, d') done = done
      by_result (err e, d') done = start
