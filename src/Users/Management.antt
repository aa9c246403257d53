-- ===== src/Users/Management.antt =====
-- `UserManagementService` of ers/users/services/user_management_service.py, without the listing.
use entity_resolution_servic.Prelude.{
  ℕ, leb, String, Bool, true, false, not, ◌&&◌, ◌||◌, Option, none, some, if◌then◌else◌,
}
use entity_resolution_servic.Effects.{
  last_admin, application_error, not_found, Action, pure, raise, guard, ◌>>=◌, ◌>>◌,
}
use entity_resolution_servic.Users.{
  User, UserBackend, find_by_id, find_by_email, save, count_active_admins,
}

pub record CreateUserRequest : Type 0 where
  pub email : String
  pub password : String
  pub is_active : Bool
  pub is_superuser : Bool
  pub is_verified : Bool

pub record UserPatchRequest : Type 0 where
  pub is_active : Option Bool
  pub is_superuser : Option Bool
  pub is_verified : Option Bool
  pub password : Option String

-- A user without the password.
pub record UserResponse : Type 0 where
  pub id : String
  pub email : String
  pub is_active : Bool
  pub is_superuser : Bool
  pub is_verified : Bool
  pub created_at : ℕ
  pub updated_at : Option ℕ

abbrev pub to_user_response : User → UserResponse
to_user_response u = record {
  id = u.id;
  email = u.email;
  is_active = u.is_active;
  is_superuser = u.is_superuser;
  is_verified = u.is_verified;
  created_at = u.created_at;
  updated_at = u.updated_at;
}

abbrev pub is_false : Option Bool → Bool
is_false (some false) = true
is_false (some true) = false
is_false none = false

abbrev pub or_old {ℓ} : {A : Type ℓ} → Option A → A → A
or_old none a = a
or_old (some a) old = a

abbrev has {ℓ} : {A : Type ℓ} → Option A → Bool
has none = false
has (some a) = true

-- Whether `model_dump(exclude_none=True)` has an entry.
abbrev pub has_updates : UserPatchRequest → Bool
has_updates dto =
    has dto.is_active || (has dto.is_superuser || (has dto.is_verified || has dto.password))

module _ (b : UserBackend) where
  open b use {World}

  unfoldable pub guard_last_admin : User → UserPatchRequest → Action World (Unit {0})
  guard_last_admin user updates =
      let is_deactivating = is_false updates.is_active && user.is_active in
      let is_removing_superuser = is_false updates.is_superuser && user.is_superuser in
      if (is_deactivating && user.is_superuser) || (is_removing_superuser && user.is_active)
      then (do
        active_admin_count ← count_active_admins b
        guard (not (leb active_admin_count 1)) last_admin)
      else pure tt

  abbrev pub hashed : Option String → String → World → String × World
  hashed none old w = (old, w)
  hashed (some password) old w = b.hash password w

  -- The password is hashed, the time is read, the copy is saved.
  unfoldable pub apply_updates : User → UserPatchRequest → Action World User
  apply_updates user updates w =
      let (hashed_password, w1) = hashed updates.password user.hashed_password w in
      let (now, w2) = b.now w1 in
      save b
        (record user {
          is_active = or_old updates.is_active user.is_active;
          is_superuser = or_old updates.is_superuser user.is_superuser;
          is_verified = or_old updates.is_verified user.is_verified;
          hashed_password = hashed_password;
          updated_at = some now;
        })
        w2

  abbrev pub patch_found : String → UserPatchRequest → Option User → Action World UserResponse
  patch_found user_id dto none = raise (not_found user_id)
  patch_found user_id dto (some u) =
      if has_updates dto
      then (do guard_last_admin u dto; saved ← apply_updates u dto; pure (to_user_response saved))
      else pure (to_user_response u)

  unfoldable pub patch_user : String → UserPatchRequest → Action World UserResponse
  patch_user user_id dto = do user ← find_by_id b user_id; patch_found user_id dto user

  abbrev pub new_user : CreateUserRequest → String → String → ℕ → User
  new_user dto id hashed_password now = record {
    id = id;
    email = dto.email;
    hashed_password = hashed_password;
    is_active = dto.is_active;
    is_superuser = dto.is_superuser;
    is_verified = dto.is_verified;
    created_at = now;
    updated_at = none;
  }

  -- `str(uuid.uuid4())`, the hash of the password, `datetime.now(UTC)`, and the save.
  unfoldable pub add_user : CreateUserRequest → Action World UserResponse
  add_user dto w =
      let (id, w1) = b.uuid4 w in
      let (hashed_password, w2) = b.hash dto.password w1 in
      let (now, w3) = b.now w2 in
      let user = new_user dto id hashed_password now in
      (save b user >> pure (to_user_response user)) w3

  abbrev pub create_unless : CreateUserRequest → Option User → Action World UserResponse
  create_unless dto (some u) = raise application_error
  create_unless dto none = add_user dto

  unfoldable pub create_user : CreateUserRequest → Action World UserResponse
  create_user dto = do existing ← find_by_email b dto.email; create_unless dto existing
