-- ===== src/Users/Auth.antt =====
-- `AuthService` and `JWTTokenService`: ers/users/services/auth_service.py and token_service.py.
use entity_resolution_servic.Prelude.{
  ℕ, ◌+◌, String, Bool, true, false, inl, inr, Option, none, some,
}
use entity_resolution_servic.Effects.{
  authentication_error, user_deactivated, Action, pure, raise, guard, ◌>>=◌, ◌>>◌,
}
use entity_resolution_servic.Users.{
  User, Claims, TokenType, access, refresh, UserBackend, find_by_id, find_by_email,
}
use entity_resolution_servic.Users.Management.{UserResponse, CreateUserRequest, add_user}

pub record TokenResponse : Type 0 where
  pub access_token : String
  pub refresh_token : String

pub record UserContext : Type 0 where
  pub id : String
  pub email : String
  pub is_active : Bool
  pub is_superuser : Bool
  pub is_verified : Bool

abbrev pub context_of : User → UserContext
context_of u = record {
  id = u.id;
  email = u.email;
  is_active = u.is_active;
  is_superuser = u.is_superuser;
  is_verified = u.is_verified;
}

abbrev is_access : TokenType → Bool
is_access access = true
is_access refresh = false

abbrev is_refresh : TokenType → Bool
is_refresh access = false
is_refresh refresh = true

module _ (b : UserBackend) where
  open b use {World}

  -- The flags are the defaults of `User`.
  abbrev pub registration : String → String → CreateUserRequest
  registration email password = record {
    email = email;
    password = password;
    is_active = true;
    is_superuser = false;
    is_verified = false;
  }

  abbrev pub register_unless : String → String → Option User → Action World UserResponse
  register_unless email password (some u) = raise authentication_error
  register_unless email password none = add_user b (registration email password)

  unfoldable pub register : String → String → Action World UserResponse
  register email password = do
    existing ← find_by_email b email
    register_unless email password existing

  -- Whatever PyJWT raises is an authentication error.
  unfoldable pub decode_token : String → Action World Claims
  decode_token token w = elim (b.decode token w) [
    | inl e ↦ raise authentication_error w
    | inr c ↦ pure c w
  ]

  -- The user of a token, if it may still use the service.
  abbrev pub still_active : Option User → Action World User
  still_active none = raise authentication_error
  still_active (some u) = do guard u.is_active authentication_error; pure u

  unfoldable pub active_user : String → Action World User
  active_user sub = do user ← find_by_id b sub; still_active user

  unfoldable pub get_current_user_context : String → Action World UserContext
  get_current_user_context token = do
    payload ← decode_token token
    guard (is_access payload.token_type) authentication_error
    user ← active_user payload.sub
    pure (context_of user)

  unfoldable pub check_password : String → Option User → Action World User
  check_password password none = raise authentication_error
  check_password password (some user) = do
    guard (b.verify password user.hashed_password) authentication_error
    pure user

  module _ (access_expire refresh_expire : ℕ) where
    unfoldable pub create_access_token : String → String × Bool × Bool → World → String × World
    create_access_token subject extra_claims w =
        let (now, v) = b.now w in
        (
          b.encode
              (record { sub = subject; token_type = access; iat = now; exp = now + access_expire })
              (some extra_claims),
          v,
        )

    unfoldable pub create_refresh_token : String → World → String × World
    create_refresh_token subject w =
        let (now, v) = b.now w in
        (
          b.encode
              (record {
                sub = subject;
                token_type = refresh;
                iat = now;
                exp = now + refresh_expire;
              })
              none,
          v,
        )

    unfoldable pub issue_tokens : User → Action World TokenResponse
    unfolding create_access_token create_refresh_token
    issue_tokens user w =
        let (access_token, v) =
          create_access_token user.id (user.email, user.is_superuser, user.is_verified) w in
        let (refresh_token, u) = create_refresh_token user.id v in
        pure (record { access_token = access_token; refresh_token = refresh_token }) u

    unfoldable pub login : String → String → Action World TokenResponse
    login email password = do
      found ← find_by_email b email
      user ← check_password password found
      guard user.is_active user_deactivated
      issue_tokens user

    unfoldable pub refresh_tokens : String → Action World TokenResponse
    refresh_tokens refresh_token = do
      payload ← decode_token refresh_token
      guard (is_refresh payload.token_type) authentication_error
      user ← active_user payload.sub
      issue_tokens user
