-- ===== src/Users.antt =====
-- The users of the curation API: ers/users, with the services that it calls (MongoDB, the clock,
-- uuid4, the password hasher, PyJWT) as one interface.
pub mod Management
pub mod Auth
pub mod Admins
pub mod Emails
pub mod Sessions
use entity_resolution_servic.Prelude.{
  ℕ, suc, ◌<◌, ◌≤◌, ◌*◌, ◌/◌, String, ◌≡◌, ◌≢◌, ◌⊎◌, inr, Bool, true, false, ◌&&◌, Option, none,
  some, List, [], ◌∷◌, ◌==◌, string_eq, if◌then◌else◌,
}
use entity_resolution_servic.Dict.{Dict, lookup, put, count}
use entity_resolution_servic.Effects.{
  MongoError, pymongo, Result, ok, err, Action, pure, ◌>>=◌, ◌>>◌,
}
use entity_resolution_servic.Backend.{answer}

pub record User : Type 0 where
  pub id : String
  pub email : String
  pub hashed_password : String
  pub is_active : Bool
  pub is_superuser : Bool
  pub is_verified : Bool
  pub created_at : ℕ
  pub updated_at : Option ℕ

-- What the collection keeps under an `_id`.
pub record UserDocument : Type 0 where
  pub email : String
  pub hashed_password : String
  pub is_active : Bool
  pub is_superuser : Bool
  pub is_verified : Bool
  pub created_at : ℕ
  pub updated_at : Option ℕ

abbrev pub to_document : User → UserDocument
to_document u = record {
  email = u.email;
  hashed_password = u.hashed_password;
  is_active = u.is_active;
  is_superuser = u.is_superuser;
  is_verified = u.is_verified;
  created_at = u.created_at;
  updated_at = u.updated_at;
}

abbrev pub from_document : String → UserDocument → User
from_document id d = record {
  id = id;
  email = d.email;
  hashed_password = d.hashed_password;
  is_active = d.is_active;
  is_superuser = d.is_superuser;
  is_verified = d.is_verified;
  created_at = d.created_at;
  updated_at = d.updated_at;
}

abbrev pub is_active_admin : UserDocument → Bool
is_active_admin d = d.is_active && d.is_superuser

-- The payload of a token. Times are in milliseconds when it is encoded; PyJWT keeps whole seconds,
-- and these are what it decodes.
pub data TokenType : Type 0 where
  access refresh : TokenType

pub record Claims : Type 0 where
  pub sub : String
  pub token_type : TokenType
  pub iat : ℕ
  pub exp : ℕ

pub data JwtError : Type 0 where
  expired_signature invalid_token : JwtError

pub record UserBackend : Type 1 where
  pub World : Type 0
  pub users : World → Dict UserDocument
  pub fault : World → Option MongoError
  pub clock : World → ℕ
  -- datetime.now(UTC), str(uuid4()), and the password hasher, which draws a salt
  pub now : World → ℕ × World
  pub uuid4 : World → String × World
  pub hash : String → World → String × World
  pub verify : String → String → Bool
  -- jwt.encode with its extra claims, and jwt.decode, which reads the clock
  pub encode : Claims → Option (String × Bool × Bool) → String
  pub decode : String → World → JwtError ⊎ Claims
  -- the users collection
  pub find_one : String → Action World (Option UserDocument)
  pub find_one_email : String → Action World (Option (String × UserDocument))
  pub replace_one : String → UserDocument → Action World (Unit {0})
  pub count_admins : Action World ℕ

pub record IsUserBackend (b : UserBackend) : Type 0 where
  pub now_users : (w : b.World) → b.users (b.now w).1 ≡ b.users w
  pub uuid4_users : (w : b.World) → b.users (b.uuid4 w).1 ≡ b.users w
  pub hash_users : (p : String) (w : b.World) → b.users (b.hash p w).1 ≡ b.users w
  pub verify_hash : (p : String) (w : b.World) → b.verify p (b.hash p w).0 ≡ true
  -- A token is good from the second in which it was issued until the second in which it expires.
  pub decode_encode :
      (c : Claims) (extra : Option (String × Bool × Bool)) (w : b.World)
      → 1000 * (c.iat / 1000) ≤ b.clock w
      → b.clock w < 1000 * (c.exp / 1000)
      → b.decode (b.encode c extra) w ≡ inr (record c { iat = c.iat / 1000; exp = c.exp / 1000 })
  pub find_reply :
      (k : String) (w : b.World) → (b.find_one k w).0 ≡ answer (b.fault w) (lookup k (b.users w))
  pub find_users : (k : String) (w : b.World) → b.users (b.find_one k w).1 ≡ b.users w
  -- `find_one({"email": …})` answers with a document of the email, if there is one.
  pub email_found :
      (e : String) (w : b.World) (k : String) (d : UserDocument)
      → (b.find_one_email e w).0 ≡ ok (some (k, d))
      → (lookup k (b.users w) ≡ some d) × (d.email ≡ e)
  pub email_none :
      (e : String) (w : b.World) (k : String) (d : UserDocument)
      → (b.find_one_email e w).0 ≡ ok none
      → lookup k (b.users w) ≡ some d
      → d.email ≢ e
  pub email_fault :
      (e : String) (w : b.World) (f : MongoError)
      → b.fault w ≡ some f
      → (b.find_one_email e w).0 ≡ err (pymongo f)
  pub email_answer :
      (e : String) (w : b.World)
      → b.fault w ≡ none
      → (o : Option (String × UserDocument)) × ((b.find_one_email e w).0 ≡ ok o)
  pub email_users : (e : String) (w : b.World) → b.users (b.find_one_email e w).1 ≡ b.users w
  pub replace_reply :
      (k : String) (d : UserDocument) (w : b.World)
      → (b.replace_one k d w).0 ≡ answer (b.fault w) tt
  pub replace_users :
      (k : String) (d : UserDocument) (w : b.World)
      → b.fault w ≡ none
      → b.users (b.replace_one k d w).1 ≡ put k d (b.users w)
  pub count_reply :
      (w : b.World) → (b.count_admins w).0 ≡ answer (b.fault w) (count is_active_admin (b.users w))
  pub count_users : (w : b.World) → b.users (b.count_admins w).1 ≡ b.users w

-- A stretch of time in which no command fails.
pub record IsHealthy (b : UserBackend) : Type 0 where
  pub no_fault : (w : b.World) → b.fault w ≡ none

abbrev pub user_of : Option (String × UserDocument) → Option User
user_of none = none
user_of (some (k, d)) = some (from_document k d)

module _ (b : UserBackend) where
  unfoldable pub find_by_id : String → Action b.World (Option User)
  find_by_id id = do
    doc ← b.find_one id
    pure (elim doc [ none ↦ none | some d ↦ some (from_document id d) ])

  unfoldable pub find_by_email : String → Action b.World (Option User)
  find_by_email email = do doc ← b.find_one_email email; pure (user_of doc)

  unfoldable pub save : User → Action b.World User
  save user = do b.replace_one user.id (to_document user); pure user

  unfoldable pub count_active_admins : Action b.World ℕ
  count_active_admins = b.count_admins
