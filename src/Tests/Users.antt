-- ===== src/Tests/Users.antt =====
-- The users, with services that keep everything in memory.
use entity_resolution_servic.Prelude.{
  ◌/◌, ◌*◌, leb, ◌&&◌, arith, ℕ, zero, suc, ltb, ◌<◌, ◌≤◌, String, ◌≡◌, ◌≢◌, refl, sym, ap, ◌∙◌,
  Bool, true, false, Bool-cases, Option-cases, inl, inr, ◌⊎◌, Option, none, some, [], ◌∷◌, ◌==◌,
  string_eq, eq_iff, if◌then◌else◌,
}
use entity_resolution_servic.Dict.{Dict, lookup, put, count}
use entity_resolution_servic.Effects.{ok, err, authentication_error}
use entity_resolution_servic.Effects.Answers.{Answers}
use entity_resolution_servic.Users.{
  UserDocument, Claims, TokenType, access, refresh, JwtError, expired_signature, invalid_token,
  UserBackend, IsUserBackend, IsHealthy, is_active_admin, from_document,
}
use entity_resolution_servic.Users.Management.{
  UserPatchRequest, CreateUserRequest, patch_user, create_user,
}
use entity_resolution_servic.Users.Auth.{
  TokenResponse, context_of, register, login, get_current_user_context, refresh_tokens,
}
use entity_resolution_servic.Users.Admins.{patch_user-HasAdmin}
use entity_resolution_servic.Users.Emails.{IsUnique, create_user-IsUnique}
use entity_resolution_servic.Users.Sessions.{Granted, Names, login-Granted, tokens_used}
use entity_resolution_servic.Tests.Codec.{unary, read_unary, read_unary-unary}

-- The first document of an email, seen as the dictionary sees it.
abbrev first_in : String → Dict UserDocument → Dict UserDocument → Option (String × UserDocument)
first_in e full [] = none
first_in e full ((k, d) ∷ rest) =
    let later = first_in e full rest in
    elim (lookup k full) [
      | none ↦ later
      | some found ↦ if found.email == e then some (k, found) else later
    ]

first_in-found :
    (e : String) (full rest : Dict UserDocument) (k : String) (d : UserDocument)
    → first_in e full rest ≡ some (k, d)
    → (lookup k full ≡ some d) × (d.email ≡ e)
first_in-found e full [] k d h = cc h
first_in-found e full ((j, d') ∷ rest) k d h = elim (Option-cases (lookup j full)) [
  | inl absent ↦ first_in-found e full rest k d (ground (arith, h, absent))
  | inr (found, there) ↦ elim (Bool-cases (found.email == e)) [
    | inl same ↦
        let is_k : j ≡ k = ground (arith, h, there, same) in
        let is_d : found ≡ d = ground (arith, h, there, same) in
        (
          ap (λ x. lookup x full) (sym is_k) ∙ there ∙ ap some is_d,
          ap (λ x. x.email) (sym is_d) ∙ ground (arith, eq_iff found.email e, same),
        )
    | inr other ↦ first_in-found e full rest k d (ground (arith, h, there, other))
  ]
]

first_in-none :
    (e : String) (full rest : Dict UserDocument) (k : String) (d d' : UserDocument)
    → first_in e full rest ≡ none
    → lookup k rest ≡ some d'
    → lookup k full ≡ some d
    → d.email ≢ e
unfolding lookup
first_in-none e full [] k d d' h there here = cc there
first_in-none e full ((j, d₁) ∷ rest) k d d' h there here = elim (Bool-cases (j == k)) [
  | inl at ↦ λ same.
      let is_k : j ≡ k = ground (arith, at, eq_iff j k) in
      let here' : lookup j full ≡ some d = ap (λ x. lookup x full) is_k ∙ here in
      absurd (ground (arith, h, here', same, eq_iff d.email e))
  | inr other ↦
      first_in-none e full rest k d d'
        (elim (Option-cases (lookup j full)) [
          | inl absent ↦ ground (arith, h, absent)
          | inr (found, is_found) ↦ ground (arith, h, is_found)
        ])
        (ground (arith, there, other)) here
]

abbrev type_code : TokenType → ℕ
type_code access = 0
type_code refresh = 1

abbrev type_of : ℕ → TokenType
type_of zero = access
type_of (suc n) = refresh

abbrev token : Claims → Option (String × Bool × Bool) → String
token c extra = unary (type_code c.token_type) (unary (c.iat / 1000) (unary (c.exp / 1000) c.sub))

abbrev with_expiry : ℕ → ℕ → Option (ℕ × String) → JwtError ⊎ Claims
with_expiry t iat none = inl invalid_token
with_expiry t iat (some (exp, sub)) =
    if ltb 1000 (1000 * exp) && leb (1000 * iat) 1000
    then inr (record { sub = sub; token_type = type_of t; iat = iat; exp = exp })
    else inl expired_signature

abbrev with_issue : ℕ → Option (ℕ × String) → JwtError ⊎ Claims
with_issue t none = inl invalid_token
with_issue t (some (iat, s)) = with_expiry t iat (read_unary s)

abbrev with_type : Option (ℕ × String) → JwtError ⊎ Claims
with_type none = inl invalid_token
with_type (some (t, s)) = with_issue t (read_unary s)

decode-token :
    (c : Claims) (extra : Option (String × Bool × Bool))
    → 1000 * (c.iat / 1000) ≤ 1000
    → 1000 < 1000 * (c.exp / 1000)
    → with_type (read_unary (token c extra))
      ≡ inr (record c { iat = c.iat / 1000; exp = c.exp / 1000 })
decode-token c extra issued h =
    let iat = c.iat / 1000 in
    let exp = c.exp / 1000 in
    ap with_type (read_unary-unary (type_code c.token_type) (unary iat (unary exp c.sub)))
    ∙ ap (with_issue (type_code c.token_type)) (read_unary-unary iat (unary exp c.sub))
    ∙ ap (with_expiry (type_code c.token_type) iat) (read_unary-unary exp c.sub)
    ∙ by_type c.token_type
  where
    by_type :
        (t : TokenType)
        → with_expiry (type_code t) (c.iat / 1000) (some (c.exp / 1000, c.sub))
          ≡ inr (record { sub = c.sub; token_type = t; iat = c.iat / 1000; exp = c.exp / 1000 })
    by_type access = ground (arith, issued, h)
    by_type refresh = ground (arith, issued, h)

abbrev memory_users : UserBackend
memory_users = record {
  World = Dict UserDocument;
  users = λ w. w;
  fault = λ w. none;
  clock = λ w. 1000;
  now = λ w. (1000, w);
  uuid4 = λ w. ("u9", w);
  hash = λ p w. (p, w);
  verify = λ p h. p == h;
  encode = token;
  decode = λ s w. with_type (read_unary s);
  find_one = λ k w. (ok (lookup k w), w);
  find_one_email = λ e w. (ok (first_in e w w), w);
  replace_one = λ k d w. (ok tt, put k d w);
  count_admins = λ w. (ok (count is_active_admin w), w);
}

memory_users-IsUserBackend : IsUserBackend memory_users
memory_users-IsUserBackend = record {
  now_users = λ w. refl;
  uuid4_users = λ w. refl;
  hash_users = λ p w. refl;
  verify_hash = λ p w. ground (arith, eq_iff p p);
  decode_encode = λ c extra w issued h. decode-token c extra issued h;
  find_reply = λ k w. refl;
  find_users = λ k w. refl;
  email_found = λ e w k d h. first_in-found e w w k d (ground (arith, h));
  email_none = λ e w k d h there. first_in-none e w w k d d (ground (arith, h)) there there;
  email_fault = λ e w f h. cc h;
  email_answer = λ e w h. (first_in e w w, refl);
  email_users = λ e w. refl;
  replace_reply = λ k d w. refl;
  replace_users = λ k d w h. refl;
  count_reply = λ w. refl;
  count_users = λ w. refl;
}

memory_users-IsHealthy : IsHealthy memory_users
memory_users-IsHealthy = record { no_fault = λ w. refl }

abbrev admin : UserDocument
admin = record {
  email = "a@x";
  hashed_password = "secret";
  is_active = true;
  is_superuser = true;
  is_verified = true;
  created_at = 1;
  updated_at = none;
}

abbrev one_admin : Dict UserDocument
one_admin = ("u1", admin) ∷ []

abbrev deactivation : UserPatchRequest
deactivation = record {
  is_active = some false;
  is_superuser = none;
  is_verified = none;
  password = none;
}

some_admin : 1 ≤ count is_active_admin one_admin
unfolding count
some_admin = omega arith

patch_user-HasAdmin_example :
    1 ≤ count is_active_admin (patch_user memory_users "u1" deactivation one_admin).1
patch_user-HasAdmin_example =
    patch_user-HasAdmin memory_users memory_users-IsUserBackend memory_users-IsHealthy "u1"
      deactivation one_admin some_admin

one_admin-IsUnique : IsUnique one_admin
unfolding lookup
one_admin-IsUnique j k = ground (arith, eq_iff "u1" j, eq_iff "u1" k)

abbrev newcomer : CreateUserRequest
newcomer = record {
  email = "b@x";
  password = "password";
  is_active = true;
  is_superuser = false;
  is_verified = false;
}

create_user-IsUnique_example :
    IsUnique (create_user memory_users newcomer one_admin).1
    × IsUnique (register memory_users "a@x" "password" one_admin).1
create_user-IsUnique_example =
    create_user-IsUnique memory_users memory_users-IsUserBackend memory_users-IsHealthy newcomer
      "a@x" "password" one_admin one_admin-IsUnique

login-Granted_example :
    Answers
      (Granted memory_users memory_users-IsUserBackend memory_users-IsHealthy 30 600 one_admin "a@x"
        "secret")
      (login memory_users 30 600 "a@x" "secret" one_admin)
login-Granted_example =
    login-Granted memory_users memory_users-IsUserBackend memory_users-IsHealthy 30 600 "a@x"
      "secret" one_admin

abbrev tokens_a : TokenResponse
tokens_a = record {
  access_token = token (record { sub = "u1"; token_type = access; iat = 1000; exp = 31000 }) none;
  refresh_token =
      token (record { sub = "u1"; token_type = refresh; iat = 1000; exp = 601000 }) none;
}

admin_there : lookup "u1" one_admin ≡ some admin
unfolding lookup
admin_there = refl

tokens_used_example :
    ((get_current_user_context memory_users tokens_a.access_token one_admin).0
      ≡ ok (context_of (from_document "u1" admin)))
    × ((get_current_user_context memory_users tokens_a.refresh_token one_admin).0
        ≡ err authentication_error)
    × ((refresh_tokens memory_users 30000 600000 tokens_a.access_token one_admin).0
        ≡ err authentication_error)
    × ((tokens' : TokenResponse) × ((refresh_tokens memory_users 30000 600000 tokens_a.refresh_token
            one_admin).0
          ≡ ok tokens')
        × Names memory_users memory_users-IsUserBackend memory_users-IsHealthy 30000 600000 "u1"
            admin tokens')
tokens_used_example =
    tokens_used memory_users memory_users-IsUserBackend memory_users-IsHealthy 30000 600000 "u1"
      admin one_admin 1000 1000 tokens_a (refl, refl) admin_there refl (omega arith) (omega arith)
      (omega arith) (omega arith)
