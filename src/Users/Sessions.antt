-- ===== src/Users/Sessions.antt =====
-- What a login grants: the tokens, whom they name, and what they are good for.
use entity_resolution_servic.Prelude.{
  arith, ℕ, ◌+◌, ◌<◌, ◌≤◌, ◌*◌, ◌/◌, String, ◌≡◌, refl, sym, ap, subst, ◌∙◌, Bool, true, false,
  Bool-cases, ◌⊎◌, inl, inr, Option, none, some,
}
use entity_resolution_servic.Dict.{lookup}
use entity_resolution_servic.Effects.{
  Error, authentication_error, user_deactivated, ok, err, Action, pure, guard, ◌>>=◌, >>=-run,
  >>=-eq-ok,
}
use entity_resolution_servic.Effects.Answers.{Answers, Answers->>=}
use entity_resolution_servic.Users.{
  User, UserDocument, Claims, access, refresh, UserBackend, IsUserBackend, IsHealthy, from_document,
  user_of, find_by_id, find_by_email,
}
use entity_resolution_servic.Users.Auth.{
  TokenResponse, context_of, decode_token, active_user, still_active, get_current_user_context,
  issue_tokens, create_access_token, create_refresh_token, check_password, login, refresh_tokens,
}
use entity_resolution_servic.Users.Admins.{find_by_id-run}

module _ (b : UserBackend) (laws : IsUserBackend b) (healthy : IsHealthy b)
    (access_expire refresh_expire : ℕ) where
  -- A pair of tokens that name a user, issued at two times.
  abbrev pub IssuedAt : String → UserDocument → ℕ → ℕ → TokenResponse → Type 0
  IssuedAt k d t t' tokens =
      (tokens.access_token
        ≡ b.encode (record { sub = k; token_type = access; iat = t; exp = t + access_expire })
            (some (d.email, d.is_superuser, d.is_verified)))
      × (tokens.refresh_token
          ≡ b.encode (record { sub = k; token_type = refresh; iat = t'; exp = t' + refresh_expire })
              none)

  abbrev pub Names : String → UserDocument → TokenResponse → Type 0
  Names k d tokens = (t : ℕ) × (t' : ℕ) × IssuedAt k d t t' tokens

  -- The user has the email and the password, and is active.
  abbrev pub MayLogIn : b.World → String → String → String → UserDocument → Type 0
  MayLogIn w email password k d =
      (lookup k (b.users w) ≡ some d)
      × (d.email ≡ email)
      × (b.verify password d.hashed_password ≡ true)
      × (d.is_active ≡ true)

  abbrev pub Granted : b.World → String → String → TokenResponse → b.World → Type 0
  Granted w email password tokens v =
      (k : String) × (d : UserDocument) × MayLogIn w email password k d × Names k d tokens

  guard_passes :
      (test : Bool) (e : Error) (w v : b.World) → guard test e w ≡ (ok tt, v) → test ≡ true
  guard_passes true e w v h = refl
  guard_passes false e w v h = cc h

  find_by_email-found :
      (email : String) (w v : b.World) (found : Option User)
      → find_by_email b email w ≡ (ok found, v)
      → (found ≡ none)
        ⊎ ((k : String) × (d : UserDocument) × (found ≡ some (from_document k d))
            × (lookup k (b.users w) ≡ some d)
            × (d.email ≡ email))
  unfolding find_by_email
  find_by_email-found email w v found h =
      let (o, u, asked, k) =
        >>=-eq-ok (b.find_one_email email) (λ doc. pure {W = b.World} (user_of doc)) w h in
      inspect o (ap (λ r. r.0) asked) (ground (arith, k))
    where
      inspect :
          (o : Option (String × UserDocument))
          → (b.find_one_email email w).0 ≡ ok o
          → user_of o ≡ found
          → (found ≡ none)
            ⊎ ((k : String) × (d : UserDocument) × (found ≡ some (from_document k d))
                × (lookup k (b.users w) ≡ some d)
                × (d.email ≡ email))
      inspect none asked e = inl (sym e)
      inspect (some (i, d)) asked e =
          let (there, matches) = laws.email_found email w i d asked in
          inr (i, d, sym e, there, matches)

  check_password-passes :
      (password : String) (found : Option User) (user : User) (w v : b.World)
      → check_password b password found w ≡ (ok user, v)
      → (found ≡ some user) × (b.verify password user.hashed_password ≡ true)
  unfolding check_password
  check_password-passes password none user w v h = cc h
  check_password-passes password (some u) user w v h =
      elim (Bool-cases (b.verify password u.hashed_password)) [
        | inl good ↦ (ground (arith, h, good), ground (arith, h, good))
        | inr bad ↦ absurd (ground (arith, h, bad))
      ]

  issued-Granted :
      (email password : String) (w v : b.World) (found : Option User) (user : User)
      → ((found ≡ none)
          ⊎ ((k : String) × (d : UserDocument) × (found ≡ some (from_document k d))
              × (lookup k (b.users w) ≡ some d)
              × (d.email ≡ email)))
      → found ≡ some user
      → b.verify password user.hashed_password ≡ true
      → user.is_active ≡ true
      → Answers (Granted w email password) (issue_tokens b access_expire refresh_expire user v)
  unfolding issue_tokens create_access_token create_refresh_token
  issued-Granted email password w v found user (inl missing) same good active = cc (missing, same)
  issued-Granted email password w v found user (inr (k, d, is_user, there, matches)) same good
        active =
      let user_is : user ≡ from_document k d = ground (arith, is_user, same) in
      subst
        (λ x. Answers (Granted w email password) (issue_tokens b access_expire refresh_expire x v))
        (sym user_is)
        (
          k,
          d,
          (
            there,
            matches,
            subst (λ x. b.verify password x.hashed_password ≡ true) user_is good,
            subst (λ x. x.is_active ≡ true) user_is active,
          ),
          (_, _, (refl, refl)),
        )

  -- A login that answers tokens was made with the email and the password of an active user, and the
  -- tokens name that user.
  pub login-Granted :
      (email password : String) (w : b.World)
      → Answers (Granted w email password) (login b access_expire refresh_expire email password w)
  unfolding login
  login-Granted email password w =
      let Q = Granted w email password in
      let issue : User → Action b.World TokenResponse =
        issue_tokens b access_expire refresh_expire in
      let active : User → Action b.World TokenResponse =
        λ user. guard user.is_active user_deactivated >>= λ _. issue user in
      let checked : Option User → Action b.World TokenResponse =
        λ found. check_password b password found >>= active in
      Answers->>= Q (find_by_email b email) checked w (λ found v1 run1.
        Answers->>= Q (check_password b password found) active v1 (λ user v2 run2.
          Answers->>= Q (guard user.is_active user_deactivated) (λ _. issue user) v2
            (λ x v3 run3.
              let (is_found, good) = check_password-passes password found user v1 v2 run2 in
              issued-Granted email password w v3 found user
                (find_by_email-found email w v1 found run1) is_found good
                (guard_passes user.is_active user_deactivated v2 v3 run3))))

  issue_tokens-run :
      (k : String) (d : UserDocument) (v : b.World)
      → (tokens : TokenResponse) × (x : b.World) × (issue_tokens b access_expire refresh_expire
            (from_document k d)
            v
          ≡ (ok tokens, x))
        × Names k d tokens
  unfolding issue_tokens create_access_token create_refresh_token
  issue_tokens-run k d v = (_, _, refl, (_, _, (refl, refl)))

  module _ (k : String) (d : UserDocument) (u : b.World) where
    decode_token-run :
        (c : Claims) (extra : Option (String × Bool × Bool))
        → 1000 * (c.iat / 1000) ≤ b.clock u
        → b.clock u < 1000 * (c.exp / 1000)
        → decode_token b (b.encode c extra) u
          ≡ (ok (record c { iat = c.iat / 1000; exp = c.exp / 1000 }), u)
    unfolding decode_token
    decode_token-run c extra issued h =
        rw (decode_token, laws.decode_encode c extra u issued h) refl

    active_user-run :
        lookup k (b.users u) ≡ some d
        → d.is_active ≡ true
        → (v : b.World) × (active_user b k u ≡ (ok (from_document k d), v))
    unfolding active_user
    active_user-run there active =
        let (v, run, same) = find_by_id-run b laws healthy k u in
        (
          v,
          >>=-run (find_by_id b k) (still_active b) u v (some (from_document k d))
                (run ∙ rw there refl)
              ∙ ground (arith, active),
        )

    -- While no command fails, tokens of an active user that were not issued in the future, before
    -- the whole second in which they expire: the access token identifies the user, the refresh token
    -- buys tokens of the same user, and neither is taken for the other.
    pub tokens_used :
        (t t' : ℕ) (tokens : TokenResponse)
        → IssuedAt k d t t' tokens
        → lookup k (b.users u) ≡ some d
        → d.is_active ≡ true
        → t ≤ b.clock u
        → t' ≤ b.clock u
        → b.clock u < 1000 * ((t + access_expire) / 1000)
        → b.clock u < 1000 * ((t' + refresh_expire) / 1000)
        → ((get_current_user_context b tokens.access_token u).0
            ≡ ok (context_of (from_document k d)))
          × ((get_current_user_context b tokens.refresh_token u).0 ≡ err authentication_error)
          × ((refresh_tokens b access_expire refresh_expire tokens.access_token u).0
              ≡ err authentication_error)
          × ((tokens' : TokenResponse) × ((refresh_tokens b access_expire refresh_expire
                  tokens.refresh_token u).0
                ≡ ok tokens')
              × Names k d tokens')
    unfolding get_current_user_context refresh_tokens
    tokens_used t t' tokens (is_access_token, is_refresh_token) there active past past' fresh
          fresh' =
        let access_claims : Claims = record {
          sub = k;
          token_type = access;
          iat = t;
          exp = t + access_expire;
        } in
        let refresh_claims : Claims = record {
          sub = k;
          token_type = refresh;
          iat = t';
          exp = t' + refresh_expire;
        } in
        let read =
          decode_token-run access_claims (some (d.email, d.is_superuser, d.is_verified))
            (omega (arith, past)) fresh in
        let read' = decode_token-run refresh_claims none (omega (arith, past')) fresh' in
        let (v, run) = active_user-run there active in
        let (tokens', x, issued, names) = issue_tokens-run k d v in
        rw (is_access_token, is_refresh_token)
          (
            ground (arith, read, run),
            ground (arith, read'),
            ground (arith, read),
            (tokens', ground (arith, read', run, issued), names),
          )
