-- ===== src/Users/Emails.antt =====
-- No two users have one email.
use entity_resolution_servic.Prelude.{
  arith, String, ◌≡◌, ◌≢◌, refl, sym, ap, subst, ◌∙◌, Bool-cases, ◌⊎◌, inl, inr, Option, none, some,
  eq_iff, ◌==◌, string_eq,
}
use entity_resolution_servic.Dict.{Dict, lookup, put, lookup-put}
use entity_resolution_servic.Effects.{ok, Action, pure, ◌>>=◌, >>=-ok}
use entity_resolution_servic.Effects.Keeps.{then_keeps, then_from}
use entity_resolution_servic.Users.{
  User, UserDocument, UserBackend, IsUserBackend, IsHealthy, from_document, to_document, user_of,
  find_by_email, save,
}
use entity_resolution_servic.Users.Management.{
  CreateUserRequest, UserResponse, new_user, add_user, create_unless, create_user, to_user_response,
}
use entity_resolution_servic.Users.Auth.{registration, register_unless, register}
use entity_resolution_servic.Users.Admins.{save-users}

abbrev Apart : Dict UserDocument → Type 0
Apart s =
    (j k : String) (d d' : UserDocument)
    → lookup j s ≡ some d
    → lookup k s ≡ some d'
    → d.email ≡ d'.email
    → j ≡ k

-- Two documents with one email are one.
abbrev Differ : String → String → Option UserDocument → Option UserDocument → Type 0
Differ j k none _ = Unit
Differ j k (some d) none = Unit
Differ j k (some d) (some d') = (j ≡ k) ⊎ (d.email ≢ d'.email)

abbrev pub IsUnique : Dict UserDocument → Type 0
IsUnique s = (j k : String) → Differ j k (lookup j s) (lookup k s)

IsUnique-Apart : (s : Dict UserDocument) → Apart s → IsUnique s
IsUnique-Apart s apart j k = by_cases (lookup j s) (lookup k s) refl refl
  where
    by_cases : (o o' : Option UserDocument) → lookup j s ≡ o → lookup k s ≡ o' → Differ j k o o'
    by_cases none o' here there = tt
    by_cases (some d) none here there = tt
    by_cases (some d) (some d') here there = elim (Bool-cases (d.email == d'.email)) [
      | inl same ↦ inl (apart j k d d' here there (ground (arith, same, eq_iff d.email d'.email)))
      | inr other ↦ inr (λ same. ground (arith, same, other, eq_iff d.email d'.email))
    ]

Apart-IsUnique : (s : Dict UserDocument) → IsUnique s → Apart s
Apart-IsUnique s unique j k d d' here there same =
    let differ : Differ j k (some d) (some d') =
      subst (λ o. Differ j k o (some d')) here
        (subst (λ o. Differ j k (lookup j s) o) there (unique j k)) in
    elim differ [ inl at_k ↦ at_k | inr other ↦ absurd (other same) ]

-- A document takes the place of another, with an email that no other document has.
put-Apart :
    (s : Dict UserDocument) (id : String) (new : UserDocument)
    → Apart s
    → ((k : String) (d : UserDocument) → lookup k s ≡ some d → d.email ≡ new.email → k ≡ id)
    → Apart (put id new s)
put-Apart s id new unique alone j k d d' here there same = elim (Bool-cases (id == j)) [
  | inl at_j ↦ elim (Bool-cases (id == k)) [
    | inl at_k ↦ ground (arith, at_j, at_k, eq_iff id j, eq_iff id k)
    | inr not_k ↦
        let is_new : d ≡ new = ground (arith, lookup-put id j new s, here, at_j) in
        let k_id =
          alone k d' (ground (arith, lookup-put id k new s, there, not_k))
            (sym same ∙ ap (λ x. x.email) is_new) in
        ground (arith, at_j, eq_iff id j, k_id)
  ]
  | inr not_j ↦ elim (Bool-cases (id == k)) [
    | inl at_k ↦
        let is_new : d' ≡ new = ground (arith, lookup-put id k new s, there, at_k) in
        let j_id =
          alone j d (ground (arith, lookup-put id j new s, here, not_j))
            (same ∙ ap (λ x. x.email) is_new) in
        ground (arith, at_k, eq_iff id k, j_id)
    | inr not_k ↦
        unique j k d d' (ground (arith, lookup-put id j new s, here, not_j))
          (ground (arith, lookup-put id k new s, there, not_k)) same
  ]
]

module _ (b : UserBackend) (laws : IsUserBackend b) (healthy : IsHealthy b) where
  add_user-users :
      (dto : CreateUserRequest) (w : b.World)
      → (id : String) × (d : UserDocument) × (d.email ≡ dto.email)
        × (b.users (add_user b dto w).1 ≡ put id d (b.users w))
  unfolding add_user
  add_user-users dto w =
      let (id, w1) = b.uuid4 w in
      let (hashed_password, w2) = b.hash dto.password w1 in
      let (now, w3) = b.now w2 in
      let user = new_user b dto id hashed_password now in
      let same : b.users w3 ≡ b.users w =
        laws.now_users w2 ∙ laws.hash_users dto.password w1 ∙ laws.uuid4_users w in
      (
        id,
        to_document user,
        refl,
        then_keeps (λ x. b.users x ≡ put id (to_document user) (b.users w)) (save b user)
            (λ u. pure (to_user_response user)) w3
            ((save-users b laws healthy user w3).1 ∙ ap (put id (to_document user)) same)
            (λ a v h. h),
      )

  find_by_email-run :
      (email : String) (w : b.World)
      → (o : Option (String × UserDocument)) × (v : b.World) × ((b.find_one_email email w).0 ≡ ok o)
        × (find_by_email b email w ≡ (ok (user_of o), v))
        × (b.users v ≡ b.users w)
  unfolding find_by_email
  find_by_email-run email w =
      let (o, asked) = laws.email_answer email w (healthy.no_fault w) in
      (
        o,
        (b.find_one_email email w).1,
        asked,
        >>=-ok (b.find_one_email email) (λ doc. pure {W = b.World} (user_of doc)) w o asked,
        laws.email_users email w,
      )

  -- An addition that is made unless a user is found.
  module _ (dto : CreateUserRequest) (unless : Option User → Action b.World UserResponse)
      (refuses : (u : User) (v : b.World) → (unless (some u) v).1 ≡ v)
      (adds : unless none ≡ add_user b dto) (w : b.World) (unique : Apart (b.users w)) where
    unless-Apart :
        (o : Option (String × UserDocument)) (v : b.World)
        → (b.find_one_email dto.email w).0 ≡ ok o
        → b.users v ≡ b.users w
        → Apart (b.users (unless (user_of o) v).1)
    unless-Apart (some (k, d)) v asked same =
        subst Apart (sym (ap b.users (refuses (from_document k d) v) ∙ same)) unique
    unless-Apart none v asked same =
        let (id, d, has_email, left) = add_user-users dto v in
        subst (λ m. Apart (b.users (m v).1)) (sym adds)
          (subst Apart (sym (left ∙ ap (put id d) same)) (
            put-Apart (b.users w) id d unique (λ k d' there same_email.
              absurd (laws.email_none dto.email w k d' asked there (same_email ∙ has_email)))))

    added-Apart : Apart (b.users ((find_by_email b dto.email >>= unless) w).1)
    added-Apart =
        let (o, v, asked, run, same) = find_by_email-run dto.email w in
        then_from (λ x. Apart (b.users x)) (find_by_email b dto.email) unless w v (user_of o) run
          (unless-Apart o v asked same)

  -- While no command fails and nobody else writes, adding a user by either way keeps the emails
  -- distinct, whatever it answers.
  pub create_user-IsUnique :
      (dto : CreateUserRequest) (email password : String) (w : b.World)
      → IsUnique (b.users w)
      → IsUnique (b.users (create_user b dto w).1)
        × IsUnique (b.users (register b email password w).1)
  unfolding create_user register
  create_user-IsUnique dto email password w unique =
      let apart = Apart-IsUnique (b.users w) unique in
      (
        IsUnique-Apart _ (added-Apart dto (create_unless b dto) (λ u v. refl) refl w apart),
        IsUnique-Apart _ (
            added-Apart (registration b email password) (register_unless b email password)
              (λ u v. refl) refl w apart),
      )
