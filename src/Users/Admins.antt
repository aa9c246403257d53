-- ===== src/Users/Admins.antt =====
-- The guard of the last administrator.
use entity_resolution_servic.Prelude.{
  arith, ℕ, leb, ◌≤◌, String, ◌≡◌, refl, sym, ap, subst, ◌∙◌, Bool, false, Bool-cases, Option-cases,
  inl, inr, Option, none, some, if◌then◌else◌, ◌&&◌, ◌||◌,
}
use entity_resolution_servic.Dict.{Dict, lookup, put, count, count-put}
use entity_resolution_servic.Effects.{ok, err, Action, pure, ◌>>=◌, ◌>>◌, last_admin}
use entity_resolution_servic.Effects.Keeps.{then_keeps, then_from, then_not}
use entity_resolution_servic.Users.{
  User, UserDocument, UserBackend, IsUserBackend, IsHealthy, from_document, to_document,
  is_active_admin, find_by_id, save, count_active_admins,
}
use entity_resolution_servic.Users.Management.{
  UserPatchRequest, UserResponse, patch_user, patch_found, guard_last_admin, apply_updates,
  has_updates, to_user_response, or_old, is_false, hashed,
}

module _ (b : UserBackend) (laws : IsUserBackend b) (healthy : IsHealthy b) where
  pub find_by_id-run :
      (id : String) (w : b.World)
      → (v : b.World) × (find_by_id b id w ≡ (
        ok (elim (lookup id (b.users w)) [ none ↦ none | some d ↦ some (from_document id d) ]),
        v,
      ))
        × (b.users v ≡ b.users w)
  unfolding find_by_id
  find_by_id-run id w = (
    (b.find_one id w).1,
    ground (arith, laws.find_reply id w, healthy.no_fault w),
    laws.find_users id w,
  )

  hashed-users :
      (p : Option String) (old : String) (w : b.World) → b.users (hashed b p old w).1 ≡ b.users w
  hashed-users none old w = refl
  hashed-users (some p) old w = laws.hash_users p w

  pub save-users :
      (u : User) (w : b.World)
      → ((save b u w).0 ≡ ok u) × (b.users (save b u w).1 ≡ put u.id (to_document u) (b.users w))
  unfolding save
  save-users u w = (
    ground (arith, laws.replace_reply u.id (to_document u) w, healthy.no_fault w),
    ground (
      arith,
      laws.replace_reply u.id (to_document u) w,
      healthy.no_fault w,
      laws.replace_users u.id (to_document u) w (healthy.no_fault w),
    ),
  )

  -- What a user becomes.
  abbrev IsPatched : User → UserPatchRequest → UserDocument → Type 0
  IsPatched u dto d =
      (d.email ≡ u.email)
      × ((d.is_active ≡ or_old dto.is_active u.is_active)
          × (d.is_superuser ≡ or_old dto.is_superuser u.is_superuser))

  pub apply_updates-users :
      (u : User) (dto : UserPatchRequest) (w : b.World)
      → (d : UserDocument) × IsPatched u dto d
        × (b.users (apply_updates b u dto w).1 ≡ put u.id d (b.users w))
  unfolding apply_updates
  apply_updates-users u dto w =
      let w1 = (hashed b dto.password u.hashed_password w).1 in
      (
        _,
        (refl, (refl, refl)),
        (save-users _ (b.now w1).1).1
            ∙ ap (put u.id _) (laws.now_users w1 ∙ hashed-users dto.password u.hashed_password w),
      )

  abbrev admins : b.World → ℕ
  admins w = count is_active_admin (b.users w)

  -- Whether the update takes the user out of the active administrators.
  abbrev demotes : User → UserPatchRequest → Bool
  demotes u dto =
      (is_false dto.is_active && u.is_active && u.is_superuser)
      || (is_false dto.is_superuser && u.is_superuser && u.is_active)

  guard_last_admin-run :
      (u : User) (dto : UserPatchRequest) (w : b.World)
      → (v : b.World) × (guard_last_admin b u dto w
          ≡ ((if demotes u dto && leb (admins w) 1 then err last_admin else ok tt), v))
        × (b.users v ≡ b.users w)
  unfolding guard_last_admin count_active_admins
  guard_last_admin-run u dto w = elim (Bool-cases (demotes u dto)) [
    | inr keeps ↦ (w, ground (arith, keeps), refl)
    | inl takes ↦ (
      (b.count_admins w).1,
      ground (arith, takes, laws.count_reply w, healthy.no_fault w),
      laws.count_users w,
    )
  ]

  patched_weight :
      (id : String) (d : UserDocument) (dto : UserPatchRequest) (d' : UserDocument)
      (s : Dict UserDocument)
      → lookup id s ≡ some d
      → IsPatched (from_document id d) dto d'
      → 1 ≤ count is_active_admin s
      → (demotes (from_document id d) dto && leb (count is_active_admin s) 1) ≡ false
      → 1 ≤ count is_active_admin (put id d' s)
  patched_weight id d dto d' s found patched some_admin allowed =
      ground (arith, count-put is_active_admin id d' s, found, patched, some_admin, allowed)

  patched_keeps :
      (id : String) (d : UserDocument) (dto : UserPatchRequest) (w : b.World)
      → lookup id (b.users w) ≡ some d
      → 1 ≤ admins w
      → 1
        ≤ admins
            ((do
              guard_last_admin b (from_document id d) dto
              saved ← apply_updates b (from_document id d) dto
              pure (to_user_response saved))
              w).1
  patched_keeps id d dto w found some_admin =
      let u = from_document id d in
      let (v, run, same) = guard_last_admin-run u dto w in
      let rest : Action b.World UserResponse =
        apply_updates b u dto >>= λ saved. pure (to_user_response saved) in
      elim (Bool-cases (demotes u dto && leb (admins w) 1)) [
        | inl refused ↦
            then_not (λ x. 1 ≤ admins x) (guard_last_admin b u dto) (λ x. rest) w v last_admin
              (run ∙ rw refused refl)
              (subst (λ s. 1 ≤ count is_active_admin s) (sym same) some_admin)
        | inr allowed ↦
            then_from (λ x. 1 ≤ admins x) (guard_last_admin b u dto) (λ x. rest) w v tt
              (run ∙ rw allowed refl)
              (then_keeps (λ x. 1 ≤ admins x) (apply_updates b u dto)
                (λ saved. pure (to_user_response saved)) v
                (let (d', patched, left) = apply_updates-users u dto v in
                  subst (λ s. 1 ≤ count is_active_admin s) (sym (left ∙ ap (put id d') same))
                    (patched_weight id d dto d' (b.users w) found patched some_admin allowed))
                (λ a x h. h))
      ]

  -- While no command fails and nobody else writes, an update of a user never leaves the
  -- service without an active administrator, whatever it answers.
  pub patch_user-HasAdmin :
      (user_id : String) (dto : UserPatchRequest) (w : b.World)
      → 1 ≤ count is_active_admin (b.users w)
      → 1 ≤ count is_active_admin (b.users (patch_user b user_id dto w).1)
  unfolding patch_user
  patch_user-HasAdmin user_id dto w some_admin =
      let (v, run, same) = find_by_id-run user_id w in
      let kept = subst (λ s. 1 ≤ count is_active_admin s) (sym same) some_admin in
      elim (Option-cases (lookup user_id (b.users w))) [
        | inl absent ↦
            then_from (λ x. 1 ≤ admins x) (find_by_id b user_id) (patch_found b user_id dto) w v
              none (run ∙ rw absent refl) kept
        | inr (d, found) ↦
            then_from (λ x. 1 ≤ admins x) (find_by_id b user_id) (patch_found b user_id dto) w v
              (some (from_document user_id d)) (run ∙ rw found refl)
              (elim (Bool-cases (has_updates dto)) [
                | inl changes ↦
                    rw changes
                      (patched_keeps user_id d dto v (ap (lookup user_id) same ∙ found) kept)
                | inr same_user ↦ rw same_user kept
              ])
      ]
