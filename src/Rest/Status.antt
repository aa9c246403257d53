-- ===== src/Rest/Status.antt =====
-- The status code of a bulk resolution says whether all its results are canonical, or provisional.
use entity_resolution_servic.Prelude.{
  arith, ℕ, leb, ◌≤◌, ◌≡◌, refl, sym, ap, ◌∙◌, subst, ◌⊎◌, inl, inr, ◌↔◌, Bool, true, false,
  Bool-cases, Option, none, some, List, [], ◌∷◌, length, All, if◌then◌else◌, ◌||◌,
}
use entity_resolution_servic.Coordinator.{ResolutionOutcome, canonical, provisional}
use entity_resolution_servic.Rest.Messages.{
  EntityMentionResolutionResult, has_success_xor_error, is_present,
}
use entity_resolution_servic.Rest.Resolve.{
  same_status, add_status, statuses, has_errors, is_provisional, bulk_status_code,
}

abbrev Outcome : Type 0
Outcome = Option ResolutionOutcome

same_status_eq : (s s' : Outcome) → same_status s s' ≡ true → s ≡ s'
same_status_eq none none h = refl
same_status_eq (some canonical) (some canonical) h = refl
same_status_eq (some provisional) (some provisional) h = refl
same_status_eq none (some o) h = cc h
same_status_eq (some canonical) none h = cc h
same_status_eq (some provisional) none h = cc h
same_status_eq (some canonical) (some provisional) h = cc h
same_status_eq (some provisional) (some canonical) h = cc h

same_status_refl : (s : Outcome) → same_status s s ≡ true
same_status_refl none = refl
same_status_refl (some canonical) = refl
same_status_refl (some provisional) = refl

-- A result with this status.
abbrev HasStatus : Outcome → EntityMentionResolutionResult → Type 0
HasStatus s r = r.status ≡ s

add_status_same : (s s' : Outcome) → same_status s s' ≡ true → add_status s (s' ∷ []) ≡ s' ∷ []
add_status_same s s' h = rw h refl

add_status_new : (s s' : Outcome) → same_status s s' ≡ false → add_status s (s' ∷ []) ≡ s ∷ s' ∷ []
add_status_new s s' h = rw h refl

length-add_status : (s : Outcome) (ss : List Outcome) → length ss ≤ length (add_status s ss)
length-add_status s ss = ground arith

statuses_uniform :
    (s : Outcome) (r : EntityMentionResolutionResult) (rs : List EntityMentionResolutionResult)
    → All (HasStatus s) (r ∷ rs)
    → statuses (r ∷ rs) ≡ s ∷ []
statuses_uniform s r [] (h, hs) = ap (λ x. x ∷ []) h
statuses_uniform s r (r' ∷ rs) (h, hs) =
    ap (add_status r.status) (statuses_uniform s r' rs hs)
    ∙ add_status_same r.status s (ap (λ x. same_status x s) h ∙ same_status_refl s)

-- The statuses of some results are one, or several.
statuses-cases :
    (r : EntityMentionResolutionResult) (rs : List EntityMentionResolutionResult)
    → ((s : Outcome) × ((statuses (r ∷ rs) ≡ s ∷ []) × All (HasStatus s) (r ∷ rs)))
      ⊎ (2 ≤ length (statuses (r ∷ rs)))
statuses-cases r [] = inl (r.status, (refl, (refl, tt)))
statuses-cases r (r' ∷ rs) = elim (statuses-cases r' rs) [
  | inl (s, (e, all)) ↦ elim (Bool-cases (same_status r.status s)) [
    | inl same ↦ inl (
      s,
      (
        ap (add_status r.status) e ∙ add_status_same r.status s same,
        (same_status_eq r.status s same, all),
      ),
    )
    | inr new ↦ inr (
        subst (λ ss. 2 ≤ length ss)
          (sym (ap (add_status r.status) e ∙ add_status_new r.status s new)) (omega arith))
  ]
  | inr several ↦ inr (omega (arith, several, length-add_status r.status (statuses (r' ∷ rs))))
]

abbrev HasNoError : EntityMentionResolutionResult → Type 0
HasNoError r = is_present r.error ≡ false

has_errors-cases :
    (rs : List EntityMentionResolutionResult)
    → (has_errors rs ≡ true) ⊎ ((has_errors rs ≡ false) × All HasNoError rs)
has_errors-cases [] = inr (refl, tt)
has_errors-cases (r ∷ rs) = elim (Bool-cases (is_present r.error)) [
  | inl error ↦ inl (ground (arith, error))
  | inr absent ↦ elim (has_errors-cases rs) [
    | inl errors ↦ inl (ground (arith, absent, errors))
    | inr (h, all) ↦ inr (ground (arith, absent, h), (absent, all))
  ]
]

All-HasNoError :
    (rs : List EntityMentionResolutionResult) → All HasNoError rs → has_errors rs ≡ false
All-HasNoError [] h = refl
All-HasNoError (r ∷ rs) (h, hs) = ground (arith, h, All-HasNoError rs hs)

-- A result without an error and with this outcome.
abbrev pub IsDone : ResolutionOutcome → EntityMentionResolutionResult → Type 0
IsDone o r = (r.status ≡ some o) × (is_present r.error ≡ false)

IsDone-split :
    (o : ResolutionOutcome) (rs : List EntityMentionResolutionResult)
    → All (IsDone o) rs
    → All (HasStatus (some o)) rs × All HasNoError rs
IsDone-split o [] h = (tt, tt)
IsDone-split o (r ∷ rs) ((s, e), hs) = let (ss, es) = IsDone-split o rs hs in ((s, ss), (e, es))

IsDone-join :
    (o : ResolutionOutcome) (rs : List EntityMentionResolutionResult)
    → All (HasStatus (some o)) rs
    → All HasNoError rs
    → All (IsDone o) rs
IsDone-join o [] h k = tt
IsDone-join o (r ∷ rs) (s, ss) (e, es) = ((s, e), IsDone-join o rs ss es)

abbrev code_of : Bool → List Outcome → ℕ
code_of errors ss =
    if errors || leb 2 (length ss) then 207 else if is_provisional ss then 202 else 200

-- The code of a batch that is all canonical, or all provisional.
abbrev done_code : ResolutionOutcome → ℕ
done_code canonical = 200
done_code provisional = 202

bulk_status_code_done :
    (o : ResolutionOutcome) (r : EntityMentionResolutionResult)
    (rs : List EntityMentionResolutionResult)
    → All (IsDone o) (r ∷ rs)
    → bulk_status_code (r ∷ rs) ≡ done_code o
unfolding bulk_status_code
bulk_status_code_done o r rs h =
    let (ss, es) = IsDone-split o (r ∷ rs) h in
    by_status o (statuses (r ∷ rs)) (statuses_uniform (some o) r rs ss) (has_errors (r ∷ rs))
      (All-HasNoError (r ∷ rs) es)
  where
    by_status :
        (o : ResolutionOutcome) (ss : List Outcome)
        → ss ≡ some o ∷ []
        → (errors : Bool) → errors ≡ false
        → code_of errors ss ≡ done_code o
    by_status canonical ss e errors h = rw (e, h) refl
    by_status provisional ss e errors h = rw (e, h) refl

abbrev Verdict : ℕ → List EntityMentionResolutionResult → Type 0
Verdict code rs =
    ((code ≡ 200) × All (IsDone canonical) rs)
    ⊎ (((code ≡ 202) × All (IsDone provisional) rs) ⊎ (code ≡ 207))

valid_status :
    (r : EntityMentionResolutionResult)
    → has_success_xor_error r ≡ true
    → is_present r.error ≡ false
    → is_present r.status ≡ true
valid_status r h k = ground (arith, h, k)

bulk_status_code-Verdict :
    (r : EntityMentionResolutionResult) (rs : List EntityMentionResolutionResult)
    → has_success_xor_error r ≡ true
    → Verdict (bulk_status_code (r ∷ rs)) (r ∷ rs)
unfolding bulk_status_code
bulk_status_code-Verdict r rs valid = elim (has_errors-cases (r ∷ rs)) [
  | inl errors ↦ inr (inr (ap (λ e. code_of e (statuses (r ∷ rs))) errors))
  | inr (e, es) ↦ elim (statuses-cases r rs) [
    | inr several ↦ inr (inr (ground (arith, several)))
    | inl (s, (one, ss)) ↦ of_one s (ap (λ x. code_of (has_errors (r ∷ rs)) x) one) e ss es
  ]
]
  where
    of_one :
        (s : Outcome)
        → bulk_status_code (r ∷ rs) ≡ code_of (has_errors (r ∷ rs)) (s ∷ [])
        → has_errors (r ∷ rs) ≡ false
        → All (HasStatus s) (r ∷ rs)
        → All HasNoError (r ∷ rs)
        → Verdict (bulk_status_code (r ∷ rs)) (r ∷ rs)
    of_one none same e (h, hs) (k, ks) = absurd (ground (arith, h, valid_status r valid k))
    of_one (some canonical) same e ss es =
        inl
          (same ∙ ap (λ x. code_of x (some canonical ∷ [])) e, IsDone-join canonical (r ∷ rs) ss es)
    of_one (some provisional) same e ss es = inr (
        inl (
          same ∙ ap (λ x. code_of x (some provisional ∷ [])) e,
          IsDone-join provisional (r ∷ rs) ss es,
        ))

-- For the valid results of a batch: the code is 200 exactly if all are canonical, 202 exactly if all
-- are provisional, and 207 otherwise.
pub bulk_status_code-IsDone :
    (r : EntityMentionResolutionResult) (rs : List EntityMentionResolutionResult)
    → All (λ x. has_success_xor_error x ≡ true) (r ∷ rs)
    → ((bulk_status_code (r ∷ rs) ≡ 200) ↔ All (IsDone canonical) (r ∷ rs))
      × ((bulk_status_code (r ∷ rs) ≡ 202) ↔ All (IsDone provisional) (r ∷ rs))
      × ((bulk_status_code (r ∷ rs) ≡ 200)
          ⊎ ((bulk_status_code (r ∷ rs) ≡ 202) ⊎ (bulk_status_code (r ∷ rs) ≡ 207)))
bulk_status_code-IsDone r rs (valid, _) = from_verdict (bulk_status_code-Verdict r rs valid)
  where
    from_verdict :
        Verdict (bulk_status_code (r ∷ rs)) (r ∷ rs)
        → ((bulk_status_code (r ∷ rs) ≡ 200) ↔ All (IsDone canonical) (r ∷ rs))
          × ((bulk_status_code (r ∷ rs) ≡ 202) ↔ All (IsDone provisional) (r ∷ rs))
          × ((bulk_status_code (r ∷ rs) ≡ 200)
              ⊎ ((bulk_status_code (r ∷ rs) ≡ 202) ⊎ (bulk_status_code (r ∷ rs) ≡ 207)))
    from_verdict (inl (c, all)) = (
      (λ h. all, bulk_status_code_done canonical r rs),
      (λ h. absurd (omega (arith, c, h)), bulk_status_code_done provisional r rs),
      inl c,
    )
    from_verdict (inr (inl (c, all))) = (
      (λ h. absurd (omega (arith, c, h)), bulk_status_code_done canonical r rs),
      (λ h. all, bulk_status_code_done provisional r rs),
      inr (inl c),
    )
    from_verdict (inr (inr c)) = (
      (λ h. absurd (omega (arith, c, h)), bulk_status_code_done canonical r rs),
      (λ h. absurd (omega (arith, c, h)), bulk_status_code_done provisional r rs),
      inr (inr c),
    )
