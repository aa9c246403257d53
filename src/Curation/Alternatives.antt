-- ===== src/Curation/Alternatives.antt =====
-- The pages of the alternatives of a decision, put together, are its alternatives.
use entity_resolution_servic.Prelude.{
  arith, ℕ, zero, suc, ◌+◌, ◌*◌, ◌-◌, ◌≤◌, ◌<◌, ltb, String, ◌≡◌, refl, sym, ap, ◌∙◌, inl, inr,
  Bool, Bool-cases, true, false, Option, none, some, List, [], ◌∷◌, ◌++◌, map, take, drop, length,
  if◌then◌else◌, not, ◌&&◌, ◌==◌, string_eq, subst,
}
use entity_resolution_servic.Prelude.Int.{ℤ, pos}
use entity_resolution_servic.Dict.{lookup}
use entity_resolution_servic.Domain.{ClusterReference, Decision}
use entity_resolution_servic.Effects.{ok, Action, pure, catch, ◌>>=◌, >>=-run}
use entity_resolution_servic.Backend.{Backend, IsBackend, IsHealthy, answer}
use entity_resolution_servic.Backend.Documents.{State, DecisionDocument, ResolutionRequestRecord}
use entity_resolution_servic.DecisionStore.Outcome.{from_document}
use entity_resolution_servic.DecisionStore.Repository.{find_by_id}
use entity_resolution_servic.DecisionStore.Upsert.{find_healthy}
use entity_resolution_servic.Registry.{triad_id}
use entity_resolution_servic.Curation.Ranking.{
  number, IsRanked, alternatives_of-IsRanked, number-alternatives_of, length-alternatives_of,
}
use entity_resolution_servic.Curation.Canonical.{
  PaginationParams, PaginatedResult, CanonicalEntityPreview, PreviewQueries, IsPreviewQueries,
  page_items, next_page, previous_page, alternatives_of, default_top_entities_limit,
  to_entity_mention_previews, size_of_document, get_size, build_cluster_preview, build_previews,
  page_of_alternatives, page_if_found, mongo_error, get_alternative_canonical_entities,
}

take-drop : {A : Type 0} (n : ℕ) (xs : List A) → take n xs ++ drop n xs ≡ xs
take-drop zero xs = refl
take-drop (suc n) [] = refl
take-drop (suc n) (x ∷ xs) = ap (λ r. x ∷ r) (take-drop n xs)

drop_nil : {A : Type 0} (n : ℕ) → drop {A = A} n [] ≡ []
drop_nil zero = refl
drop_nil (suc n) = refl

drop-drop : {A : Type 0} (m n : ℕ) (xs : List A) → drop n (drop m xs) ≡ drop (m + n) xs
drop-drop zero n xs = ap (λ k. drop k xs) (omega arith)
drop-drop (suc m) n [] = drop_nil n ∙ sym (drop_nil (suc m + n))
drop-drop {A} (suc m) n (x ∷ xs) =
    drop-drop m n xs ∙ ap (λ k. drop k (x ∷ xs)) {x = suc (m + n)} (omega arith)

drop_all : {A : Type 0} (n : ℕ) (xs : List A) → length xs ≤ n → drop n xs ≡ []
drop_all zero [] h = refl
drop_all zero (x ∷ xs) h = absurd (omega (arith, h))
drop_all (suc n) [] h = refl
drop_all (suc n) (x ∷ xs) h = drop_all n xs (omega (arith, h))

append_nil : {A : Type 0} (xs : List A) → xs ++ [] ≡ xs
append_nil [] = refl
append_nil (x ∷ xs) = ap (λ r. x ∷ r) (append_nil xs)

before : (n : ℕ) → suc n - 1 ≡ n
before n = omega arith

times_suc : (m n : ℕ) → suc m * n ≡ m * n + n
times_suc m n = omega arith

map-append : {A B : Type 0} (f : A → B) (xs ys : List A) → map f (xs ++ ys) ≡ map f xs ++ map f ys
map-append f [] ys = refl
map-append f (x ∷ xs) ys = ap (λ r. f x ∷ r) (map-append f xs ys)

-- A page and what comes after it.
page_and_rest :
    {A : Type 0} (m n : ℕ) (xs : List A) → take n (drop m xs) ++ drop (m + n) xs ≡ drop m xs
page_and_rest m n xs =
    ap (λ r. take n (drop m xs) ++ r) (sym (drop-drop m n xs)) ∙ take-drop n (drop m xs)

-- The reference that a preview shows.
abbrev pub reference_of : CanonicalEntityPreview → ClusterReference
reference_of p = record {
  cluster_id = p.cluster_id;
  confidence_score = p.confidence_score;
  similarity_score = p.similarity_score;
}

-- A page, and the pages from the next one on.
abbrev followed : {W A : Type 0} → (ℕ → Action W (List A)) → List A → Option ℕ → Action W (List A)
followed read results none = pure results
followed read results (some next) = read next >>= λ rest. pure (results ++ rest)

module _ (b : Backend) (q : PreviewQueries b) (has_index : Bool) (decision_id : String)
    (per_page : ℕ) where
  open b use {World, state}

  abbrev params : ℕ → PaginationParams
  params page = record { page = page; per_page = per_page }

  -- A client that follows `next`, with a bound on its requests.
  unfoldable pub read_alternatives : ℕ → ℕ → Action World (List CanonicalEntityPreview)
  read_alternatives zero page = pure []
  read_alternatives (suc fuel) page = do
    r ← get_alternative_canonical_entities b q has_index decision_id (params page)
    followed (read_alternatives fuel) r.results r.next

  module _ (laws : IsBackend b) (healthy : IsHealthy b) (documented : IsPreviewQueries b q) where
    -- A command that answers, from what it replies.
    replied :
        {A : Type 0} (m : Action World A) (w : World) (a : A)
        → (m w).0 ≡ ok a
        → m w ≡ (ok a, (m w).1)
    replied m w a h = ap (λ r. (r, (m w).1)) h

    get_size-run :
        (c : String) (w : World)
        → (n : ℤ) × ((v : World) × ((get_size b q has_index c w ≡ (ok n, v)) × (state v ≡ state w)))
    unfolding get_size
    get_size-run c w =
        let found = lookup c (state w).cluster_sizes in
        let v = (q.find_size c w).1 in
        (
          size_of_document found,
          (
            v,
            (
              >>=-run (q.find_size c) (λ d. pure (size_of_document d)) w v found
                  (replied (q.find_size c) w found
                    (documented.size_reply c w ∙ ap (λ f. answer f found) (healthy.no_fault w))),
              documented.size_state c w,
            ),
          ),
        )

    -- The size of a preview, if there is an index.
    sized_run :
        (c : String) (w : World)
        → (n : ℤ) × ((v : World) × (((if has_index then get_size b q has_index c else pure (pos 0))
                  w
                ≡ (ok n, v))
              × (state v ≡ state w)))
    sized_run c w = by_index has_index
      where
        by_index :
            (has : Bool)
            → (n : ℤ) × ((v : World) × (((if has then get_size b q has_index c else pure (pos 0)) w
                    ≡ (ok n, v))
                  × (state v ≡ state w)))
        by_index true = get_size-run c w
        by_index false = (pos 0, (w, (refl, refl)))

    build_cluster_preview-run :
        (c : ClusterReference) (w : World)
        → (p : CanonicalEntityPreview) × ((v : World) × ((build_cluster_preview b q has_index c w
                ≡ (ok p, v))
              × ((reference_of p ≡ c) × (state v ≡ state w))))
    unfolding build_cluster_preview
    build_cluster_preview-run c w =
        let limit = default_top_entities_limit in
        let (ids, e1) = documented.mentions_reply c.cluster_id limit w (healthy.no_fault w) in
        let w1 = (q.find_mentions_of c.cluster_id limit w).1 in
        let (rs, e2) =
          documented.requests_reply (map triad_id ids) limit w1 (healthy.no_fault w1) in
        let w2 = (q.find_requests (map triad_id ids) limit w1).1 in
        let (n, (v, (e3, s3))) = sized_run c.cluster_id w2 in
        let shown : List ResolutionRequestRecord → ℤ → CanonicalEntityPreview = λ records size.
          record {
            cluster_id = c.cluster_id;
            confidence_score = c.confidence_score;
            similarity_score = c.similarity_score;
            cluster_size = size;
            top_entities = to_entity_mention_previews records;
          } in
        let sized = if has_index then get_size b q has_index c.cluster_id else pure (pos 0) in
        (
          shown rs n,
          (
            v,
            (
              >>=-run (q.find_mentions_of c.cluster_id limit)
                    (λ m. q.find_requests (map triad_id m) limit >>= λ r.
                      sized >>= λ z. pure (shown r z))
                    w w1 ids (replied (q.find_mentions_of c.cluster_id limit) w ids e1)
                  ∙ >>=-run (q.find_requests (map triad_id ids) limit)
                      (λ r. sized >>= λ z. pure (shown r z)) w1 w2 rs
                      (replied (q.find_requests (map triad_id ids) limit) w1 rs e2)
                  ∙ >>=-run sized (λ z. pure (shown rs z)) w2 v n e3,
              (
                refl,
                s3
                    ∙ documented.requests_state (map triad_id ids) limit w1
                    ∙ documented.mentions_state c.cluster_id limit w,
              ),
            ),
          ),
        )

    build_previews-run :
        (cs : List ClusterReference) (w : World)
        → (ps : List CanonicalEntityPreview) × ((v : World) × ((build_previews b q has_index cs w
                ≡ (ok ps, v))
              × ((map reference_of ps ≡ cs) × (state v ≡ state w))))
    unfolding build_previews
    build_previews-run [] w = ([], (w, (refl, (refl, refl))))
    build_previews-run (c ∷ cs) w =
        let (p, (v, (e, (here, s)))) = build_cluster_preview-run c w in
        let (ps, (u, (es, (rest, s')))) = build_previews-run cs v in
        let later = build_previews b q has_index cs in
        (
          p ∷ ps,
          (
            u,
            (
              >>=-run (build_cluster_preview b q has_index c) (λ x. later >>= λ xs. pure (x ∷ xs)) w
                    v p e
                  ∙ >>=-run later (λ xs. pure (p ∷ xs)) v u ps es,
              (ap (λ x. x ∷ map reference_of ps) here ∙ ap (λ xs. c ∷ xs) rest, s' ∙ s),
            ),
          ),
        )

    module _ (doc : DecisionDocument) where
      abbrev decision : Decision
      decision = from_document decision_id doc

      abbrev IsFound : State → Type 0
      IsFound s = lookup decision_id s.decisions ≡ some doc

      -- A page of the alternatives.
      page_run :
          (page : ℕ) (w : World)
          → IsFound (state w)
          → (r : PaginatedResult CanonicalEntityPreview) × ((v : World)
              × ((get_alternative_canonical_entities b q has_index decision_id (params page) w
                    ≡ (ok r, v))
                  × ((r.next ≡ next_page (params page) (length (alternatives_of decision)))
                      × ((map reference_of r.results
                            ≡ page_items (params page) (alternatives_of decision))
                          × (state v ≡ state w)))))
      unfolding get_alternative_canonical_entities page_of_alternatives find_by_id
      page_run page w present =
          let p = params page in
          let all = alternatives_of decision in
          let w1 = (b.find_decision decision_id w).1 in
          let (ps, (v, (e, (refs, s)))) = build_previews-run (page_items p all) w1 in
          let read : find_by_id b decision_id w ≡ (ok (some decision), w1) =
            ground (arith, present, find_healthy b laws healthy decision_id w) in
          let shown : List CanonicalEntityPreview → PaginatedResult CanonicalEntityPreview =
            λ previews. record {
              count = length all;
              previous = previous_page p;
              next = next_page p (length all);
              results = previews;
            } in
          let body =
            >>=-run (find_by_id b decision_id) (page_if_found b q has_index decision_id p) w w1
              (some decision) read
            ∙ >>=-run (build_previews b q has_index (page_items p all)) (λ x. pure (shown x)) w1 v
                ps e in
          (
            shown ps,
            (
              v,
              (
                ap (λ x. catch (λ _. x) mongo_error w) body,
                (refl, (refs, s ∙ laws.find_state decision_id w)),
              ),
            ),
          )

      abbrev all : List ClusterReference
      all = alternatives_of decision

      -- The first request of a client.
      first_page :
          (fuel page : ℕ) (w v : World) (r : PaginatedResult CanonicalEntityPreview)
          → get_alternative_canonical_entities b q has_index decision_id (params (suc page)) w
            ≡ (ok r, v)
          → read_alternatives (suc fuel) (suc page) w
            ≡ followed (read_alternatives fuel) r.results r.next v
      unfolding read_alternatives
      first_page fuel page w v r e =
          >>=-run (get_alternative_canonical_entities b q has_index decision_id (params (suc page)))
            (λ x. followed (read_alternatives fuel) x.results x.next) w v r e

      pages_run :
          (fuel page : ℕ) (w : World)
          → IsFound (state w)
          → 1 ≤ per_page
          → length all < page * per_page + fuel
          → (ps : List CanonicalEntityPreview) × ((v : World) × ((read_alternatives fuel
                    (suc page)
                    w
                  ≡ (ok ps, v))
                × ((map reference_of ps ≡ drop (page * per_page) all) × (state v ≡ state w))))
      unfolding read_alternatives
      pages_run zero page w present some_items few =
          ([], (w, (refl, (sym (drop_all (page * per_page) all (omega (arith, few))), refl))))
      pages_run (suc fuel) page w present some_items few =
          let (r, (v, (e, (at_next, (shown, s))))) = page_run (suc page) w present in
          let at =
            at_next
            ∙ ap
                (λ k.
                  if ltb (k * per_page + per_page) (length all) then some (suc page + 1) else none)
                (before page) in
          let refs = shown ∙ ap (λ k. take per_page (drop (k * per_page) all)) (before page) in
          let request =
            get_alternative_canonical_entities b q has_index decision_id (params (suc page)) in
          let next : Option ℕ → Action World (List CanonicalEntityPreview) =
            followed (read_alternatives fuel) r.results in
          let after : Bool → Option ℕ = λ x. if x then some (suc page + 1) else none in
          let m = page * per_page in
          let run : (x : Bool)
              → ltb (m + per_page) (length all) ≡ x
              → read_alternatives (suc fuel) (suc page) w ≡ next (after x) v =
            λ x h. first_page fuel page w v r e ∙ ap (λ o. next o v) (at ∙ ap after h) in
          elim (Bool-cases (ltb (m + per_page) (length all))) [
            | inl more ↦
                let there : IsFound (state v) =
                  ap (λ x. lookup decision_id x.decisions) s ∙ present in
                let (ps, (u, (es, (rest, s')))) =
                  pages_run fuel (suc page) v there some_items
                    (omega (arith, few, some_items, times_suc page per_page)) in
                (
                  r.results ++ ps,
                  (
                    u,
                    (
                      run true more
                          ∙ ap (λ n. next (some n) v) {x = suc page + 1} {y = suc (suc page)}
                              (omega arith)
                          ∙ >>=-run (read_alternatives fuel (suc (suc page)))
                              (λ xs. pure (r.results ++ xs)) v u ps es,
                      (
                        map-append reference_of r.results ps
                            ∙ ap (λ x. x ++ map reference_of ps) refs
                            ∙ ap (λ x. take per_page (drop m all) ++ x)
                                (rest ∙ ap (λ k. drop k all) (times_suc page per_page))
                            ∙ page_and_rest m per_page all,
                        s' ∙ s,
                      ),
                    ),
                  ),
                )
            | inr last ↦ (
              r.results,
              (
                v,
                (
                  run false last,
                  (
                    refs
                        ∙ sym (append_nil (take per_page (drop m all)))
                        ∙ ap (λ x. take per_page (drop m all) ++ x)
                            (sym (drop_all (m + per_page) all (ground (arith, last))))
                        ∙ page_and_rest m per_page all,
                    s,
                  ),
                ),
              ),
            )
          ]

      -- While no command on MongoDB fails and a decision is stored, a client that asks for the first
      -- page of its alternatives and follows `next`, with more requests at hand than the decision has
      -- candidates, reads references of which none is more confident than one before it, each as often
      -- as it is among the candidates if it names another cluster than the current placement, and else
      -- not at all; the store is left as it was.
      pub read_alternatives-IsRanked :
          (fuel : ℕ) (w : World)
          → lookup decision_id (state w).decisions ≡ some doc
          → 1 ≤ per_page
          → length doc.candidates < fuel
          → (ps : List CanonicalEntityPreview) × ((v : World) × ((read_alternatives fuel 1 w
                  ≡ (ok ps, v))
                × (IsRanked (map reference_of ps)
                    × (((p : ClusterReference → Bool)
                          → number p (map reference_of ps)
                            ≡ number
                                (λ c. p c && not (c.cluster_id == doc.current_placement.cluster_id))
                                doc.candidates)
                        × (state v ≡ state w)))))
      read_alternatives-IsRanked fuel w present some_items few =
          let (ps, (v, (e, (refs, s)))) =
            pages_run fuel 0 w present some_items
              (omega (arith, length-alternatives_of decision fuel few)) in
          let same : map reference_of ps ≡ all =
            refs ∙ ap (λ k. drop k all) {x = 0 * per_page} {y = 0} (omega arith) in
          (
            ps,
            (
              v,
              (
                e,
                (
                  subst IsRanked (sym same) (alternatives_of-IsRanked decision),
                  ((λ p. ap (number p) same ∙ number-alternatives_of decision p), s),
                ),
              ),
            ),
          )
