-- ===== src/Application/Observations/Sequence.antt =====
-- The observations of a run are numbered without a gap, and found by their identities.
use journey_map.Prelude.{
  ℕ, ◌+◌, ◌≤◌, String, ◌≡◌, refl, ◌∙◌, inl, inr, true, false, ◌||◌, some, List, [], ◌∷◌, ◌++◌, ◌==◌,
  ◌==ℕ◌, length, arith, All, All-map, All-append, All-both, Bool-cases, eq_iff, eq_refl,
}
use journey_map.Prelude.Int.{ℤ, pos, is_nonpositive}
use journey_map.Prelude.Exec.{ok, value_error, raise_if, >>=-eq-ok, ok-injective, Result-cases}
use journey_map.Prelude.State.{◌>>=◌, continue}
use journey_map.Prelude.Dict.{lookup, insert, lookup-insert}
use journey_map.Json.{JsonObject, clone_json_object, state_digest}
use journey_map.Core.Ids.{scoped_id}
use journey_map.Core.Ids.Unique.{scoped_id-injective}
use journey_map.Core.Observations.{PerceptionContext, Observation, make_observation, scope}
use journey_map.Application.Observations.{ObservationPipeline, assemble}
use journey_map.Application.Observations.History.{
  ObservationHistory, set_building, build, store, generate, find,
}

-- The observations of run `run_id`, numbered from `n`.
abbrev pub IsNumbered : String → ℕ → List Observation → Type 0
IsNumbered run_id n [] = Unit
IsNumbered run_id n (o ∷ os) =
    (o.run_id ≡ run_id)
    × (o.observation_sequence ≡ n)
    × (o.observation_id ≡ scoped_id run_id ":observation:" n)
    × IsNumbered run_id (n + 1) os

pub record IsHistory (h : ObservationHistory) : Type 0 where
  pub numbered : IsNumbered h.run_id 1 h.records
  pub found : All (λ o. find o.observation_id h ≡ some o) h.records

IsNumbered-append :
    (run_id : String) (n m : ℕ) (os : List Observation) (o : Observation)
    → IsNumbered run_id n os
    → m ≡ n + length os
    → o.run_id ≡ run_id
    → o.observation_sequence ≡ m
    → o.observation_id ≡ scoped_id run_id ":observation:" m
    → IsNumbered run_id n (os ++ o ∷ [])
IsNumbered-append run_id n m [] o h at_end run number name =
    let same : m ≡ n = omega (arith, at_end) in (run, number ∙ same, rw (← same) name, tt)
IsNumbered-append run_id n m (p ∷ os) o h at_end run number name = (
  h.0,
  h.1,
  h.2,
  IsNumbered-append run_id (n + 1) m os o h.3 (omega (arith, at_end)) run number name,
)

-- A number after those of the observations gives an identity that is not among theirs.
IsNumbered-new :
    (run_id : String) (n m : ℕ) (os : List Observation)
    → IsNumbered run_id n os
    → n + length os ≤ m
    → All (λ o. (scoped_id run_id ":observation:" m == o.observation_id) ≡ false) os
IsNumbered-new run_id n m [] h after_all = tt
IsNumbered-new run_id n m (o ∷ os) h after_all = (
  elim (Bool-cases (scoped_id run_id ":observation:" m == o.observation_id)) [
    | inl same ↦
        let equal = (eq_iff (scoped_id run_id ":observation:" m) o.observation_id).0 same ∙ h.2 in
        let number = scoped_id-injective run_id ":observation:" m n equal in
        absurd (omega (arith, number, after_all))
    | inr other ↦ other
  ],
  IsNumbered-new run_id (n + 1) m os h.3 (omega (arith, after_all)),
)

make_observation-fields :
    (sha256 : JsonObject → String) (run_id actor_id : String) (sequence time : ℕ)
    (content : JsonObject) (version : ℤ) (o : Observation)
    → make_observation sha256 run_id actor_id sequence time content version ≡ ok o
    → (o.run_id ≡ run_id)
      × (o.observation_sequence ≡ sequence)
      × (o.observation_id ≡ scoped_id run_id ":observation:" sequence)
unfolding make_observation
make_observation-fields sha256 run_id actor_id sequence time content version o h =
    let (_, _, h₁) = >>=-eq-ok (scope run_id actor_id) _ h in
    let (_, _, h₂) =
      >>=-eq-ok (raise_if (sequence ==ℕ 0 || is_nonpositive version) value_error) _ h₁ in
    let (copied, _, h₃) = >>=-eq-ok (clone_json_object content) _ h₂ in
    let (digest, _, h₄) = >>=-eq-ok (state_digest sha256 copied) _ h₃ in
    rw (← ok-injective h₄) (refl, refl, refl)

store-IsHistory :
    (o : Observation) (h : ObservationHistory)
    → IsHistory h
    → o.run_id ≡ h.run_id
    → o.observation_sequence ≡ length h.records + 1
    → o.observation_id ≡ scoped_id h.run_id ":observation:" (length h.records + 1)
    → IsHistory (store o h).1
unfolding store find
store-IsHistory o h i run number name =
    let new = IsNumbered-new h.run_id 1 (length h.records + 1) h.records i.numbered (omega arith) in
    let both =
      All-both
        (λ p.
          (scoped_id h.run_id ":observation:" (length h.records + 1) == p.observation_id) ≡ false)
        (λ p. lookup p.observation_id h.by_id ≡ some p) h.records new i.found in
    record {
      numbered =
          IsNumbered-append h.run_id 1 (length h.records + 1) h.records o i.numbered (omega arith)
            run number name;
      found =
          All-append (λ p. lookup p.observation_id (insert o.observation_id o h.by_id) ≡ some p)
            h.records (o ∷ [])
            (All-map
              (λ p q.
                lookup-insert o.observation_id p.observation_id o h.by_id ∙ rw (name, q.0) q.1)
              h.records both)
            (
              lookup-insert o.observation_id o.observation_id o h.by_id
                  ∙ rw (eq_refl o.observation_id) refl,
              tt,
            );
    }

module _ (sha256 : JsonObject → String) (canonical_bytes : JsonObject → ℕ) where
  build-fields :
      (context : PerceptionContext) (pipeline : ObservationPipeline) (h : ObservationHistory)
      (o : Observation)
      → build sha256 canonical_bytes context pipeline h ≡ ok o
      → (o.run_id ≡ context.run_id)
        × (o.observation_sequence ≡ length h.records + 1)
        × (o.observation_id ≡ scoped_id context.run_id ":observation:" (length h.records + 1))
  unfolding build
  build-fields context pipeline h o e =
      let (content, _, e₁) = >>=-eq-ok (assemble canonical_bytes context pipeline) _ e in
      make_observation-fields sha256 context.run_id context.actor_id (length h.records + 1)
        context.simulation_time content (pos 1) o e₁

  -- A history stays one through every call of `generate`, whether it gives an observation or
  -- raises: its records are of the run, numbered from one without a gap under the identities that
  -- follow from the numbers, and each is found under its own.
  pub generate-IsHistory :
      (context : PerceptionContext) (pipeline : ObservationPipeline) (h : ObservationHistory)
      → IsHistory h
      → IsHistory (generate sha256 canonical_bytes context pipeline h).1
  unfolding generate ◌>>=◌ find
  generate-IsHistory context pipeline h i = elim (Bool-cases (context.run_id == h.run_id)) [
    | inr foreign_run ↦ rw (foreign_run, continue) i
    | inl run ↦ elim (Bool-cases h.building) [
      | inl nested ↦ rw (run, continue, nested) (record { numbered = i.numbered; found = i.found })
      | inr free ↦
          let started : IsHistory (set_building true h) = record {
            numbered = i.numbered;
            found = i.found;
          } in
          elim (Result-cases
            (build sha256 canonical_bytes context pipeline (set_building true h))) [
              | inr (e, bad) ↦
                  rw (run, continue, free, bad) (record { numbered = i.numbered; found = i.found })
              | inl (o, made) ↦
                  let (own, number, name) =
                    build-fields context pipeline (set_building true h) o made in
                  let same = (eq_iff context.run_id h.run_id).0 run in
                  let s =
                    store-IsHistory o (set_building true h) started (own ∙ same) number
                      (rw same at name) in
                  rw (run, continue, free, made) (record { numbered = s.numbered; found = s.found })
            ]
    ]
  ]
