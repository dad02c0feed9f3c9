-- ===== src/Application/Session/Counting.antt =====
-- How an attempt changes the count of inputs and the requests.
use journey_map.Prelude.{
  ◌+◌, ◌≤◌, String, ◌≡◌, ◌≢◌, ◌⊎◌, refl, sym, ap, ◌∙◌, inl, inr, Bool, true, false, ◌&&◌, some,
  List, [], ◌∷◌, ◌++◌, ◌==◌, arith, if◌then◌else◌, Bool-cases, eq_iff, eq_refl,
}
use journey_map.Prelude.Dict.{Dict, insert, erase, contains, lookup-insert, lookup-erase}
use journey_map.Application.Session.{ActionTrace, RequestEntry, SimulationApplication}
use journey_map.Application.Session.Submit.{last_of}
use journey_map.Application.Session.Once.{
  is_input, engine_count, engine_count-append, IsOnce, Keeps, Settles,
}

pub last_of-append : (ts : List ActionTrace) (t : ActionTrace) → last_of (ts ++ t ∷ []) ≡ some t
last_of-append [] t = refl
last_of-append (u ∷ []) t = refl
last_of-append (u ∷ v ∷ ts) t = last_of-append (v ∷ ts) t

module _ {V : Type 0} where
  pub contains-insert :
      (k j : String) (v : V) (d : Dict V)
      → contains j (insert k v d) ≡ (if k == j then true else contains j d)
  contains-insert k j v d = ground (arith, lookup-insert k j v d)

  contains-erase :
      (k j : String) (d : Dict V)
      → contains j (erase k d) ≡ (if k == j then false else contains j d)
  contains-erase k j d = ground (arith, lookup-erase k j d)

-- The requests where only `id` may have changed, where it is free only if `free` says so.
pub record Changed (id : String) (free : Type 0) (old new : Dict RequestEntry) : Type 0 where
  pub others : (j : String) → id == j ≡ false → contains j new ≡ contains j old
  pub own : contains id new ≡ false → free

pub inserted :
    (id : String) (free : Type 0) (entry : RequestEntry) (old : Dict RequestEntry)
    → Changed id free old (insert id entry old)
inserted id free entry old = record {
  others = λ j other. contains-insert id j entry old ∙ (rw other refl);
  own = λ h. absurd (true≢false (sym (there id entry old) ∙ h));
}
  where
    there :
        (id : String) (entry : RequestEntry) (old : Dict RequestEntry)
        → contains id (insert id entry old) ≡ true
    there id entry old = contains-insert id id entry old ∙ rw (eq_refl id) refl

    true≢false : true ≢ false
    true≢false e = cc

erased :
    (id : String) (free : Type 0) (old : Dict RequestEntry)
    → free
    → Changed id free old (erase id old)
erased id free old f = record {
  others = λ j other. contains-erase id j old ∙ (rw other refl);
  own = λ h. f;
}

pub then-Changed :
    (id : String) (free before_ : Type 0) (old middle new : Dict RequestEntry)
    → Changed id before_ old middle
    → Changed id free middle new
    → Changed id free old new
then-Changed id free before_ old middle new a b = record {
  others = λ j other. b.others j other ∙ a.others j other;
  own = b.own;
}

and_false : (b : Bool) → b && false ≡ false
and_false true = refl
and_false false = refl

pub count-others :
    (id j : String) (ts : List ActionTrace) (t : ActionTrace)
    → t.request.action_request_id ≡ id
    → id == j ≡ false
    → engine_count j (ts ++ t ∷ []) ≡ engine_count j ts
count-others id j ts t own other =
    let differs : t.request.action_request_id == j ≡ false = rw own other in
    let apart : is_input j t ≡ false =
      ap (λ b. t.engine_submitted && b) differs ∙ and_false t.engine_submitted in
    let e = engine_count-append j ts t in ground (arith, e, apart)

pub count-own :
    (id : String) (ts : List ActionTrace) (t : ActionTrace)
    → engine_count id (ts ++ t ∷ []) ≤ engine_count id ts + 1
count-own id ts t = let e = engine_count-append id ts t in ground (arith, e)

pub count-no_input :
    (id : String) (ts : List ActionTrace) (t : ActionTrace)
    → t.engine_submitted ≡ false
    → engine_count id (ts ++ t ∷ []) ≡ engine_count id ts
count-no_input id ts t idle = let e = engine_count-append id ts t in ground (arith, e, idle)

module _ {W : Type 0} where
  -- One identity was free, and afterwards at most one input more of it is there.
  pub IsOnce-step :
      (id : String) (app left : SimulationApplication W)
      → IsOnce app
      → contains id app.requests ≡ false
      → ((j : String) → id == j ≡ false → engine_count j left.traces ≡ engine_count j app.traces)
      → engine_count id left.traces ≤ engine_count id app.traces + 1
      → Changed id (engine_count id left.traces ≡ 0) app.requests left.requests
      → IsOnce left
  IsOnce-step id app left once free others own changed j = elim (Bool-cases (id == j)) [
    | inr other ↦
        let (few, none_free) = once j in
        let same = others j other in
        let kept = changed.others j other in
        (omega (arith, few, same), λ h. same ∙ none_free (sym kept ∙ h))
    | inl this ↦
        let here_ : id ≡ j = (eq_iff id j).0 this in
        let none_yet = (once id).1 free in rw (← here_) (omega (arith, own, none_yet), changed.own)
  ]

  -- The requests and the traces that settling leaves, from what an execution left.
  pub settled-Changed :
      (id : String) (free : Type 0) (app final : SimulationApplication W)
      → ((trace : ActionTrace)
          → last_of app.traces ≡ some trace
          → trace.engine_submitted ≡ false
          → free)
      → Settles id app final ⊎ Keeps app final
      → contains id app.requests ≡ true
      → (final.traces ≡ app.traces) × Changed id free app.requests final.requests
  settled-Changed id free app final f (inr k) there = (
    k.traces,
    rw k.requests (record { others = λ j other. refl; own = λ h. absurd (clash there h) }),
  )
    where
      clash : {b : Bool} → b ≡ true → b ≡ false → ⊥
      clash h k = cc
  settled-Changed id free app final f (inl s) there = (
    s.traces,
    elim s.requests [
      | inl (entry, e) ↦ rw e (inserted id free entry app.requests)
      | inr (e, (trace, last, idle)) ↦ rw e (erased id free app.requests (f trace last idle))
    ],
  )
