-- ===== src/Modules/Social/Learned.antt =====
-- What a target learns is what the sender knew, and the projection accepts it.
use mathlib.Core.List.{Memᴰ}
use mathlib.Core.Path.{subst}
use journey_map.Prelude.{
  ◌≤◌, String, ◌≡◌, refl, sym, ap, ◌∙◌, inl, inr, Bool, true, false, not, ◌||◌, none, some, List,
  [], ◌∷◌, ◌==◌, ◌==ℕ◌, ltb, any, first, keep, first-Memᴰ, arith, All, All-map, Bool-cases, eq_iff,
}
use journey_map.Prelude.Int.{pos}
use journey_map.Prelude.Exec.{
  ok, value_error, assertion_error, raise_if, or_raise, >>=-eq-ok, or_raise-eq-ok, ok-injective,
}
use journey_map.Json.{JsonValue, get?, get, as_text, is_text, clone_json_value}
use journey_map.Core.Ids.{◌<>◌}
use journey_map.Core.Events.{EventEnvelope}
use journey_map.Modules.Knowledge.{
  KnowledgeRecord, KnowledgeLedger, ActorKnowledgeView, for_actor, view_history, make_view,
  detached_records, make_record, has_two_scopes,
}
use journey_map.Modules.Knowledge.Ledgers.{IsLedger, CopyOf, make_record-CopyOf}
use journey_map.Modules.Knowledge.Projection.{is_foreign}
use journey_map.Modules.Social.{validate_social_event, item}
use journey_map.Modules.Social.Informed.{informed_record, project_informed_knowledge, check_reply}

-- A value that was cloned on its way into the view, out of it, and into the new record.
abbrev pub IsCopied : JsonValue → JsonValue → Type 0
IsCopied given copy =
    (viewed shown : JsonValue) × (clone_json_value given ≡ ok viewed)
    × (clone_json_value viewed ≡ ok shown)
    × (clone_json_value shown ≡ ok copy)

-- What a record that an event gives owes to it and to the sender's knowledge.
pub record IsLearned (knowledge : KnowledgeLedger) (event : EventEnvelope) (r : KnowledgeRecord)
    : Type 0 where
  pub to_target : as_text (get "target_actor_id" event.payload) ≡ some r.actor_id
  pub from_event : r.source_ref ≡ event.event_id
  pub when_told : r.learned_at ≡ event.simulation_time
  -- The record of the ledger that the event cites, which is the sender's own.
  pub claim : KnowledgeRecord
  pub in_ledger : Memᴰ claim knowledge.records
  pub cited : is_text (get "claim_record_id" event.payload) claim.knowledge_record_id ≡ true
  pub of_sender : as_text (get "sender_actor_id" event.payload) ≡ some claim.actor_id
  pub known_before : claim.learned_at ≤ event.simulation_time
  pub same_subject : r.subject_ref ≡ claim.subject_ref
  pub same_predicate : r.predicate ≡ claim.predicate
  pub copied_value : IsCopied claim.value r.value

item-get :
    (key : String) (event : EventEnvelope) (v : JsonValue) (s : String)
    → item key event.payload ≡ ok v
    → or_raise (as_text v) assertion_error ≡ ok s
    → as_text (get key event.payload) ≡ some s
unfolding item
item-get key event v s h k =
    rw (or_raise-eq-ok (get? key event.payload) _ v h, get) (or_raise-eq-ok (as_text v) _ s k)

All-Memᴰ-at :
    (P : KnowledgeRecord → Type 0) (r : KnowledgeRecord) (rs : List KnowledgeRecord)
    → Memᴰ r rs
    → All P rs
    → P r
All-Memᴰ-at P r [] m h = elim m [ ]
All-Memᴰ-at P r (s ∷ rs) (Memᴰ.head same) h = rw same h.0
All-Memᴰ-at P r (s ∷ rs) (Memᴰ.tail m) h = All-Memᴰ-at P r rs m h.1

-- A copy of a record of a list.
abbrev HasOriginal : List KnowledgeRecord → KnowledgeRecord → Type 0
HasOriginal rs copy = (r : KnowledgeRecord) × Memᴰ r rs × CopyOf r copy

detached_records-HasOriginal :
    (rs copies : List KnowledgeRecord)
    → detached_records rs ≡ ok copies
    → All (HasOriginal rs) copies
unfolding detached_records
detached_records-HasOriginal [] copies h = rw (← ok-injective h) tt
detached_records-HasOriginal (r ∷ rs) copies h =
    let (made, got, h₁) = >>=-eq-ok (make_record r) _ h in
    let (rest, others, h₂) = >>=-eq-ok (detached_records rs) _ h₁ in
    rw (← ok-injective h₂) (
      (r, Memᴰ.head refl, make_record-CopyOf r made got),
      All-map (λ c o. (o.0, Memᴰ.tail o.1, o.2)) rest (detached_records-HasOriginal rs rest others),
    )

keep-Memᴰ :
    (p : KnowledgeRecord → Bool) (r : KnowledgeRecord) (rs : List KnowledgeRecord)
    → Memᴰ r (keep p rs)
    → Memᴰ r rs × (p r ≡ true)
keep-Memᴰ p r [] m = elim m [ ]
keep-Memᴰ p r (s ∷ rs) m = elim (Bool-cases (p s)) [
  | inr dropped ↦
      let (found, holds) = keep-Memᴰ p r rs (rw (dropped, keep) at m) in (Memᴰ.tail found, holds)
  | inl kept ↦
      let m' : Memᴰ r (s ∷ keep p rs) = rw (kept, keep) at m in
      elim m' [
        | Memᴰ.head same ↦ (Memᴰ.head same, rw same kept)
        | Memᴰ.tail later ↦ let (found, holds) = keep-Memᴰ p r rs later in (Memᴰ.tail found, holds)
      ]
]

-- What the sender's history shows is a copy of a record of the ledger that is the sender's.
view_history-original :
    (knowledge : KnowledgeLedger) (sender : String) (view : ActorKnowledgeView)
    (known : List KnowledgeRecord) (shown : KnowledgeRecord)
    → for_actor sender knowledge ≡ ok view
    → view_history view ≡ ok known
    → Memᴰ shown known
    → (r viewed : KnowledgeRecord) × Memᴰ r knowledge.records
      × (r.actor_id ≡ sender)
      × CopyOf r viewed
      × CopyOf viewed shown
unfolding for_actor make_view view_history
view_history-original knowledge sender view known shown h k m =
    let own = keep (λ r. r.actor_id == sender) knowledge.records in
    let (_, _, h₁) = >>=-eq-ok (raise_if (has_two_scopes own) value_error) _ h in
    let (copies, got, h₂) = >>=-eq-ok (detached_records own) _ h₁ in
    let (viewed, among, again) =
      All-Memᴰ-at (HasOriginal view.records) shown known m
        (detached_records-HasOriginal view.records known k) in
    let among' : Memᴰ viewed copies = rw (← ap (λ v. v.records) (ok-injective h₂)) at among in
    let (r, found, copied) =
      All-Memᴰ-at (HasOriginal own) viewed copies among'
        (detached_records-HasOriginal own copies got) in
    let (in_ledger, owned) = keep-Memᴰ (λ r. r.actor_id == sender) r knowledge.records found in
    (r, viewed, in_ledger, (eq_iff r.actor_id sender).0 owned, copied, again)

-- The record that an event gives of a claim.
abbrev told : EventEnvelope → String → KnowledgeRecord → KnowledgeRecord
told event target claim = record {
  knowledge_record_id = event.event_id <> ":social-informed-v1:00000001";
  run_id = event.run_id;
  actor_id = target;
  subject_ref = claim.subject_ref;
  predicate = claim.predicate;
  value = claim.value;
  source_kind = "INFORMED";
  source_ref = event.event_id;
  learned_at = event.simulation_time;
  supersedes_id = none;
  schema_version = pos 1;
}

told-IsLearned :
    (event : EventEnvelope) (knowledge : KnowledgeLedger) (target sender : String)
    (claim origin viewed r : KnowledgeRecord)
    → as_text (get "target_actor_id" event.payload) ≡ some target
    → as_text (get "sender_actor_id" event.payload) ≡ some sender
    → is_text (get "claim_record_id" event.payload) claim.knowledge_record_id ≡ true
    → claim.learned_at ≤ event.simulation_time
    → Memᴰ origin knowledge.records
    → origin.actor_id ≡ sender
    → CopyOf origin viewed
    → CopyOf viewed claim
    → CopyOf (told event target claim) r
    → IsLearned knowledge event r
told-IsLearned event knowledge target sender claim origin viewed r to from cited early member own
      (v, once, same) (w, twice, same') (copied, cloned, made) =
    let with_value : KnowledgeRecord → KnowledgeRecord = λ x. record x { value = w } in
    let fields : claim ≡ record origin { value = w } = same' ∙ ap with_value same in
    rw made (record {
      to_target = to;
      from_event = refl;
      when_told = refl;
      claim = origin;
      in_ledger = member;
      cited =
          ap (λ x. is_text (get "claim_record_id" event.payload) x.knowledge_record_id) (sym fields)
          ∙ cited;
      of_sender = from ∙ ap some (sym own);
      known_before = subst (λ t. t ≤ event.simulation_time) (ap (λ x. x.learned_at) fields) early;
      same_subject = ap (λ x. x.subject_ref) fields;
      same_predicate = ap (λ x. x.predicate) fields;
      copied_value = (
        v,
        w,
        once,
        ap (λ x. clone_json_value x.value) (sym same) ∙ twice,
        ap (λ x. clone_json_value x.value) (sym fields) ∙ cloned,
      );
    })

informed_record-IsLearned :
    (event : EventEnvelope) (previous : List EventEnvelope) (knowledge : KnowledgeLedger)
    (r : KnowledgeRecord)
    → IsLedger knowledge
    → informed_record event previous knowledge ≡ ok r
    → IsLearned knowledge event r
unfolding informed_record
informed_record-IsLearned event previous knowledge r l h =
    let (_, _, h₁) = >>=-eq-ok (validate_social_event event) _ h in
    let (sender_value, s, h₂) = >>=-eq-ok (item "sender_actor_id" event.payload) _ h₁ in
    let (target_value, t, h₃) = >>=-eq-ok (item "target_actor_id" event.payload) _ h₂ in
    let (sender, s', h₄) = >>=-eq-ok (or_raise (as_text sender_value) assertion_error) _ h₃ in
    let (target, t', h₅) = >>=-eq-ok (or_raise (as_text target_value) assertion_error) _ h₄ in
    let (view, given, h₆) = >>=-eq-ok (for_actor sender knowledge) _ h₅ in
    let (known, shown, h₇) = >>=-eq-ok (view_history view) _ h₆ in
    let is_claim : KnowledgeRecord → Bool =
      λ c. is_text (get "claim_record_id" event.payload) c.knowledge_record_id in
    let (claim, found, h₈) = >>=-eq-ok (or_raise (first is_claim known) value_error) _ h₇ in
    let (_, past, h₉) =
      >>=-eq-ok
        (raise_if (not (claim.run_id == event.run_id) || ltb event.simulation_time claim.learned_at)
          value_error)
        _ h₈ in
    let (_, _, h₁₀) =
      >>=-eq-ok
        (check_reply previous (as_text (get "reply_to_event_id" event.payload)) sender target claim)
        _ h₉ in
    let (member, cited) = first-Memᴰ is_claim known claim (or_raise-eq-ok _ _ claim found) in
    let (origin, viewed, in_ledger, own, once, twice) =
      view_history-original knowledge sender view known claim given shown member in
    let early : claim.learned_at ≤ event.simulation_time = ground (arith, past) in
    told-IsLearned event knowledge target sender claim origin viewed r
      (item-get "target_actor_id" event target_value target t t')
      (item-get "sender_actor_id" event sender_value sender s s') cited early in_ledger own once
      twice (make_record-CopyOf (told event target claim) r h₁₀)

-- What the rule for an INFORM gives, of a constructed ledger, is accepted by the projection as
-- the event's own: each record goes to the target, cites the event and its time, and copies
-- subject, predicate and value of the record of the ledger that the event cites, which is the
-- sender's and was learned by then.
pub project_informed_knowledge-IsLearned :
    (event : EventEnvelope) (previous : List EventEnvelope) (knowledge : KnowledgeLedger)
    (added : List KnowledgeRecord)
    → IsLedger knowledge
    → project_informed_knowledge event previous knowledge ≡ ok added
    → All (IsLearned knowledge event) added × (any (is_foreign event) added ≡ false)
unfolding project_informed_knowledge
project_informed_knowledge-IsLearned event previous knowledge added l h =
    elim (Bool-cases (event.event_type == "ActorInformed")) [
      | inr other ↦
          let none_added : [] ≡ added =
            ok-injective (rw (other, project_informed_knowledge) at h) in
          rw (← none_added) (tt, refl)
      | inl informed ↦
          let (r, given, h₁) =
            >>=-eq-ok (informed_record event previous knowledge) _
              (rw (informed, project_informed_knowledge) at h) in
          let learned = informed_record-IsLearned event previous knowledge r l given in
          let cites : (r.source_ref == event.event_id) ≡ true =
            (eq_iff r.source_ref event.event_id).1 learned.from_event in
          let timed : (r.learned_at ==ℕ event.simulation_time) ≡ true =
            ground (arith, learned.when_told) in
          rw (← ok-injective h₁) ((learned, tt), rw (cites, timed) refl)
    ]
