-- ===== src/Core/Scheduler/Order.antt =====
-- The order in which the scheduler gives its events out.
use journey_map.Prelude.{
  ℕ, ◌+◌, ◌≤◌, ◌<◌, ◌≡◌, refl, ◌≢◌, ◌⊎◌, inl, inr, true, false, Option, none, some, List, [], ◌∷◌,
  arith, Bool-cases, All, ltb, ltb→lt,
}
use journey_map.Prelude.Exec.{Result, ok, err}
use journey_map.Core.Scheduler.{
  ScheduledEvent, ScheduledEventSpec, DeterministicScheduler, key_ltb, heappush, schedule, detached,
  new_event, enqueue, peek_next_due, peek_head, pop_head, pop_next_due,
}

-- Every item goes before all later ones.
abbrev pub IsSorted : List ScheduledEvent → Type 0
IsSorted [] = Unit
IsSorted (e ∷ es) = All (λ x. key_ltb e x ≡ true) es × IsSorted es

pub key_ltb_trans :
    (a b c : ScheduledEvent) → key_ltb a b ≡ true → key_ltb b c ≡ true → key_ltb a c ≡ true
unfolding key_ltb
key_ltb_trans a b c h k = ground arith

-- Two events with different insertion sequences are ordered one way or the other.
pub key_ltb_total :
    (a b : ScheduledEvent)
    → a.insertion_sequence ≢ b.insertion_sequence
    → key_ltb a b ≡ false
    → key_ltb b a ≡ true
unfolding key_ltb
key_ltb_total a b h k = ground arith

All-key_ltb_trans :
    (a b : ScheduledEvent) (es : List ScheduledEvent)
    → key_ltb a b ≡ true
    → All (λ x. key_ltb b x ≡ true) es
    → All (λ x. key_ltb a x ≡ true) es
All-key_ltb_trans a b [] h k = tt
All-key_ltb_trans a b (e ∷ es) h k = (key_ltb_trans a b e h k.0, All-key_ltb_trans a b es h k.1)

All-heappush {ℓ} :
    (P : ScheduledEvent → Type ℓ) (e : ScheduledEvent) (es : List ScheduledEvent)
    → P e
    → All P es
    → All P (heappush e es)
unfolding heappush
All-heappush P e [] p h = (p, tt)
All-heappush P e (x ∷ xs) p h = elim (Bool-cases (key_ltb x e)) [
  | inl lt ↦ rw lt (h.0, All-heappush P e xs p h.1)
  | inr ge ↦ rw ge (p, h)
]

-- All items were inserted before the sequence `n`.
abbrev pub IsNumbered : ℕ → List ScheduledEvent → Type 0
IsNumbered n = All (λ x. x.insertion_sequence < n)

heappush-IsSorted :
    (e : ScheduledEvent) (es : List ScheduledEvent)
    → IsNumbered e.insertion_sequence es
    → IsSorted es
    → IsSorted (heappush e es)
unfolding heappush
heappush-IsSorted e [] n h = (tt, tt)
heappush-IsSorted e (x ∷ xs) n h = elim (Bool-cases (key_ltb x e)) [
  | inl lt ↦ rw lt (All-heappush _ e xs lt h.0, heappush-IsSorted e xs n.1 h.1)
  | inr ge ↦
      let below = key_ltb_total x e (omega arith) ge in
      rw ge ((below, All-key_ltb_trans e x xs below h.0), h)
]

IsNumbered-mono : (n : ℕ) (es : List ScheduledEvent) → IsNumbered n es → IsNumbered (n + 1) es
IsNumbered-mono n [] h = tt
IsNumbered-mono n (e ∷ es) h = (omega arith, IsNumbered-mono n es h.1)

-- The heap is in order, and its items were inserted before the next sequence.
pub record IsValid (s : DeterministicScheduler) : Type 0 where
  pub sorted : IsSorted s.items
  pub numbered : IsNumbered s.next_insertion_sequence s.items

push-IsValid :
    (s : DeterministicScheduler) (e : ScheduledEvent)
    → e.insertion_sequence ≡ s.next_insertion_sequence
    → IsValid s
    → IsValid (record s {
      next_insertion_sequence = s.next_insertion_sequence + 1;
      items = heappush e s.items;
    })
push-IsValid s e p h = record {
  sorted = heappush-IsSorted e s.items (rw p h.numbered) h.sorted;
  numbered =
      All-heappush _ e s.items (omega arith)
        (IsNumbered-mono s.next_insertion_sequence s.items h.numbered);
}

skip-IsValid :
    (s : DeterministicScheduler)
    → IsValid s
    → IsValid (record s { next_insertion_sequence = s.next_insertion_sequence + 1 })
skip-IsValid s h = record {
  sorted = h.sorted;
  numbered = IsNumbered-mono s.next_insertion_sequence s.items h.numbered;
}

detached-keeps_sequence :
    (e d : ScheduledEvent) → detached e ≡ ok d → d.insertion_sequence ≡ e.insertion_sequence
unfolding detached
detached-keeps_sequence e d h = ground arith

enqueue-IsValid :
    (r : Result ScheduledEvent) (s : DeterministicScheduler)
    → ((d : ScheduledEvent) → r ≡ ok d → d.insertion_sequence ≡ s.next_insertion_sequence)
    → IsValid s
    → IsValid (enqueue r (record s { next_insertion_sequence = s.next_insertion_sequence + 1 })).1
unfolding enqueue
enqueue-IsValid (err e) s p h = skip-IsValid s h
enqueue-IsValid (ok d) s p h = push-IsValid s d (p d refl) h

-- Scheduling keeps the heap of a valid scheduler in order and its sequences below the next, whether or
-- not the payload can be stored.
pub schedule-IsValid :
    (spec : ScheduledEventSpec) (s : DeterministicScheduler)
    → IsValid s
    → IsValid (schedule spec s).1
unfolding schedule
schedule-IsValid spec s h =
    enqueue-IsValid (detached (new_event spec s)) s (detached-keeps_sequence (new_event spec s)) h

-- `first` is due at `t`, and goes before every item that stays.
abbrev pub Popped : ℕ → List ScheduledEvent → Option ScheduledEvent × List ScheduledEvent → Type 0
Popped t items (none, rest) = (rest ≡ items) × All (λ x. t < x.due_time) items
Popped t items (some e, rest) =
    (e.due_time ≤ t) × (items ≡ e ∷ rest) × All (λ x. key_ltb e x ≡ true) rest

pub key_ltb-due : (a b : ScheduledEvent) → key_ltb a b ≡ true → a.due_time ≤ b.due_time
unfolding key_ltb
key_ltb-due a b h = ground arith

All-due :
    (t : ℕ) (a : ScheduledEvent) (es : List ScheduledEvent)
    → t < a.due_time
    → All (λ x. key_ltb a x ≡ true) es
    → All (λ x. t < x.due_time) es
All-due t a [] h k = tt
All-due t a (e ∷ es) h k = (omega (arith, key_ltb-due a e k.0), All-due t a es h k.1)

pop_head-Popped :
    (t : ℕ) (items : List ScheduledEvent) → IsSorted items → Popped t items (pop_head t items)
unfolding pop_head
pop_head-Popped t [] h = (refl, tt)
pop_head-Popped t (e ∷ rest) h = elim (Bool-cases (ltb t e.due_time)) [
  | inl late ↦ rw late (refl, (ltb→lt _ _ late, All-due t e rest (ltb→lt _ _ late) h.0))
  | inr due ↦ rw due (ground arith, refl, h.0)
]

peek-eq-pop_head : (t : ℕ) (items : List ScheduledEvent) → peek_head t items ≡ (pop_head t items).0
unfolding peek_head pop_head
peek-eq-pop_head t [] = refl
peek-eq-pop_head t (e ∷ rest) = ground arith

-- In a valid scheduler a pop gives the event that a peek shows; it is due, and its key is below
-- that of every event that stays. A pop that gives nothing changes nothing, and no event is due.
pub pop_next_due-Popped :
    (t : ℕ) (s : DeterministicScheduler)
    → IsValid s
    → Popped t s.items ((pop_next_due t s).0, (pop_next_due t s).1.items)
      × (peek_next_due t s ≡ (pop_next_due t s).0)
unfolding pop_next_due peek_next_due
pop_next_due-Popped t s h = (pop_head-Popped t s.items h.sorted, peek-eq-pop_head t s.items)

-- The items after a sorted list's head are due no earlier than it.
pub All-due_le :
    (a : ScheduledEvent) (es : List ScheduledEvent)
    → All (λ x. key_ltb a x ≡ true) es
    → All (λ x. a.due_time ≤ x.due_time) es
All-due_le a [] h = tt
All-due_le a (e ∷ es) h = (key_ltb-due a e h.0, All-due_le a es h.1)

pop_head-due :
    (t : ℕ) (e : ScheduledEvent) (items rest : List ScheduledEvent)
    → items ≡ e ∷ rest
    → e.due_time ≤ t
    → pop_head t items ≡ (some e, rest)
pop_head-due t e items rest h d = rw h (unfold pop_head in ground arith)

pub pop_next_due-head :
    (t : ℕ) (s : DeterministicScheduler) (e : ScheduledEvent) (rest : List ScheduledEvent)
    → s.items ≡ e ∷ rest
    → e.due_time ≤ t
    → pop_next_due t s ≡ (some e, record s { items = rest })
unfolding pop_next_due
pop_next_due-head t s e rest h d = let popped = pop_head-due t e s.items rest h d in rw popped

peek_head-cases :
    (t : ℕ) (items : List ScheduledEvent)
    → IsSorted items
    → (peek_head t items ≡ none) × All (λ x. t < x.due_time) items
      ⊎ ((e : ScheduledEvent) × (rest : List ScheduledEvent) × (peek_head t items ≡ some e)
          × (items ≡ e ∷ rest)
          × (e.due_time ≤ t))
unfolding peek_head
peek_head-cases t [] h = inl (refl, tt)
peek_head-cases t (e ∷ rest) h = elim (Bool-cases (ltb t e.due_time)) [
  | inl late ↦ inl (rw late, (ltb→lt _ _ late, All-due t e rest (ltb→lt _ _ late) h.0))
  | inr due ↦ inr (e, rest, rw due, refl, ground arith)
]

-- Where nothing is due, every item is later; else the head is due.
pub peek_next_due-cases :
    (t : ℕ) (s : DeterministicScheduler)
    → IsValid s
    → (peek_next_due t s ≡ none) × All (λ x. t < x.due_time) s.items
      ⊎ ((e : ScheduledEvent) × (rest : List ScheduledEvent) × (peek_next_due t s ≡ some e)
          × (s.items ≡ e ∷ rest)
          × (e.due_time ≤ t))
unfolding peek_next_due
peek_next_due-cases t s h = peek_head-cases t s.items h.sorted

detached-keeps_due : (e d : ScheduledEvent) → detached e ≡ ok d → d.due_time ≡ e.due_time
unfolding detached
detached-keeps_due e d h = ground arith

enqueue-due :
    (now : ℕ) (r : Result ScheduledEvent) (s : DeterministicScheduler)
    → ((d : ScheduledEvent) → r ≡ ok d → now ≤ d.due_time)
    → All (λ x. now ≤ x.due_time) s.items
    → All (λ x. now ≤ x.due_time) (enqueue r s).1.items
unfolding enqueue
enqueue-due now (err e) s h a = a
enqueue-due now (ok d) s h a = All-heappush _ d s.items (h d refl) a

-- What is scheduled is due at its specification's time, so a bound on the items is kept.
pub schedule-due :
    (now : ℕ) (spec : ScheduledEventSpec) (s : DeterministicScheduler)
    → now ≤ spec.due_time
    → All (λ x. now ≤ x.due_time) s.items
    → All (λ x. now ≤ x.due_time) (schedule spec s).1.items
unfolding schedule
schedule-due now spec s h a =
    enqueue-due now (detached (new_event spec s))
      (record s { next_insertion_sequence = s.next_insertion_sequence + 1 })
      (λ d e. rw (detached-keeps_due (new_event spec s) d e) (unfold new_event in h)) a
