-- ===== src/Core/Rng.antt =====
-- core/run.py, `DeterministicRng`: SplitMix64 with a count of its draws.
use Prim.Native.Nat.{bit_xor}
use native.Mathlib.Nat.{mod-lt}
use journey_map.Prelude.{
  ℕ, zero, suc, ◌+◌, ◌*◌, ◌/◌, ◌%◌, ◌^◌, ◌≤◌, ◌<◌, ◌≡◌, ◌≢◌, true, false, ◌||◌, Option, none, some,
  arith, leb, if◌then◌else◌, Bool-cases, Option-cases, refl, inl, inr, ◌-◌,
}
use journey_map.Prelude.Int.{ℤ, pos, pos_part, ltb_ℤ, is_nonpositive}
use journey_map.Prelude.Exec.{Result, ok, value_error, ◌>>◌, raise_if}

abbrev pub uint64_limit : ℕ
uint64_limit = 2 ^ 64

abbrev pub splitmix64_gamma : ℕ
splitmix64_gamma = 0x9E3779B97F4A7C15

pub record DeterministicRng : Type 0 where
  pub state : ℕ
  pub draw_count : ℕ

-- `seed & UINT64_MASK`: of a negative seed, its two's complement.
abbrev wrap64 : ℤ → ℕ
wrap64 (ℤ.pos n) = n % uint64_limit
wrap64 (ℤ.negsuc n) = uint64_limit - 1 - n % uint64_limit

unfoldable pub make_rng : ℤ → DeterministicRng
make_rng seed = record { state = wrap64 seed; draw_count = 0 }

-- The finaliser of SplitMix64; a product is cut to 64 bits.
unfoldable pub mix64 : ℕ → ℕ
mix64 state =
    let a = (bit_xor state (state / 2 ^ 30) * 0xBF58476D1CE4E5B9) % uint64_limit in
    let b = (bit_xor a (a / 2 ^ 27) * 0x94D049BB133111EB) % uint64_limit in
    bit_xor b (b / 2 ^ 31) % uint64_limit

unfoldable pub next_u64 : DeterministicRng → ℕ × DeterministicRng
unfolding mix64
next_u64 rng =
    let state = (rng.state + splitmix64_gamma) % uint64_limit in
    (mix64 state, record { state = state; draw_count = rng.draw_count + 1 })

-- The `while True` of `randbelow`; `none` means that all of the fuel's draws were rejected.
unfoldable pub draw_from : ℕ → ℕ → ℕ → DeterministicRng → Option (ℕ × DeterministicRng)
draw_from zero threshold stop rng = none
draw_from (suc fuel) threshold stop rng =
    let (value, rng') = next_u64 rng in
    let again = draw_from fuel threshold stop rng' in
    if leb threshold value then some (value % stop, rng') else again

unfoldable pub randbelow : ℕ → ℤ → DeterministicRng → Result (Option (ℕ × DeterministicRng))
unfolding draw_from
randbelow fuel stop rng = do
  raise_if (is_nonpositive stop || ltb_ℤ (pos uint64_limit) stop) value_error
  ok (draw_from fuel (uint64_limit % pos_part stop) (pos_part stop) rng)

-- `RngSnapshot` has the fields of the generator.
unfoldable pub restore : DeterministicRng → DeterministicRng → Result DeterministicRng
restore snapshot rng = do
  raise_if (leb uint64_limit snapshot.state) value_error
  ok (record { state = snapshot.state; draw_count = snapshot.draw_count })

unfoldable pub clone : DeterministicRng → Result DeterministicRng
unfolding restore make_rng
clone rng = restore rng (make_rng (pos 0))

-- The state of a generator is a 64-bit word.
abbrev pub IsWord : DeterministicRng → Type 0
IsWord rng = rng.state < uint64_limit

pub next_u64-IsWord :
    (rng : DeterministicRng) → ((next_u64 rng).0 < uint64_limit) × IsWord (next_u64 rng).1
unfolding next_u64
next_u64-IsWord rng = (omega arith, omega arith)

pub make_rng-IsWord : (seed : ℤ) → IsWord (make_rng seed)
unfolding make_rng
make_rng-IsWord (ℤ.pos n) = omega arith
make_rng-IsWord (ℤ.negsuc n) = omega arith

-- A clone of a generator whose state is a 64-bit word is the generator.
pub clone_lem : (rng : DeterministicRng) → IsWord rng → clone rng ≡ ok rng
unfolding clone
clone_lem rng h = ground arith

-- The generator after `k` draws.
unfoldable pub advance : ℕ → DeterministicRng → DeterministicRng
advance zero rng = rng
advance (suc k) rng = advance k (next_u64 rng).1

draw_from_lem :
    (fuel threshold stop : ℕ) (rng : DeterministicRng) (v : ℕ) (rng' : DeterministicRng)
    → 0 < stop
    → draw_from fuel threshold stop rng ≡ some (v, rng')
    → (v < stop) × IsWord rng' × (rng.draw_count < rng'.draw_count)
unfolding draw_from next_u64
draw_from_lem zero threshold stop rng v rng' h e = cc
draw_from_lem (suc fuel) threshold stop rng v rng' h e =
    ground (
      arith,
      mod-lt (next_u64 rng).0 h,
      draw_from_lem fuel threshold stop (next_u64 rng).1 v rng' h,
    )

draw_from-some :
    (k fuel threshold stop : ℕ) (rng : DeterministicRng)
    → k < fuel
    → leb threshold (next_u64 (advance k rng)).0 ≡ true
    → draw_from fuel threshold stop rng ≢ none
unfolding draw_from advance
draw_from-some k zero threshold stop rng h e = elim h [ ]
draw_from-some zero (suc fuel) threshold stop rng h e = rw (e, if◌then◌else◌) (λ p. cc)
draw_from-some (suc k) (suc fuel) threshold stop rng h e =
    elim (Bool-cases (leb threshold (next_u64 rng).0)) [
      | inl hit ↦ rw (hit, if◌then◌else◌) (λ p. cc)
      | inr miss ↦
          rw (miss, if◌then◌else◌)
            (draw_from-some k fuel threshold stop (next_u64 rng).1 (omega arith) e)
    ]

-- For a positive bound of at most 2 ^ 64, where one of the fuel's draws is not below the rejection
-- threshold, `randbelow` returns a value below its bound, with a generator whose state is a word and
-- whose count has grown.
pub randbelow-in_range :
    (k fuel stop : ℕ) (rng : DeterministicRng)
    → 0 < stop
    → stop ≤ uint64_limit
    → k < fuel
    → leb (uint64_limit % stop) (next_u64 (advance k rng)).0 ≡ true
    → (v : ℕ) × (rng' : DeterministicRng) × (randbelow fuel (pos stop) rng ≡ ok (some (v, rng')))
      × (v < stop)
      × IsWord rng'
      × (rng.draw_count < rng'.draw_count)
unfolding randbelow
randbelow-in_range k fuel stop rng positive fits enough hit =
    let bounds : (is_nonpositive (pos stop) || ltb_ℤ (pos uint64_limit) (pos stop)) ≡ false =
      ground arith in
    let found = draw_from-some k fuel (uint64_limit % stop) stop rng enough hit in
    elim (Option-cases (draw_from fuel (uint64_limit % stop) stop rng)) [
      | inl missed ↦ absurd (found missed)
      | inr ((v, rng'), e) ↦
          let (below, word, more) =
            draw_from_lem fuel (uint64_limit % stop) stop rng v rng' positive e in
          (v, rng', rw bounds (rw e refl), below, word, more)
    ]
