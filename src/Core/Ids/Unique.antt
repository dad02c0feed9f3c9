-- ===== src/Core/Ids/Unique.antt =====
-- Different sequences give different identities.
use Prim.Native.String.{count}
use text.Mathlib.TextLemmas.{
  append_cancel_left, append_inj, append_assoc, append-nil, nil-append, length-append,
}
use journey_map.Prelude.{
  ℕ, zero, suc, ◌+◌, ◌-◌, ◌*◌, ◌/◌, ◌%◌, ◌≤◌, ◌<◌, String, ◌≡◌, refl, sym, ap, ◌∙◌, ◌==◌, ◌==ℕ◌,
  if◌then◌else◌, Bool, true, false, List, [], ◌∷◌, arith, All, Bool-cases, inl, inr,
}
use journey_map.Core.Ids.{◌<>◌, digit, pad, format_08d, scoped_id}

-- The digits of `pad`, the last one first.
unfoldable digits : ℕ → ℕ → ℕ → List ℕ
digits zero width n = []
digits (suc fuel) width n =
    let more = digits fuel (width - 1) (n / 10) in if (n + width) ==ℕ 0 then [] else n % 10 ∷ more

unfoldable value : List ℕ → ℕ
value [] = 0
value (d ∷ ds) = d + 10 * value ds

unfoldable render : List ℕ → String → String
render [] rest = rest
render (d ∷ ds) rest = render ds (digit d <> rest)

pad-render :
    (fuel width n : ℕ) (rest : String) → pad fuel width n rest ≡ render (digits fuel width n) rest
unfolding pad digits render
pad-render zero width n rest = refl
pad-render (suc fuel) width n rest = elim (Bool-cases ((n + width) ==ℕ 0)) [
  | inl done ↦ rw done refl
  | inr more ↦ rw more (pad-render fuel (width - 1) (n / 10) (digit (n % 10) <> rest))
]

value-digits : (fuel width n : ℕ) → n ≤ fuel → value (digits fuel width n) ≡ n
unfolding value digits
value-digits zero width n h = omega arith
value-digits (suc fuel) width n h = elim (Bool-cases ((n + width) ==ℕ 0)) [
  | inl done ↦ rw done (ground arith)
  | inr more ↦ rw more (rw (value-digits fuel (width - 1) (n / 10) (omega arith)) (omega arith))
]

digits-below : (fuel width n : ℕ) → All (λ d. d < 10) (digits fuel width n)
unfolding digits
digits-below zero width n = tt
digits-below (suc fuel) width n = elim (Bool-cases ((n + width) ==ℕ 0)) [
  | inl done ↦ rw done tt
  | inr more ↦ rw more (omega arith, digits-below fuel (width - 1) (n / 10))
]

-- What is rendered stands in front of the rest.
render-append : (ds : List ℕ) (rest : String) → render ds rest ≡ render ds "" <> rest
unfolding render
render-append [] rest = sym (nil-append rest)
render-append (d ∷ ds) rest =
    render-append ds (digit d <> rest)
    ∙ sym (append_assoc (render ds "") (digit d) rest)
    ∙ ap (λ s. s <> rest)
        (ap (λ s. render ds "" <> s) (sym (append-nil (digit d)))
          ∙ sym (render-append ds (digit d <> "")))

render-cons : (d : ℕ) (ds : List ℕ) → render (d ∷ ds) "" ≡ render ds "" <> digit d
unfolding render
render-cons d ds =
    render-append ds (digit d <> "") ∙ ap (λ s. render ds "" <> s) (append-nil (digit d))

undigit : String → ℕ
undigit s =
    if s == "0"
    then 0
    else if s == "1"
    then 1
    else if s == "2"
    then 2
    else if s == "3"
    then 3
    else if s == "4"
    then 4
    else if s == "5"
    then 5
    else if s == "6"
    then 6
    else if s == "7"
    then 7
    else if s == "8"
    then 8
    else 9

undigit-digit : (d : ℕ) → d < 10 → undigit (digit d) ≡ d
unfolding undigit
undigit-digit zero h = refl
undigit-digit (suc zero) h = refl
undigit-digit (suc (suc zero)) h = refl
undigit-digit (suc (suc (suc zero))) h = refl
undigit-digit (suc (suc (suc (suc zero)))) h = refl
undigit-digit (suc (suc (suc (suc (suc zero))))) h = refl
undigit-digit (suc (suc (suc (suc (suc (suc zero)))))) h = refl
undigit-digit (suc (suc (suc (suc (suc (suc (suc zero))))))) h = refl
undigit-digit (suc (suc (suc (suc (suc (suc (suc (suc zero)))))))) h = refl
undigit-digit (suc (suc (suc (suc (suc (suc (suc (suc (suc zero))))))))) h = refl
undigit-digit (suc (suc (suc (suc (suc (suc (suc (suc (suc (suc n)))))))))) h = omega (arith, h)

if-count : (b : Bool) (s t : String) → count s ≡ 1 → count t ≡ 1 → count (if b then s else t) ≡ 1
if-count true s t h k = h
if-count false s t h k = k

digit-count : (d : ℕ) → count (digit d) ≡ 1
digit-count d = if-count (d ==ℕ 0) "0" _ refl (
    if-count (d ==ℕ 1) "1" _ refl (
      if-count (d ==ℕ 2) "2" _ refl (
        if-count (d ==ℕ 3) "3" _ refl (
          if-count (d ==ℕ 4) "4" _ refl (
            if-count (d ==ℕ 5) "5" _ refl (
              if-count (d ==ℕ 6) "6" _ refl
                (if-count (d ==ℕ 7) "7" _ refl (if-count (d ==ℕ 8) "8" "9" refl refl))))))))

render-count : (d : ℕ) (ds : List ℕ) → count (render (d ∷ ds) "") ≡ count (render ds "") + 1
render-count d ds =
    ap count (render-cons d ds)
    ∙ length-append (render ds "") (digit d)
    ∙ ap (λ n. count (render ds "") + n) (digit-count d)

render-injective :
    (ds es : List ℕ)
    → All (λ d. d < 10) ds
    → All (λ d. d < 10) es
    → render ds "" ≡ render es ""
    → ds ≡ es
render-injective [] [] h k e = refl
render-injective [] (x ∷ es) h k e =
    let longer : 0 ≡ count (render es "") + 1 = unfold render in ap count e ∙ render-count x es in
    absurd (omega (arith, longer))
render-injective (d ∷ ds) [] h k e =
    let longer : 0 ≡ count (render ds "") + 1 =
      unfold render in sym (ap count e) ∙ render-count d ds in
    absurd (omega (arith, longer))
render-injective (d ∷ ds) (x ∷ es) h k e =
    let same : render ds "" <> digit d ≡ render es "" <> digit x =
      sym (render-cons d ds) ∙ e ∙ render-cons x es in
    let lengths : count (render ds "") ≡ count (render es "") =
      (let whole : count (render ds "") + 1 ≡ count (render es "") + 1 =
          sym (render-count d ds) ∙ ap count e ∙ render-count x es in
        omega (arith, whole)) in
    let (heads, tails) = append_inj same lengths in
    let last : d ≡ x = sym (undigit-digit d h.0) ∙ ap undigit tails ∙ undigit-digit x k.0 in
    rw last (rw (render-injective ds es h.1 k.1 heads) refl)

format_08d-injective : (n m : ℕ) → format_08d n ≡ format_08d m → n ≡ m
unfolding format_08d
format_08d-injective n m h =
    let same =
      render-injective (digits (n + 8) 8 n) (digits (m + 8) 8 m) (digits-below (n + 8) 8 n)
        (digits-below (m + 8) 8 m)
        (sym (pad-render (n + 8) 8 n "") ∙ h ∙ pad-render (m + 8) 8 m "") in
    sym (value-digits (n + 8) 8 n (omega arith))
    ∙ ap value same
    ∙ value-digits (m + 8) 8 m (omega arith)

-- Identities of one run and one kind are equal only if their sequences are.
pub scoped_id-injective :
    (run_id kind : String) (n m : ℕ) → scoped_id run_id kind n ≡ scoped_id run_id kind m → n ≡ m
unfolding scoped_id
scoped_id-injective run_id kind n m h =
    format_08d-injective n m (append_cancel_left kind _ _ (append_cancel_left run_id _ _ h))
