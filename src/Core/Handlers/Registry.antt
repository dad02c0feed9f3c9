-- ===== src/Core/Handlers/Registry.antt =====
-- core/handlers.py: `ActionRegistry` and `SystemEventRegistry`, which differ only in the type of
-- their handlers. A key is a pair of an input type and a schema version.
use mathlib.Core.Path.{subst}
use journey_map.Prelude.{
  String, ◌≡◌, refl, Bool, true, false, ◌&&◌, Option, none, some, List, [], ◌∷◌, ◌++◌, is_empty,
  ◌==◌, if◌then◌else◌, is_some, arith, eq_iff, All, Bool-cases, inl, inr, some-eq-some, sym, ap,
  ◌∙◌,
}
use journey_map.Prelude.Int.{ℤ, eqb_ℤ, is_nonpositive, ≤ℤ_antisymm}
use journey_map.Prelude.Exec.{
  Result, ok, err, handler_registration, handler_not_found, ◌>>=◌, ◌>>◌, raise_if, or_raise,
  >>=-eq-ok, or_raise-eq-ok, Result-cases, ok-injective,
}

abbrev pub Registry : Type 0 → Type 0
Registry H = List ((String × ℤ) × H)

unfoldable pub handler_key : String → ℤ → Result (String × ℤ)
handler_key input_type schema_version = do
  raise_if (is_empty input_type) handler_registration
  raise_if (is_nonpositive schema_version) handler_registration
  ok (input_type, schema_version)

abbrev pub same_key : String × ℤ → String × ℤ → Bool
same_key (s, v) (t, w) = s == t && eqb_ℤ v w

module _ {H : Type 0} where
  unfoldable pub find : String × ℤ → Registry H → Option H
  find key [] = none
  find key ((k, h) ∷ r) = if same_key k key then some h else find key r

  unfoldable pub register : (H → String) → String → ℤ → H → Registry H → Result (Registry H)
  unfolding handler_key find
  register handler_id input_type schema_version handler r = do
    key ← handler_key input_type schema_version
    raise_if (is_some (find key r)) handler_registration
    raise_if (is_empty (handler_id handler)) handler_registration
    ok (r ++ (key, handler) ∷ [])

  unfoldable pub get : String → ℤ → Registry H → Result H
  unfolding handler_key find
  get input_type schema_version r = do
    key ← handler_key input_type schema_version
    or_raise (find key r) handler_not_found

module _ {H : Type 0} (P : H → Type 0) where
  find-All :
      (key : String × ℤ) (r : Registry H) (h : H) → All (λ e. P e.1) r → find key r ≡ some h → P h
  unfolding find
  find-All key [] h p e = cc
  find-All key ((k, g) ∷ r) h p e = elim (Bool-cases (same_key k key)) [
    | inl same ↦ subst P (some-eq-some (rw same at e)) p.0
    | inr other ↦ find-All key r h p.1 (rw other at e)
  ]

  -- What holds of every handler of a registry holds of the one that a lookup gives.
  pub get-All :
      (input_type : String) (version : ℤ) (r : Registry H) (h : H)
      → All (λ e. P e.1) r
      → get input_type version r ≡ ok h
      → P h
  unfolding get
  get-All input_type version r h p e =
      let (key, _, e₁) = >>=-eq-ok (handler_key input_type version) _ e in
      find-All key r h p (or_raise-eq-ok (find key r) _ h e₁)

-- Keys that agree with a third agree with each other.
same_key-pair :
    (i k j : String × ℤ) → same_key i k ≡ false → same_key i j ≡ true → same_key k j ≡ false
same_key-pair (a, x) (b, y) (c, z) h g = elim (Bool-cases (b == c)) [
  | inr no_text ↦ rw no_text refl
  | inl one ↦ elim (Bool-cases (eqb_ℤ y z)) [
    | inr apart ↦ rw apart (ground arith)
    | inl one' ↦
        let bc : b ≡ c = (eq_iff b c).0 one in absurd (ground (arith, bc, eq_iff a b, eq_iff a c))
  ]
]

handler_key-valid :
    (s : String) (v : ℤ) (key : String × ℤ) → handler_key s v ≡ ok key → key ≡ (s, v)
unfolding handler_key
handler_key-valid s v key h =
    let (_, _, h₁) = >>=-eq-ok (raise_if (is_empty s) handler_registration) _ h in
    let (_, _, h₂) = >>=-eq-ok (raise_if (is_nonpositive v) handler_registration) _ h₁ in
    sym (ok-injective h₂)

same_key-eq : (k j : String × ℤ) → same_key k j ≡ true → k ≡ j
same_key-eq (s, v) (t, w) h =
    let st : s ≡ t = (eq_iff s t).0 (ground arith) in
    let vw : v ≡ w = ≤ℤ_antisymm v w (ground arith) (ground arith) in rw st (rw vw refl)

module _ {H : Type 0} where
  unused-none :
      (o : Option H) (u : Unit {0}) → raise_if (is_some o) handler_registration ≡ ok u → o ≡ none
  unused-none none u h = refl
  unused-none (some g) u h = cc

  find-append :
      (key j : String × ℤ) (h : H) (r : Registry H)
      → find key r ≡ none
      → find j (r ++ (key, h) ∷ []) ≡ (if same_key key j then some h else find j r)
  unfolding find
  find-append key j h [] e = refl
  find-append key j h ((i, g) ∷ r) e = elim (Bool-cases (same_key i key)) [
    | inl same ↦ (let clash : some g ≡ none = rw same at e in cc)
    | inr other ↦
        let later = find-append key j h r (rw other at e) in
        elim (Bool-cases (same_key i j)) [
          | inr differs ↦ rw differs later
          | inl agrees ↦ rw (agrees, same_key-pair i key j other agrees) refl
        ]
  ]

  picked :
      (b : Bool) (h : H) (o : Option H)
      → or_raise (if b then some h else o) handler_not_found
        ≡ (if b then ok h else or_raise o handler_not_found)
  picked true h o = refl
  picked false h o = refl

  got :
      (input_type other : String) (version v : ℤ) (h : H) (r : Registry H)
      → handler_key input_type version ≡ ok (input_type, version)
      → find (input_type, version) r ≡ none
      → get other v (r ++ ((input_type, version), h) ∷ [])
        ≡ (if same_key (input_type, version) (other, v) then ok h else get other v r)
  unfolding get
  got input_type other version v h r valid unused = elim (Result-cases (handler_key other v)) [
    | inr (x, e) ↦ elim (Bool-cases (same_key (input_type, version) (other, v))) [
      | inr differs ↦ rw e (rw differs refl)
      | inl agrees ↦
          let same = same_key-eq (input_type, version) (other, v) agrees in
          let clash : handler_key other v ≡ ok (input_type, version) =
            ap (λ k. handler_key k.0 k.1) (sym same) ∙ valid in
          (let broken : Path (Result (String × ℤ)) (err x) (ok (input_type, version)) =
              sym e ∙ clash in
            cc)
    ]
    | inl (key, e) ↦ rw e (
        rw (handler_key-valid other v key e) (
          rw (find-append (input_type, version) (other, v) h r unused)
            (picked (same_key (input_type, version) (other, v)) h (find (other, v) r))))
  ]

  -- After a registration that succeeds, a lookup by the registered type and version gives the new
  -- handler, and any other lookup ends as it ended before.
  pub register-get :
      (handler_id : H → String) (input_type other : String) (version v : ℤ) (h : H)
      (r s : Registry H)
      → register handler_id input_type version h r ≡ ok s
      → get other v s ≡ (if same_key (input_type, version) (other, v) then ok h else get other v r)
  unfolding register
  register-get handler_id input_type other version v h r s e =
      let (key, keyed, e₁) = >>=-eq-ok (handler_key input_type version) _ e in
      let (_, unused, e₂) = >>=-eq-ok (raise_if (is_some (find key r)) handler_registration) _ e₁ in
      let (_, _, e₃) = >>=-eq-ok (raise_if (is_empty (handler_id h)) handler_registration) _ e₂ in
      let same = handler_key-valid input_type version key keyed in
      let valid : handler_key input_type version ≡ ok (input_type, version) = keyed ∙ ap ok same in
      let free : find (input_type, version) r ≡ none =
        ap (λ k. find k r) (sym same) ∙ unused-none (find key r) _ unused in
      rw (sym (ok-injective e₃)) (rw same (got input_type other version v h r valid free))
