-- ===== src/Result.antt =====
-- C++ exceptions as values: a call that may throw returns a `Result`.
use painless_mesh_simulator.Prelude.{String, Bool, true, false, ◌≡◌, refl, ap, ◌⊎◌, inl, inr}

-- std::invalid_argument, std::out_of_range, std::runtime_error and YAML::Exception, with the text of
-- what().
pub data Exception : Type 0 where
  invalid_argument : String → Exception
  out_of_range : String → Exception
  runtime_error : String → Exception
  yaml_exception : String → Exception

pub data Result {ℓ} (A : Type ℓ) : Type ℓ where
  ok : A → Result A
  err : Exception → Result A

-- What follows a call runs if the call returned.
infixl 5 ◌>>=◌
abbrev pub ◌>>=◌ {ℓ ν} : {S : Type ℓ} {T : Type ν} → Result S → (S → Result T) → Result T
err e >>= follow = err e
ok s >>= follow = follow s

infixl 5 ◌>>◌
abbrev pub ◌>>◌ {ν} : {T : Type ν} → Result (Unit {0}) → Result T → Result T
first >> second = first >>= λ done. second

-- if (!holds) throw e;
abbrev pub require : Bool → Exception → Result (Unit {0})
require false e = err e
require true e = ok tt

-- A call that changes a state of the type `S`, and may throw after a part of its changes.
abbrev pub Step {ℓ} : Type ℓ → Type ℓ
Step S = S → Result (Unit {0}) × S

-- `f; g`: an exception of `f` leaves `g` out.
infixl 5 ◌⨾◌
abbrev pub ◌⨾◌ {ℓ} : {S : Type ℓ} → Step S → Step S → Step S
◌⨾◌ f g s = let (r, s') = f s in elim r [ ok u ↦ g s' | err e ↦ (err e, s') ]

-- A call that does not throw.
abbrev pub always {ℓ} : {S : Type ℓ} → (S → S) → Step S
always f s = (ok tt, f s)

-- A call that throws and then changes nothing, as the setters of the network do.
abbrev pub checked {ℓ} : {S : Type ℓ} → (S → Result S) → Step S
checked f s = elim (f s) [ ok s' ↦ (ok tt, s') | err e ↦ (err e, s) ]

pub Result-cases {ℓ} :
    {A : Type ℓ} (r : Result A) → ((a : A) × (r ≡ ok a)) ⊎ ((e : Exception) × (r ≡ err e))
Result-cases (ok a) = inl (a, refl)
Result-cases (err e) = inr (e, refl)

module _ {ℓ ν} {S : Type ℓ} {T : Type ν} where
  -- No exception reached the caller, so neither the first call nor what follows it threw one.
  pub both_returned :
      (first : Result S) (follow : S → Result T) {t : T}
      → (first >>= follow) ≡ ok t
      → (s : S) × (first ≡ ok s) × (follow s ≡ ok t)
  both_returned (err e) follow returned = cc
  both_returned (ok s) follow returned = (s, refl, returned)

module _ {ℓ} {S : Type ℓ} where
  pub checked-ok : (f : S → Result S) {s s' : S} → f s ≡ ok s' → checked f s ≡ (ok tt, s')
  checked-ok f e = rw (checked, e) refl

  pub checked-err :
      (f : S → Result S) {s : S} {x : Exception} → f s ≡ err x → checked f s ≡ (err x, s)
  checked-err f e = rw (checked, e) refl

  pub then-ok :
      (f g : Step S) {s s' : S} {r : Result (Unit {0}) × S}
      → f s ≡ (ok tt, s')
      → g s' ≡ r
      → (f ⨾ g) s ≡ r
  then-ok f g e h = rw (◌⨾◌, e, ap (λ t. t.1) e) h

  pub then-err :
      (f g : Step S) {s s' : S} {x : Exception} → f s ≡ (err x, s') → (f ⨾ g) s ≡ (err x, s')
  then-err f g e = rw (◌⨾◌, e, ap (λ t. t.1) e) refl
