-- ===== src/Scenario/Checks.antt =====
-- One check of the validation reports nothing if and only if its condition holds.
use painless_mesh_simulator.Prelude.{
  ℕ, suc, subst, ◌≤◌, ◌≡◌, ◌≢◌, refl, sym, ◌⊎◌, inl, inr, Bool, true, false, not, ◌&&◌, String,
  List, [], ◌∷◌, ◌++◌, Option, none, some, All, arith, str_eq, eq_iff, ◌==◌, ltb, Bool-cases, ◌↔◌,
}
use painless_mesh_simulator.Network.Config.{LatencyConfig, is_valid_latency}
use painless_mesh_simulator.Scenario.{ConnectionLatencyConfig, NodeConfigExtended, ValidationError}
use painless_mesh_simulator.Scenario.Validation.{
  report, empty, has_id, for_each, for_each_at, validate_ends, validate_latency_at, validate_node,
  duplicate_ids, validate_connection, no_elements, validate_hub,
}
use painless_mesh_simulator.Scenario.ValidScenario.{Listed, Distinct, IsNamed, IsLatency, IsNode}

pub append-both :
    {P Q : Type 0} (xs ys : List ValidationError)
    → ((xs ≡ []) ↔ P)
    → ((ys ≡ []) ↔ Q)
    → ((xs ++ ys ≡ []) ↔ (P × Q))
append-both [] ys (p, _) (q, q') = ((λ h. (p refl, q h)), λ (x, y). q' y)
append-both (x ∷ xs) ys (_, p') _ =
    ((λ h. absurd (ground (arith, h))), λ (x, y). absurd (ground (arith, p' x)))

pub append-three :
    {P Q R : Type 0} (xs ys zs : List ValidationError)
    → ((xs ≡ []) ↔ P)
    → ((ys ≡ []) ↔ Q)
    → ((zs ≡ []) ↔ R)
    → ((xs ++ ys ++ zs ≡ []) ↔ (P × Q × R))
append-three xs ys zs p q r =
    let (to, from) = append-both (xs ++ ys) zs (append-both xs ys p q) r in
    ((λ h. let ((a, b), c) = to h in (a, b, c)), λ (a, b, c). from ((a, b), c))

pub append-four :
    {P Q R S : Type 0} (xs ys zs ws : List ValidationError)
    → ((xs ≡ []) ↔ P)
    → ((ys ≡ []) ↔ Q)
    → ((zs ≡ []) ↔ R)
    → ((ws ≡ []) ↔ S)
    → ((xs ++ ys ++ zs ++ ws ≡ []) ↔ (P × Q × R × S))
append-four xs ys zs ws p q r s =
    let (to, from) = append-both (xs ++ ys ++ zs) ws (append-three xs ys zs p q r) s in
    ((λ h. let ((a, b, c), d) = to h in (a, b, c, d)), λ (a, b, c, d). from ((a, b, c), d))

pub report-test :
    {P : Type 0} (bad : Bool) (f m s : String) → ((bad ≡ false) ↔ P) → ((report bad f m s ≡ []) ↔ P)
report-test true f m s (p, p') =
    ((λ h. absurd (ground (arith, h))), λ x. absurd (ground (arith, p' x)))
report-test false f m s (p, p') = ((λ h. p refl), λ x. refl)

pub for_each-All :
    {A : Type 0} {P : A → Type 0} (f : A → List ValidationError) (xs : List A)
    → ((x : A) → (f x ≡ []) ↔ P x)
    → ((for_each f xs ≡ []) ↔ All P xs)
for_each-All f [] h = ((λ e. tt), λ e. refl)
for_each-All f (x ∷ xs) h = append-both (f x) (for_each f xs) (h x) (for_each-All f xs h)

pub for_each_at-All :
    {A : Type 0} {P : A → Type 0} (f : ℕ → A → List ValidationError) (i : ℕ) (xs : List A)
    → ((i : ℕ) (x : A) → (f i x ≡ []) ↔ P x)
    → ((for_each_at f i xs ≡ []) ↔ All P xs)
for_each_at-All f i [] h = ((λ e. tt), λ e. refl)
for_each_at-All f i (x ∷ xs) h =
    append-both (f i x) (for_each_at f (suc i) xs) (h i x) (for_each_at-All f (suc i) xs h)

pub empty-lem : (s : String) → (empty s ≡ false) ↔ (s ≢ "")
empty-lem s = ((λ h. ground (arith, h, eq_iff s "")), λ h. ground (arith, h, eq_iff s ""))

pub zero-lem : (n : ℕ) → ((n == 0) ≡ false) ↔ (n ≢ 0)
zero-lem n = ((λ h. ground (arith, h)), λ h. ground (arith, h))

pub not-lem : (b : Bool) → (not b ≡ false) ↔ (b ≡ true)
not-lem b = ((λ h. ground (arith, h)), λ h. ground (arith, h))

has_id-Listed : (s : String) (ids : List String) → (has_id s ids ≡ true) ↔ Listed s ids
has_id-Listed s [] = ((λ h. absurd (ground (arith, h))), λ h. absurd h)
has_id-Listed s (x ∷ xs) = (
  (λ h. elim (Bool-cases (str_eq x s)) [
    | inl t ↦ inl ((eq_iff x s).0 t)
    | inr t ↦ inr ((has_id-Listed s xs).0 (ground (arith, t, h)))
  ]),
  λ h. elim h [
    | inl e ↦ ground (arith, (eq_iff x s).1 e)
    | inr l ↦ ground (arith, (has_id-Listed s xs).1 l)
  ],
)

pub validate_ends-IsNamed :
    (part : String) (i : ℕ) (from to : String)
    → (validate_ends part i from to ≡ []) ↔ IsNamed from to
unfolding validate_ends
validate_ends-IsNamed part i from to =
    append-both _ _ (report-test (empty from) _ _ _ (empty-lem from))
      (report-test (empty to) _ _ _ (empty-lem to))

pub is_valid_latency-IsLatency :
    (c : LatencyConfig) → (not (is_valid_latency c) ≡ false) ↔ IsLatency c
is_valid_latency-IsLatency c = ((λ h. ground (arith, h)), λ h. ground (arith, h))

pub validate_latency_at-lem :
    (i : ℕ) (c : ConnectionLatencyConfig)
    → (validate_latency_at i c ≡ []) ↔ (IsNamed c.from c.to × IsLatency c.config)
unfolding validate_latency_at
validate_latency_at-lem i c =
    append-both _ _ (validate_ends-IsNamed "latency" i c.from c.to)
      (report-test (not (is_valid_latency c.config)) _ _ _ (is_valid_latency-IsLatency c.config))

pub validate_node-IsNode : (n : NodeConfigExtended) → (validate_node n ≡ []) ↔ IsNode n
unfolding validate_node
validate_node-IsNode n =
    append-four _ _ _ _ (report-test (empty n.id) _ _ _ (empty-lem n.id))
      (report-test (empty n.mesh_prefix) _ _ _ (empty-lem n.mesh_prefix))
      (report-test (empty n.mesh_password) _ _ _ (empty-lem n.mesh_password))
      (report-test (n.mesh_port == 0) _ _ _ (zero-lem n.mesh_port))

has_id-not : (s : String) (ids : List String) → (has_id s ids ≡ false) ↔ (¬ Listed s ids)
has_id-not s ids = (
  (λ h l. ground (arith, h, (has_id-Listed s ids).1 l)),
  λ n. elim (Bool-cases (has_id s ids)) [
    | inl t ↦ absurd (n ((has_id-Listed s ids).0 t))
    | inr t ↦ t
  ],
)

-- None of the identifiers is one of those seen before.
abbrev Unseen : List String → List String → Type 0
Unseen seen ids = All (λ id. ¬ Listed id seen) ids

Unseen-cons :
    (id : String) (seen ids : List String)
    → Unseen seen ids
    → ¬ Listed id ids
    → Unseen (id ∷ seen) ids
Unseen-cons id seen [] u n = tt
Unseen-cons id seen (x ∷ xs) u n = (
  (λ l. elim l [ inl e ↦ n (inl (sym e)) | inr k ↦ u.0 k ]),
  Unseen-cons id seen xs u.1 (λ l. n (inr l)),
)

Unseen-head : (id : String) (seen ids : List String) → Unseen (id ∷ seen) ids → ¬ Listed id ids
Unseen-head id seen [] u l = l
Unseen-head id seen (x ∷ xs) u l = elim l [
  | inl e ↦ u.0 (inl (sym e))
  | inr k ↦ Unseen-head id seen xs u.1 k
]

Unseen-tail : (id : String) (seen ids : List String) → Unseen (id ∷ seen) ids → Unseen seen ids
Unseen-tail id seen [] u = tt
Unseen-tail id seen (x ∷ xs) u = ((λ l. u.0 (inr l)), Unseen-tail id seen xs u.1)

duplicate_ids-Unseen :
    (seen ids : List String) → (duplicate_ids seen ids ≡ []) ↔ (Unseen seen ids × Distinct ids)
unfolding duplicate_ids
duplicate_ids-Unseen seen [] = ((λ h. (tt, tt)), λ h. refl)
duplicate_ids-Unseen seen (id ∷ ids) =
    let (to, from) =
      append-both _ _ (report-test (has_id id seen) _ _ _ (has_id-not id seen))
        (duplicate_ids-Unseen (id ∷ seen) ids) in
    (
      (λ h.
          let (new, (unseen, distinct)) = to h in
          ((new, Unseen-tail id seen ids unseen), (Unseen-head id seen ids unseen, distinct))),
      λ ((new, unseen), (first, distinct)).
          from (new, (Unseen-cons id seen ids unseen first, distinct)),
    )

Unseen-nil : (ids : List String) → Unseen [] ids
Unseen-nil [] = tt
Unseen-nil (x ∷ xs) = ((λ l. l), Unseen-nil xs)

pub duplicate_ids-Distinct : (ids : List String) → (duplicate_ids [] ids ≡ []) ↔ Distinct ids
duplicate_ids-Distinct ids = (
  (λ h. ((duplicate_ids-Unseen [] ids).0 h).1),
  λ d. (duplicate_ids-Unseen [] ids).1 (Unseen-nil ids, d),
)

has_id-missing : (s : String) (ids : List String) → (not (has_id s ids) ≡ false) ↔ Listed s ids
has_id-missing s ids = (
  (λ h. (has_id-Listed s ids).0 (ground (arith, h))),
  λ l. ground (arith, (has_id-Listed s ids).1 l),
)

pub validate_connection-Listed :
    (ids : List String) (c : String × String)
    → (validate_connection ids c ≡ []) ↔ (Listed c.0 ids × Listed c.1 ids)
unfolding validate_connection
validate_connection-Listed ids (a, b) =
    append-both _ _ (report-test (not (has_id a ids)) _ _ _ (has_id-missing a ids))
      (report-test (not (has_id b ids)) _ _ _ (has_id-missing b ids))

some_injective : {h k : String} → some h ≡ some k → k ≡ h
some_injective e = ground (arith, e)

pub validate_hub-lem :
    (hub : Option String) (ids : List String)
    → (validate_hub hub ids ≡ []) ↔ ((h : String) × (hub ≡ some h) × Listed h ids)
unfolding validate_hub
validate_hub-lem none ids =
    ((λ e. absurd (ground (arith, e))), λ (h, e, l). absurd (ground (arith, e)))
validate_hub-lem (some hub) ids =
    let (to, from) = report-test (not (has_id hub ids)) _ _ _ (has_id-missing hub ids) in
    ((λ e. (hub, refl, to e)), λ (h, e, l). from (subst (λ x. Listed x ids) (some_injective e) l))

pub no_elements-lem : {A : Type 0} (xs : List A) → (no_elements xs ≡ false) ↔ (xs ≢ [])
no_elements-lem [] = ((λ h. absurd (ground (arith, h))), λ n. absurd (n refl))
no_elements-lem (x ∷ xs) = ((λ h e. ground (arith, e)), λ n. refl)

pub same_test : (b : Bool) → (b ≡ false) ↔ (b ≡ false)
same_test b = ((λ h. h), λ h. h)

pub late-lem :
    (duration time : ℕ)
    → ((ltb 0 duration && ltb duration time) ≡ false) ↔ ((duration ≡ 0) ⊎ (time ≤ duration))
late-lem duration time = (
  (λ h. elim (Bool-cases (ltb 0 duration)) [
    | inl t ↦ inr (ground (arith, t, h))
    | inr t ↦ inl (ground (arith, t))
  ]),
  λ h. elim h [ inl e ↦ ground (arith, e) | inr l ↦ ground (arith, l) ],
)

pub target-lem :
    (target : String) (ids : List String)
    → ((not (empty target) && not (has_id target ids)) ≡ false)
      ↔ ((target ≡ "") ⊎ Listed target ids)
target-lem target ids = (
  (λ h. elim (Bool-cases (empty target)) [
    | inl t ↦ inl ((eq_iff target "").0 t)
    | inr t ↦ inr ((has_id-Listed target ids).0 (ground (arith, t, h)))
  ]),
  λ h. elim h [
    | inl e ↦ ground (arith, (eq_iff target "").1 e)
    | inr l ↦ ground (arith, (has_id-Listed target ids).1 l)
  ],
)
