-- ===== src/Scenario/Reader/Chosen.antt =====
-- Where a value that the reader returns comes from: what stands under a key, or a default.
use painless_mesh_simulator.Prelude.{
  String, ◌≡◌, refl, ◌∙◌, ap, sym, ◌⊎◌, inl, inr, List, [], ◌∷◌, Option, none, some, subst,
}
use painless_mesh_simulator.Platform.{Platform}
use painless_mesh_simulator.Result.{Exception, Result, ok, err, both_returned}
use painless_mesh_simulator.Text.Lower.{lower}
use painless_mesh_simulator.Network.Config.{DistributionType}
use painless_mesh_simulator.Scenario.Reader.Yaml.{Yaml, get, read_each, sequence_at}
use painless_mesh_simulator.Scenario.Reader.Names.{
  distribution_type_to_string, string_to_distribution_type,
}
use painless_mesh_simulator.Scenario.Reader.NetworkSection.{distribution_or}

-- The name of a distribution is read as that distribution.
distribution_named :
    (d fallback : DistributionType) → distribution_or fallback (distribution_type_to_string d) ≡ d
unfolding distribution_or string_to_distribution_type distribution_type_to_string lower
distribution_named DistributionType.uniform fallback = refl
distribution_named DistributionType.normal fallback = refl
distribution_named DistributionType.exponential fallback = refl

module _ ⦃p : Platform⦄ ⦃y : Yaml⦄ where
  -- A value is the default where the key is missing, and else what stands under the key.
  abbrev pub Chosen : {A : Type 0} → (y.Node → Result A) → y.Node → String → A → A → Type 0
  Chosen read node key default value =
      ((y.at node key ≡ ok none) × (value ≡ default))
      ⊎ ((inner : y.Node) × (y.at node key ≡ ok (some inner)) × (read inner ≡ ok value))

  pub get-Chosen :
      {A : Type 0} (read : y.Node → Result A) (node : y.Node) (key : String) (default value : A)
      → get read node key default ≡ ok value
      → Chosen read node key default value
  unfolding get
  get-Chosen read node key default value h =
      let (found, at_key, rest) = both_returned (y.at node key) _ h in chosen found at_key rest
    where
      chosen :
          (found : Option y.Node)
          → y.at node key ≡ ok found
          → (elim found [ none ↦ ok default | some inner ↦ read inner ]) ≡ ok value
          → Chosen read node key default value
      chosen none e r = inl (e, (cc))
      chosen (some inner) e r = inr (inner, e, r)

  -- The value of a result that is known.
  pub value_of : {A : Type 0} {a b : A} → ok a ≡ ok b → b ≡ a
  value_of h = cc

  -- A distribution is the default's where the key is missing or the name under it is not known, and
  -- else the one with this name.
  abbrev pub DistributionChosen : y.Node → DistributionType → DistributionType → Type 0
  DistributionChosen node default value =
      ((y.at node "distribution" ≡ ok none) × (value ≡ default))
      ⊎ ((inner : y.Node) × (name : String) × (y.at node "distribution" ≡ ok (some inner))
          × (y.as_string inner ≡ ok name)
          × ((string_to_distribution_type name ≡ ok value)
              ⊎ ((e : Exception) × (string_to_distribution_type name ≡ err e) × (value ≡ default))))

  pub name-DistributionChosen :
      (node : y.Node) (default : DistributionType) (name : String)
      → Chosen y.as_string node "distribution" (distribution_type_to_string default) name
      → DistributionChosen node default (distribution_or default name)
  unfolding distribution_or
  name-DistributionChosen node default name (inl (missing, e)) =
      inl (missing, ap (distribution_or default) e ∙ distribution_named default default)
  name-DistributionChosen node default name (inr (inner, found, read)) =
      inr (inner, name, found, read, known (string_to_distribution_type name) refl)
    where
      known :
          (r : Result DistributionType)
          → string_to_distribution_type name ≡ r
          → (string_to_distribution_type name ≡ ok (elim r [ ok d ↦ d | err e ↦ default ]))
            ⊎ ((e : Exception) × (string_to_distribution_type name ≡ err e)
                × ((elim r [ ok d ↦ d | err e ↦ default ]) ≡ default))
      known (ok d) e = inl e
      known (err x) e = inr (x, e, refl)

  -- The items of a sequence and what was read from them, one by one.
  abbrev pub Each : {C : Type 0} → (y.Node → C → Type 0) → List y.Node → List C → Type 0
  Each P [] [] = Unit
  Each P (n ∷ ns) (c ∷ cs) = P n c × Each P ns cs
  Each P ns cs = ⊥

  pub read_each-Each :
      {C : Type 0} (P : y.Node → C → Type 0) (read : y.Node → Result C)
      → ((n : y.Node) (c : C) → read n ≡ ok c → P n c)
      → (items : List y.Node) (cs : List C) → read_each read items ≡ ok cs
      → Each P items cs
  unfolding read_each
  read_each-Each P read f [] cs h = subst (Each P []) (sym (value_of h)) tt
  read_each-Each P read f (n ∷ ns) cs h =
      let (c, e1, h1) = both_returned (read n) _ h in
      let (rest, e2, h2) = both_returned (read_each read ns) _ h1 in
      subst (Each P (n ∷ ns)) (sym (value_of h2)) (f n c e1, read_each-Each P read f ns rest e2)

  -- The connections of a section and the settings that were read for them.
  abbrev pub ConnectionsOf : {C : Type 0} → (y.Node → C → Type 0) → y.Node → List C → Type 0
  ConnectionsOf P section specific =
      (items : List y.Node) × (sequence_at section "specific_connections" ≡ ok items)
      × Each P items specific
