-- ===== src/Firmware/Factory/Refinement.antt =====
-- The registry of firmware classes is a table of which the first registration of a name counts.
use mathlib.Core.Path.{ap₂}
use painless_mesh_simulator.Prelude.{
  String, Bool, true, false, not, List, [], ◌∷◌, Option, none, some, ◌≡◌, refl, arith,
  if◌then◌else◌, ◌||◌, ◌∙◌, ap, Option-cases, inl, inr,
}
use painless_mesh_simulator.StdMap
use painless_mesh_simulator.StdMap.TextOrder.{text_key}
use painless_mesh_simulator.StdMap.{StdMap, same}
use painless_mesh_simulator.StdMap.Laws.{
  IsSorted, insert-IsSorted, erase-IsSorted, find-insert, find-erase,
}
use painless_mesh_simulator.Firmware.Factory.{
  FirmwareFactory, register_firmware, create, is_registered, get_registered_names,
  unregister_firmware, clear,
}

pub data FactoryCall (F : Type 0) : Type 0 where
  register : String → F → FactoryCall F
  unregister : String → FactoryCall F
  clear_all : FactoryCall F

abbrev pub is_some {ℓ} : {A : Type ℓ} → Option A → Bool
is_some none = false
is_some (some a) = true

-- A name stands in a list of names.
abbrev pub listed : String → List String → Bool
listed name [] = false
listed name (n ∷ names) = same name n || listed name names

module _ {F : Type 0} where
  -- The calls one after the other, with the results of those that have one.
  pub run : List (FactoryCall F) → FirmwareFactory F → List Bool × FirmwareFactory F
  run [] creators = ([], creators)
  run (register name creator ∷ calls) creators =
      let (done, after) = register_firmware name creator creators in
      let (results, last) = run calls after in (done ∷ results, last)
  run (unregister name ∷ calls) creators =
      let (done, after) = unregister_firmware name creators in
      let (results, last) = run calls after in (done ∷ results, last)
  run (clear_all ∷ calls) creators = run calls (clear creators)

  abbrev put : String → Option F → (String → Option F) → String → Option F
  put name value table q = if same q name then value else table q

  -- What the registry promises, as a table of creators.
  pub promised : List (FactoryCall F) → (String → Option F) → List Bool × (String → Option F)
  promised [] table = ([], table)
  promised (register name creator ∷ calls) table =
      let kept = if is_some (table name) then table else put name (some creator) table in
      let (results, last) = promised calls kept in (not (is_some (table name)) ∷ results, last)
  promised (unregister name ∷ calls) table =
      let (results, last) = promised calls (put name none table) in
      (is_some (table name) ∷ results, last)
  promised (clear_all ∷ calls) table = promised calls (λ q. none)

  abbrev Refines : FirmwareFactory F → (String → Option F) → Type 0
  Refines creators table =
      IsSorted creators × ((name : String) → StdMap.find name creators ≡ table name)

  contains-of_find :
      (name : String) (creators : FirmwareFactory F) {r : Option F}
      → StdMap.find name creators ≡ r
      → StdMap.contains name creators ≡ is_some r
  unfolding StdMap.contains
  contains-of_find name creators e = ground (arith, e)

  register-Refines :
      (name : String) (creator : F) (creators : FirmwareFactory F) (table : String → Option F)
      → Refines creators table
      → let (done, after) = register_firmware name creator creators in
        (done ≡ not (is_some (table name)))
        × Refines after (if is_some (table name) then table else put name (some creator) table)
  unfolding register_firmware
  register-Refines name creator creators table (sorted, reads) = elim (Option-cases (table name)) [
    | inl fresh ↦
        rw (contains-of_find name creators (reads name), fresh)
          (
            refl,
            (
              insert-IsSorted name creator creators sorted,
              λ q. rw (find-insert q name creator creators, reads q) refl,
            ),
          )
    | inr (c, known) ↦
        rw (contains-of_find name creators (reads name), known) (refl, (sorted, reads))
  ]

  unregister-Refines :
      (name : String) (creators : FirmwareFactory F) (table : String → Option F)
      → Refines creators table
      → let (done, after) = unregister_firmware name creators in
        (done ≡ is_some (table name)) × Refines after (put name none table)
  unfolding unregister_firmware
  unregister-Refines name creators table (sorted, reads) = (
    contains-of_find name creators (reads name),
    (erase-IsSorted name creators sorted, λ q. rw (find-erase q name creators, reads q) refl),
  )

  run-Refines :
      (calls : List (FactoryCall F)) (creators : FirmwareFactory F) (table : String → Option F)
      → Refines creators table
      → ((run calls creators).0 ≡ (promised calls table).0)
        × Refines (run calls creators).1 (promised calls table).1
  unfolding run promised clear StdMap.find
  run-Refines [] creators table h = (refl, h)
  run-Refines (register name creator ∷ calls) creators table h =
      let step = register-Refines name creator creators table h in
      let rest = run-Refines calls _ _ step.1 in (ap₂ ◌∷◌ step.0 rest.0, rest.1)
  run-Refines (unregister name ∷ calls) creators table h =
      let step = unregister-Refines name creators table h in
      let rest = run-Refines calls _ _ step.1 in (ap₂ ◌∷◌ step.0 rest.0, rest.1)
  run-Refines (clear_all ∷ calls) creators table h =
      run-Refines calls [] (λ q. none) (tt, λ q. refl)

  listed-find :
      (name : String) (creators : FirmwareFactory F)
      → listed name (get_registered_names creators) ≡ is_some (StdMap.find name creators)
  unfolding get_registered_names StdMap.find
  listed-find name [] = refl
  listed-find name ((j, v) ∷ creators) = ground (arith, listed-find name creators)

  -- After any calls of `registerFirmware`, `unregisterFirmware` and `clear` on an empty factory, their
  -- results and the factory are those of a table in which the first registration of a name counts
  -- until it is taken out: `create` returns the creator of the table, or nothing, and a name is
  -- registered, and listed by `getRegisteredNames`, exactly when the table has a creator for it. The
  -- names are in rising order, each once.
  pub factory_refines :
      (calls : List (FactoryCall F))
      → let (results, creators) = run calls [] in
        let (expected, table) = promised calls (λ q. none) in
        (results ≡ expected)
        × ((name : String)
            → (create name creators ≡ table name)
              × (is_registered name creators ≡ is_some (table name))
              × (listed name (get_registered_names creators) ≡ is_some (table name)))
        × IsSorted creators
  unfolding create is_registered StdMap.find
  factory_refines calls =
      let (same_results, (sorted, reads)) = run-Refines calls [] (λ q. none) (tt, λ q. refl) in
      (
        same_results,
        λ name. (
          reads name,
          contains-of_find name _ (reads name),
          listed-find name _ ∙ ap is_some (reads name),
        ),
        sorted,
      )
