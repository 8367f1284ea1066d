-- ===== src/Program/Created.antt =====
-- The exit code behind the creation of the nodes of a scenario.
use painless_mesh_simulator.Prelude.{
  ℕ, ◌≡◌, ◌≢◌, ◌↔◌, inl, inr, refl, ◌∙◌, sym, ap, true, false, List, [], ◌∷◌, Option, none, some,
  arith,
}
use painless_mesh_simulator.Result.{Exception, Result, ok, err, Result-cases}
use painless_mesh_simulator.Platform.{Platform}
use painless_mesh_simulator.Devices.{Devices}
use painless_mesh_simulator.NodeManager.{NodeManager, node_manager}
use painless_mesh_simulator.Scenario.{ScenarioConfig, ValidationError}
use painless_mesh_simulator.Scenario.Validation.{get_validation_errors}
use painless_mesh_simulator.Scenario.ValidScenario.{IsValidScenario}
use painless_mesh_simulator.Scenario.NoErrors.{no_errors_iff_valid}
use painless_mesh_simulator.Program.{no_errors, create_nodes, launch_nodes}
use painless_mesh_simulator.Program.Launch.{HaveIds, create_nodes-HaveIds}
use painless_mesh_simulator.Program.Simulation.{simulate, IsStopped, simulate-IsStopped}
use painless_mesh_simulator.Program.Run.{Surroundings, exit_code, run_launched}

-- The exit code of a run is 2 exactly without the first property, and 0 exactly with both.
abbrev pub Codes : Option ℕ → Type 0 → Type 0 → Type 0
Codes code V S = ((code ≡ some 2) ↔ ¬ V) × ((code ≡ some 0) ↔ (V × S))

two_or_other : {V : Type 0} {code : Option ℕ} → V → code ≢ some 2 → (code ≡ some 2) ↔ ¬ V
two_or_other v n = ((λ e. absurd (n e)), (λ h. absurd (h v)))

two_is_not_zero : ◌≡◌ {A = Option ℕ} (some 2) (some 0) → ⊥
two_is_not_zero e = ground (arith, e)

module _ {V S : Type 0} where
  pub Codes-two : ¬ V → Codes (some 2) V S
  Codes-two h =
      (((λ e. h), (λ h. refl)), ((λ e. absurd (two_is_not_zero e)), (λ t. absurd (h t.0))))

  pub Codes-zero : V → S → Codes (some 0) V S
  Codes-zero v s = (two_or_other v (λ e. two_is_not_zero (sym e)), ((λ e. (v, s)), (λ t. refl)))

  pub Codes-other : {code : Option ℕ} → V → ¬ S → code ≢ some 2 → code ≢ some 0 → Codes code V S
  Codes-other v h two zero = (two_or_other v two, ((λ e. absurd (zero e)), (λ t. absurd (h t.1))))

module _ ⦃p : Platform⦄ ⦃d : Devices⦄ where
  pub valid_of_errors :
      (config : ScenarioConfig) (errors : List ValidationError)
      → get_validation_errors config ≡ errors
      → no_errors errors ≡ true
      → IsValidScenario config
  valid_of_errors config [] e h = (no_errors_iff_valid config).0 e
  valid_of_errors config (x ∷ errors) e h = cc

  pub errors_of_invalid :
      (config : ScenarioConfig) (errors : List ValidationError)
      → get_validation_errors config ≡ errors
      → no_errors errors ≡ false
      → ¬ IsValidScenario config
  errors_of_invalid config [] e h = cc
  errors_of_invalid config (x ∷ errors) e h =
      λ v. none_found (sym e ∙ (no_errors_iff_valid config).1 v)
    where
      none_found : (x ∷ errors) ≢ []
      none_found h = cc

  -- The nodes of a scenario were created, and the simulation of them ended.
  pub record Simulated (w : Surroundings) (config : ScenarioConfig) : Type 0 where
    pub manager : NodeManager
    pub last : NodeManager
    pub count : ℕ
    pub created : create_nodes w.clock config.nodes node_manager ≡ ok manager
    pub have_ids : HaveIds config.nodes
    pub ended :
        simulate w.started w.stopped w.rand config.simulation.duration w.ticks manager
        ≡ some (ok (count, last))
    pub stopped : IsStopped last

  same_manager : {m n : NodeManager} → ◌≡◌ {A = Result NodeManager} (ok m) (ok n) → m ≡ n
  same_manager h = cc

  not_ended :
      (w : Surroundings) (config : ScenarioConfig) (manager : NodeManager)
      (result : Option (Result (ℕ × NodeManager)))
      → create_nodes w.clock config.nodes node_manager ≡ ok manager
      → simulate w.started w.stopped w.rand config.simulation.duration w.ticks manager ≡ result
      → ((count : ℕ) (last : NodeManager) → result ≢ some (ok (count, last)))
      → ¬ Simulated w config
  not_ended w config manager result made e n s =
      let same = same_manager (sym made ∙ s.created) in
      n s.count s.last (
        sym e
        ∙ ap (simulate w.started w.stopped w.rand config.simulation.duration w.ticks) same
        ∙ s.ended)

  -- The simulation of the created nodes, by what it returns.
  result_codes :
      (w : Surroundings) (config : ScenarioConfig) (manager : NodeManager)
      (result : Option (Result (ℕ × NodeManager)))
      → IsValidScenario config
      → create_nodes w.clock config.nodes node_manager ≡ ok manager
      → simulate w.started w.stopped w.rand config.simulation.duration w.ticks manager ≡ result
      → Codes (exit_code result) (IsValidScenario config) (Simulated w config)
  unfolding exit_code
  result_codes w config manager none valid made e =
      Codes-other valid (not_ended w config manager none made e (λ c l h. cc)) (λ h. cc) (λ h. cc)
  result_codes w config manager (some (err x)) valid made e =
      Codes-other valid (not_ended w config manager _ made e (λ c l h. cc)) (λ h. ground (arith, h))
        (λ h. ground (arith, h))
  result_codes w config manager (some (ok (count, last))) valid made e = Codes-zero valid (record {
    manager = manager;
    last = last;
    count = count;
    created = made;
    have_ids = (create_nodes-HaveIds w.clock config.nodes node_manager manager made).0;
    ended = e;
    stopped =
        simulate-IsStopped w.started w.stopped config.simulation.duration w.rand w.ticks manager
          last count e;
  })

  pub launched_codes :
      (w : Surroundings) (config : ScenarioConfig)
      → IsValidScenario config
      → Codes
          (run_launched w config.simulation.duration (launch_nodes w.clock config.nodes))
          (IsValidScenario config)
          (Simulated w config)
  unfolding run_launched launch_nodes
  launched_codes w config valid =
      elim (Result-cases (create_nodes w.clock config.nodes node_manager)) [
        | inl (manager, made) ↦
            rw (run_launched, launch_nodes, made) (result_codes w config manager _ valid made refl)
        | inr (x, failed) ↦
            rw (run_launched, launch_nodes, failed)
              (Codes-other valid (λ s. not_made (sym failed ∙ s.created)) (λ h. ground (arith, h))
                (λ h. ground (arith, h)))
      ]
    where
      not_made : {x : Exception} {m : NodeManager} → ◌≡◌ {A = Result NodeManager} (err x) (ok m) → ⊥
      not_made h = cc
