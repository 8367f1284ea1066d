-- ===== src/Events/Groups.antt =====
-- The groups that the constructor of a partition event accepts.
use painless_mesh_simulator.Prelude.{
  ℕ, suc, ◌≤◌, ◌≡◌, ◌≢◌, refl, ◌⊎◌, ◌↔◌, inl, inr, String, List, [], ◌∷◌, none, length, All, arith,
  Bool-cases, Option-cases, leb, leb→le,
}
use painless_mesh_simulator.Result.{ok, err, invalid_argument}
use painless_mesh_simulator.Platform.{Platform}
use painless_mesh_simulator.Events.{network_partition, empty_group, partition_event}

module _ ⦃p : Platform⦄ where
  empty_group_lem :
      (i : ℕ) (groups : List (List ℕ)) → (empty_group i groups ≡ none) ↔ All (λ g. g ≢ []) groups
  unfolding empty_group
  empty_group_lem i [] = ((λ h. tt), λ h. refl)
  empty_group_lem i ([] ∷ groups) = ((λ h. absurd (ground (arith, h))), λ h. absurd (h.0 refl))
  empty_group_lem i ((x ∷ xs) ∷ groups) =
      let (to, from) = empty_group_lem (suc i) groups in
      ((λ h. ((λ e. ground (arith, e)), to h)), λ h. from h.1)

  -- The constructor of the partition event accepts the groups if and only if there are at least two
  -- of them and none is empty. Else it throws `invalid_argument`.
  partition_event_lem :
      (groups : List (List ℕ))
      → ((partition_event groups ≡ ok (network_partition groups))
          ↔ ((2 ≤ length groups) × All (λ g. g ≢ []) groups))
        × ((partition_event groups ≡ ok (network_partition groups))
            ⊎ ((what : String) × (partition_event groups ≡ err (invalid_argument what))))
  unfolding partition_event
  partition_event_lem groups = elim (Bool-cases (leb 2 (length groups))) [
    | inl enough ↦ elim (Option-cases (empty_group 0 groups)) [
      | inl e ↦
          rw (enough, e, partition_event)
            (
              ((λ h. (leb→le 2 (length groups) enough, (empty_group_lem 0 groups).0 e)), λ h. refl),
              inl refl,
            )
      | inr (i, e) ↦
          rw (enough, e, partition_event)
            (
              (
                (λ h. absurd (ground (arith, h))),
                λ h. absurd (ground (arith, e, (empty_group_lem 0 groups).1 h.1)),
              ),
              inr (_, refl),
            )
    ]
    | inr few ↦
        rw (few, partition_event)
          (
            ((λ h. absurd (ground (arith, h))), λ h. absurd (ground (arith, few, h.0))),
            inr (_, refl),
          )
  ]
