-- ===== src/Verl/Knowledge/Ranked.antt =====
-- The entries that `GetKnowledgeDefinitionTool` of verl_tools.py finds, and their order.
use drift_sql.Prelude.{
  ℕ, min, String, ◌≡◌, ◌⊎◌, true, false, List, map, length, keep, All, Any, IsRanked,
}
use drift_sql.Python.{Python}
use drift_sql.Python.Values.{Fields}
use drift_sql.Verl.Knowledge.{Hit, is_better, is_hit, hit}

module _ (py : Python) where
  -- These are the best entries: as many as match, but at most `n`, each one is an entry that
  -- matches, the better ones first, and a match that is left out is better than none of them.
  unfoldable pub IsBest : ℕ → String → List Fields → List Hit → Type 0
  unfolding hit
  IsBest n query entries found =
      (length found ≡ min n (length (keep is_hit (map (hit py query) entries))))
      × All (λ h. Any (λ e. hit py query e ≡ h) entries × (is_hit h ≡ true)) found
      × IsRanked is_better found
      × All (λ h. Any (λ f. f ≡ h) found ⊎ All (λ f. is_better h f ≡ false) found)
          (keep is_hit (map (hit py query) entries))
