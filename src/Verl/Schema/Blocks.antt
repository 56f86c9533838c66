-- ===== src/Verl/Schema/Blocks.antt =====
-- Which blocks of the schema a query retrieves, and in which order.
use drift_sql.Prelude.{
  String, ◌≡◌, refl, ap, ◌∙◌, ◌⊎◌, inl, inr, Bool, true, false, List, [], ◌∷◌, arith, ltb, keep,
  All, Any, Any-map, All-keep, keep_sound, ranked, IsRanked, All-ranked, All-ranked_inv,
  ranked-IsRanked, keep-IsRanked, All-self, All-keep_empty, All-kept, All-and,
}
use drift_sql.Python.{Python}
use drift_sql.Verl.Terms.{is_blank}
use drift_sql.Verl.Schema.{common_terms, shares_more, matching_blocks}

module _ (py : Python) where
  abbrev matches : String → String → Bool
  matches query block = ltb 0 (common_terms py query block)

  shares_more_exclusive :
      (query a b : String) → shares_more py query a b ≡ true → shares_more py query b a ≡ false
  shares_more_exclusive query a b h = ground arith

  shares_more_chained :
      (query a b c : String)
      → shares_more py query a b ≡ false
      → shares_more py query b c ≡ false
      → shares_more py query a c ≡ false
  shares_more_chained query a b c h k = ground arith

  -- What the retrieval returns for a query: the best first, and either just the blocks that match,
  -- or all the blocks where none does.
  unfoldable pub IsRetrieved : String → List String → List String → Type 0
  unfolding ranked
  IsRetrieved query blocks found =
      IsRanked (shares_more py query) found
      × (Any (λ b. matches query b ≡ true) blocks
            × All (λ b. matches query b ≡ true → Any (λ a. a ≡ b) found) blocks
            × All (λ b. (matches query b ≡ true) × Any (λ a. a ≡ b) blocks) found
          ⊎ All (λ b. matches query b ≡ false) blocks × All (λ b. Any (λ a. a ≡ b) found) blocks)

  kept-IsRetrieved :
      (query : String) (blocks : List String)
      → Any (λ b. matches query b ≡ true) blocks
      → IsRetrieved query blocks (keep (matches query) (ranked (shares_more py query) blocks))
  unfolding IsRetrieved
  kept-IsRetrieved query blocks some_match =
      let above = shares_more py query in
      let order = ranked above blocks in
      let p = matches query in
      (
        keep-IsRanked above p order (
            ranked-IsRanked above (shares_more_exclusive query) (shares_more_chained query) blocks),
        inl (
          some_match,
          All-ranked_inv above (λ c. p c ≡ true → Any (λ a. a ≡ c) (keep p order)) blocks
              (All-kept p order),
          All-and (λ c. p c ≡ true) (λ c. Any (λ a. a ≡ c) blocks) (keep p order)
              (keep_sound p order)
              (All-keep (λ c. Any (λ a. a ≡ c) blocks) p order
                (All-ranked above (λ c. Any (λ a. a ≡ c) blocks) blocks (All-self blocks))),
        ),
      )

  -- A block that is kept is a block that matches.
  kept_match :
      (query b : String) (blocks bs : List String)
      → keep (matches query) (ranked (shares_more py query) blocks) ≡ b ∷ bs
      → Any (λ c. matches query c ≡ true) blocks
  kept_match query b blocks bs e =
      let above = shares_more py query in
      let order = ranked above blocks in
      let stands =
        All-keep (λ c. Any (λ a. a ≡ c) blocks) (matches query) order
          (All-ranked above (λ c. Any (λ a. a ≡ c) blocks) blocks (All-self blocks)) in
      let (matched, _) = rw e at (keep_sound (matches query) order) in
      let (from, _) = rw e at stands in
      Any-map blocks (λ c same. ap (matches query) same ∙ matched) from

  all-IsRetrieved :
      (query : String) (blocks : List String)
      → keep (matches query) (ranked (shares_more py query) blocks) ≡ []
      → IsRetrieved query blocks (ranked (shares_more py query) blocks)
  unfolding IsRetrieved
  all-IsRetrieved query blocks e =
      let above = shares_more py query in
      let order = ranked above blocks in
      (
        ranked-IsRanked above (shares_more_exclusive query) (shares_more_chained query) blocks,
        inr (
          All-ranked_inv above (λ b. matches query b ≡ false) blocks
              (All-keep_empty (matches query) order e),
          All-ranked_inv above (λ b. Any (λ a. a ≡ b) order) blocks (All-self order),
        ),
      )

  chosen-IsRetrieved :
      (query : String) (blocks positive : List String)
      → keep (matches query) (ranked (shares_more py query) blocks) ≡ positive
      → IsRetrieved query blocks (elim positive as (λ p. List String) [
        | [] ↦ ranked (shares_more py query) blocks
        | b ∷ bs ↦ positive
      ])
  chosen-IsRetrieved query blocks [] e = all-IsRetrieved query blocks e
  chosen-IsRetrieved query blocks (b ∷ bs) e =
      rw (← e) (kept-IsRetrieved query blocks (kept_match query b blocks bs e))

  -- A query that is not blank retrieves the blocks that share a word with it, all of them and no
  -- other; where no block shares a word with it, all the blocks. What is retrieved stands in the
  -- order of the number of shared words, the greatest first.
  pub matching_blocks-IsRetrieved :
      (query : String) (blocks : List String)
      → is_blank query ≡ false
      → IsRetrieved query blocks (matching_blocks py query blocks)
  unfolding matching_blocks
  matching_blocks-IsRetrieved query blocks h = rw h (chosen-IsRetrieved query blocks _ refl)
