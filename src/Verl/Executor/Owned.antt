-- ===== src/Verl/Executor/Owned.antt =====
-- The temporary directories on the disk, and the sessions of `VersionedSqlExecutorTool` that own
-- them.
use drift_sql.Prelude.{
  String, ◌≡◌, refl, sym, ap, ◌∙◌, inl, inr, true, false, not, Option, none, some, List, ◌∷◌, arith,
  ◌==◌, eq_iff, eq_refl, if◌then◌else◌, Bool-cases, keep, contains, contains-keep,
}
use drift_sql.Service.Toolbox.{Dict, lookup}
use drift_sql.Verl.Executor.{Session, temporary_of}

-- The directory of a session.
unfoldable pub directory_of : String → Dict Session → Option String
unfolding lookup
directory_of id d = temporary_of (lookup id d)

-- The directories that stand are those that the sessions hold, and no two sessions share one.
pub record IsOwned (standing : List String) (held : String → Option String) : Type 0 where
  pub stands : (id t : String) → held id ≡ some t → contains standing t ≡ true
  pub owner : (t : String) → contains standing t ≡ true → (id : String) × (held id ≡ some t)
  pub alone : (i j t : String) → held i ≡ some t → held j ≡ some t → i ≡ j

some_injective : {x y : String} → some x ≡ some y → x ≡ y
some_injective h = cc

none_not_some : {x : String} → ¬ (none ≡ some x)
none_not_some h = cc

true_not_false : ¬ (true ≡ false)
true_not_false h = cc

module _ (standing : List String) (held later : String → Option String) (id : String) where
  -- A session starts with a directory that is new.
  pub given :
      (t : String)
      → contains standing t ≡ false
      → ((j : String) → later j ≡ (if id == j then some t else held j))
      → held id ≡ none
      → IsOwned standing held
      → IsOwned (t ∷ standing) later
  unfolding contains
  given t new change free owned = record {
    stands = λ j u h. elim (Bool-cases (id == j)) [
      | inl y ↦ rw (some_injective (sym (at_id j y) ∙ h), eq_refl u) refl
      | inr n ↦ rw (owned.stands j u (sym (other j n) ∙ h)) (ground arith)
    ];
    owner = λ u h. elim (Bool-cases (t == u)) [
      | inl y ↦ (id, at_id id (eq_refl id) ∙ ap some ((eq_iff t u).0 y))
      | inr n ↦
          let (j, e) = owned.owner u (rw n at h) in
          elim (Bool-cases (id == j)) [
            | inl y ↦ absurd (none_not_some (sym free ∙ ap held ((eq_iff id j).0 y) ∙ e))
            | inr m ↦ (j, other j m ∙ e)
          ]
    ];
    alone = λ i j u h k. elim (Bool-cases (id == i)) [
      | inl y ↦ elim (Bool-cases (id == j)) [
        | inl z ↦ sym ((eq_iff id i).0 y) ∙ (eq_iff id j).0 z
        | inr n ↦ absurd (clash j u (sym (at_id i y) ∙ h) (sym (other j n) ∙ k))
      ]
      | inr m ↦ elim (Bool-cases (id == j)) [
        | inl z ↦ absurd (clash i u (sym (at_id j z) ∙ k) (sym (other i m) ∙ h))
        | inr n ↦ owned.alone i j u (sym (other i m) ∙ h) (sym (other j n) ∙ k)
      ]
    ];
  }
    where
      at_id : (j : String) → (id == j) ≡ true → later j ≡ some t
      at_id j y = change j ∙ rw y refl

      other : (j : String) → (id == j) ≡ false → later j ≡ held j
      other j n = change j ∙ rw n refl

      clash : (j u : String) → some t ≡ some u → ¬ (held j ≡ some u)
      clash j u e k = true_not_false (sym (owned.stands j t (k ∙ sym e)) ∙ new)

  -- A session ends, and its directory with it.
  pub taken :
      (t : String)
      → held id ≡ some t
      → ((j : String) → later j ≡ (if id == j then none else held j))
      → IsOwned standing held
      → IsOwned (keep (λ u. not (u == t)) standing) later
  taken t mine change owned = record {
    stands = λ j u h.
        rw (contains-keep (λ v. not (v == t)) standing u, owned.stands j u (back j u h))
          (elim (Bool-cases (u == t)) [
            | inl y ↦
                absurd (
                  not_mine j u h
                    (owned.alone id j t mine (back j u h ∙ ap some ((eq_iff u t).0 y))))
            | inr n ↦ rw n refl
          ]);
    owner = λ u h.
        let both = (rw (contains-keep (λ v. not (v == t)) standing u) at h) in
        let (j, e) = owned.owner u (ground arith) in
        elim (Bool-cases (id == j)) [
          | inl y ↦
              let same : u ≡ t = some_injective (sym e ∙ rw (← (eq_iff id j).0 y) mine) in
              let equal : (u == t) ≡ true = (eq_iff u t).1 same in
              absurd (true_not_false (ground arith))
          | inr n ↦ (j, change j ∙ rw n e)
        ];
    alone = λ i j u h k. owned.alone i j u (back i u h) (back j u k);
  }
    where
      back : (j u : String) → later j ≡ some u → held j ≡ some u
      back j u h = elim (Bool-cases (id == j)) [
        | inl y ↦ absurd (none_not_some (sym (change j ∙ rw y refl) ∙ h))
        | inr n ↦ sym (change j ∙ rw n refl) ∙ h
      ]

      not_mine : (j u : String) → later j ≡ some u → ¬ (id ≡ j)
      not_mine j u h e = none_not_some (sym (change j ∙ rw ((eq_iff id j).1 e) refl) ∙ h)

  -- A session that holds no directory starts or ends.
  pub untouched :
      held id ≡ none
      → ((j : String) → later j ≡ (if id == j then none else held j))
      → IsOwned standing held
      → IsOwned standing later
  untouched free change owned = record {
    stands = λ j u h. owned.stands j u (sym (same j) ∙ h);
    owner = λ u h. let (j, e) = owned.owner u h in (j, same j ∙ e);
    alone = λ i j u h k. owned.alone i j u (sym (same i) ∙ h) (sym (same j) ∙ k);
  }
    where
      same : (j : String) → later j ≡ held j
      same j = elim (Bool-cases (id == j)) [
        | inl y ↦ change j ∙ rw (y, ← (eq_iff id j).0 y, free) refl
        | inr n ↦ change j ∙ rw n refl
      ]
