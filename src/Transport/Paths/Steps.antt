-- ===== src/Transport/Paths/Steps.antt =====
-- internal/transport/path_manager.go: any sequence of a path manager's operations.
use kwik.Prelude.{
  ℕ, zero, suc, ◌+◌, ◌^◌, ◌≤◌, ◌<◌, ◌≡◌, ◌≢◌, refl, List, [], ◌∷◌, true, false, Option, none, some,
  ◌==◌, ==_self, add64, length, arith, ◌⊎◌, inl, inr, Bool-cases, Option-cases,
}
use kwik.Prelude.Map.{
  Map, lookup, insert, delete, has, Every, Every-insert, Every-delete, Every-lookup, Every-weaken,
  lookup-insert, lookup-delete,
}
use kwik.Protocol.Errors.{Error, Result, ok}
use kwik.Transport.Paths.{
  PathManager, new_path_manager, store_path, accept_path, open_path, set_primary_path, get_path,
  first_key, choose_primary, remove_path,
}

-- What can happen to a path manager; `start` is where the iteration over the paths starts.
pub data Step {ℓ} (P : Type ℓ) : Type ℓ where
  opens : Option Error → Option P → Step P
  accepts : Option P → Step P
  makes_primary : ℕ → Step P
  removes : (start id : ℕ) → Step P

module _ {ℓ} {P : Type ℓ} where
  pub has-first_key :
      (start : ℕ) (entry : ℕ × P) (m : Map P) → has (first_key start entry m) (entry ∷ m) ≡ true
  unfolding lookup
  has-first_key zero entry m = rw (==_self entry.0) refl
  has-first_key (suc start) entry [] = rw (==_self entry.0) refl
  has-first_key (suc start) entry (next ∷ m) =
      elim (Bool-cases (entry.0 == first_key start next m)) [
        | inl e ↦ rw e refl
        | inr e ↦ rw e (has-first_key start next m)
      ]

  -- The primary path is a path that is there, or none is primary.
  abbrev pub HasPrimary : PathManager P → Type 0
  HasPrimary pm = (pm.primary_path_id ≡ 0) ⊎ (has pm.primary_path_id pm.paths ≡ true)

  -- The paths have numbers from 1 to the last one given, and the primary path is one of them.
  pub record IsConsistent (pm : PathManager P) : Type 0 where
    pub numbers : Every (λ id path. (1 ≤ id) × (id ≤ pm.next_path_id)) pm.paths
    pub primary : HasPrimary pm

  pub choose_primary-HasPrimary :
      (start : ℕ) (m : Map P)
      → (choose_primary start m ≡ 0) ⊎ (has (choose_primary start m) m ≡ true)
  choose_primary-HasPrimary start [] = inl refl
  choose_primary-HasPrimary start (entry ∷ m) = inr (has-first_key start entry m)

  remove_path-IsConsistent :
      (start id : ℕ) (pm : PathManager P) → IsConsistent pm → IsConsistent (remove_path start id pm)
  unfolding remove_path
  remove_path-IsConsistent start id pm v =
      let left =
        Every-delete (λ id path. (1 ≤ id) × (id ≤ pm.next_path_id)) id pm.paths v.numbers in
      elim (Bool-cases (pm.primary_path_id == id)) [
        | inl e ↦ rw e (record {
          numbers = left;
          primary = choose_primary-HasPrimary start (delete id pm.paths);
        })
        | inr e ↦ rw e (record {
          numbers = left;
          primary = elim v.primary [
            | inl zeroed ↦ inl zeroed
            | inr there ↦
                let kept : ((id == pm.primary_path_id) ≡ false) = ground (arith, e) in
                inr (rw (lookup-delete pm.primary_path_id id pm.paths, kept) there)
          ];
        })
      ]

  number_is_new :
      (pm : PathManager P) (id : ℕ)
      → IsConsistent pm
      → pm.next_path_id < id
      → lookup id pm.paths ≡ none
  number_is_new pm id v h = elim (Option-cases (lookup id pm.paths)) [
    | inl e ↦ e
    | inr (path, e) ↦
        let bounds =
          Every-lookup (λ id path. (1 ≤ id) × (id ≤ pm.next_path_id)) id path pm.paths v.numbers
            e in
        absurd (omega (arith, bounds.1))
  ]

  kept : (id : ℕ) (path : P) (k : ℕ) (m : Map P) → has k m ≡ true → has k (insert id path m) ≡ true
  kept id path k m there = elim (Bool-cases (id == k)) [
    | inl e ↦ rw (lookup-insert k id path m, e) refl
    | inr e ↦ rw (lookup-insert k id path m, e) there
  ]

  -- The number that the next path gets, and what it leaves alone.
  pub record Added (pm : PathManager P) (path : P) (r : Result ℕ × PathManager P) : Type ℓ where
    pub given : r.0 ≡ ok (suc pm.next_path_id)
    pub fresh : get_path (suc pm.next_path_id) pm ≡ none
    pub found : get_path (suc pm.next_path_id) r.1 ≡ some path
    pub others : (id : ℕ) → id ≢ suc pm.next_path_id → get_path id r.1 ≡ get_path id pm
    pub primary : r.1.primary_path_id ≡ pm.primary_path_id

  next_is_new :
      (pm : PathManager P)
      → IsConsistent pm
      → suc pm.next_path_id < 2 ^ 64
      → (add64 pm.next_path_id 1 ≡ suc pm.next_path_id)
        × (lookup (suc pm.next_path_id) pm.paths ≡ none)
  next_is_new pm v h = (omega arith, number_is_new pm (suc pm.next_path_id) v (omega arith))

  accept_path-Added :
      (path : P) (pm : PathManager P)
      → IsConsistent pm
      → suc pm.next_path_id < 2 ^ 64
      → Added pm path (accept_path (some path) pm)
  unfolding accept_path store_path get_path
  accept_path-Added path pm v h =
      let (e, fresh) = next_is_new pm v h in
      let id = suc pm.next_path_id in
      rw (e, fresh)
        (record {
          given = refl;
          fresh = fresh;
          found = rw (lookup-insert id id path pm.paths, ==_self id) refl;
          others = λ k ne.
              let differs : (id == k) ≡ false = ground (arith, ne) in
              rw (lookup-insert k id path pm.paths, differs) refl;
          primary = refl;
        })

  store_path-IsConsistent :
      (made : Option P) (pm : PathManager P)
      → IsConsistent pm
      → let counted = record pm { next_path_id = suc pm.next_path_id } in
        IsConsistent (store_path (suc pm.next_path_id) made counted).1
        × ((store_path (suc pm.next_path_id) made counted).1.next_path_id ≡ suc pm.next_path_id)
  unfolding store_path
  store_path-IsConsistent none pm v =
      let numbers =
        Every-weaken {Q = λ id path. (1 ≤ id) × (id ≤ suc pm.next_path_id)} pm.paths
          (λ id path b. (b.0, omega (arith, b.1))) v.numbers in
      (record { numbers = numbers; primary = v.primary }, refl)
  store_path-IsConsistent (some path) pm v =
      let id = suc pm.next_path_id in
      let numbers =
        Every-weaken {Q = λ id path. (1 ≤ id) × (id ≤ suc pm.next_path_id)} pm.paths
          (λ id path b. (b.0, omega (arith, b.1))) v.numbers in
      (
        record {
          numbers =
              Every-insert (λ id path. (1 ≤ id) × (id ≤ suc pm.next_path_id)) id path pm.paths
                (omega arith, omega arith) numbers;
          primary = elim v.primary [
            | inl zeroed ↦ inl zeroed
            | inr there ↦ inr (kept id path pm.primary_path_id pm.paths there)
          ];
        },
        refl,
      )

  accept_path-IsConsistent :
      (made : Option P) (pm : PathManager P)
      → IsConsistent pm
      → suc pm.next_path_id < 2 ^ 64
      → IsConsistent (accept_path made pm).1
        × ((accept_path made pm).1.next_path_id ≡ suc pm.next_path_id)
  unfolding accept_path
  accept_path-IsConsistent made pm v h =
      let (e, fresh) = next_is_new pm v h in rw (e, fresh) (store_path-IsConsistent made pm v)

  unfoldable pub step : PathManager P → Step P → PathManager P
  step pm (opens dialled made) = (open_path dialled made pm).1
  step pm (accepts made) = (accept_path made pm).1
  step pm (makes_primary id) = set_primary_path id pm
  step pm (removes start id) = remove_path start id pm

  unfoldable pub run : PathManager P → List (Step P) → PathManager P
  run pm [] = pm
  run pm (s ∷ ss) = run (step pm s) ss

  set_primary_path-IsConsistent :
      (id : ℕ) (pm : PathManager P) → IsConsistent pm → IsConsistent (set_primary_path id pm)
  unfolding set_primary_path
  set_primary_path-IsConsistent id pm v = elim (Bool-cases (has id pm.paths)) [
    | inl e ↦ rw e (record { numbers = v.numbers; primary = inr e })
    | inr e ↦ rw e v
  ]

  -- A consistent state with room for `left` more paths.
  record HasRoom (left : ℕ) (pm : PathManager P) : Type ℓ where
    consistent : IsConsistent pm
    room : left + pm.next_path_id < 2 ^ 64

  accept_path-HasRoom :
      (left : ℕ) (made : Option P) (pm : PathManager P)
      → HasRoom (suc left) pm
      → HasRoom left (accept_path made pm).1
  accept_path-HasRoom left made pm v =
      let (c, e) = accept_path-IsConsistent made pm v.consistent (omega (arith, v.room)) in
      record { consistent = c; room = omega (arith, v.room, e) }

  step-HasRoom :
      (left : ℕ) (pm : PathManager P) (s : Step P)
      → HasRoom (suc left) pm
      → HasRoom left (step pm s)
  unfolding step open_path set_primary_path remove_path
  step-HasRoom left pm (opens none made) v = accept_path-HasRoom left made pm v
  step-HasRoom left pm (opens (some e) made) v = record {
    consistent = v.consistent;
    room = omega (arith, v.room);
  }
  step-HasRoom left pm (accepts made) v = accept_path-HasRoom left made pm v
  step-HasRoom left pm (makes_primary id) v = record {
    consistent = set_primary_path-IsConsistent id pm v.consistent;
    room = ground (arith, v.room);
  }
  step-HasRoom left pm (removes start id) v = record {
    consistent = remove_path-IsConsistent start id pm v.consistent;
    room = ground (arith, v.room);
  }

  run-HasRoom :
      (left : ℕ) (pm : PathManager P) (ss : List (Step P))
      → HasRoom (length ss + left) pm
      → HasRoom left (run pm ss)
  unfolding run
  run-HasRoom left pm [] v = record { consistent = v.consistent; room = omega (arith, v.room) }
  run-HasRoom left pm (s ∷ ss) v = run-HasRoom left (step pm s) ss (
      step-HasRoom (length ss + left) pm s
        (record { consistent = v.consistent; room = omega (arith, v.room) }))

  run-new-HasRoom :
      (left : ℕ) (ss : List (Step P))
      → length ss + left < 2 ^ 64
      → HasRoom left (run new_path_manager ss)
  unfolding new_path_manager
  run-new-HasRoom left ss short =
      run-HasRoom left new_path_manager ss
        (record { consistent = record { numbers = tt; primary = inl refl }; room = omega arith })

  -- After any sequence of fewer than 2 ^ 64 calls that open, accept, remove or choose paths of a
  -- new path manager, the paths have numbers from 1 to the last one given, and the primary path,
  -- if one is chosen, is a path that is there.
  pub run-new_path_manager-IsConsistent :
      (ss : List (Step P)) → length ss < 2 ^ 64 → IsConsistent (run new_path_manager ss)
  run-new_path_manager-IsConsistent ss short = (run-new-HasRoom 0 ss (omega arith)).consistent

  -- After any such sequence, if there is room for one more number, a path that is dialled and made
  -- gets the number behind the last one given, which no path has, and no error is reported;
  -- GetPath then finds it there, and no other path and not the choice of the primary path changes.
  pub open_path-run :
      (path : P) (ss : List (Step P))
      → suc (length ss) < 2 ^ 64
      → let pm = run new_path_manager ss in Added pm path (open_path none (some path) pm)
  unfolding open_path
  open_path-run path ss short =
      let v = run-new-HasRoom 1 ss (omega arith) in
      accept_path-Added path (run new_path_manager ss) v.consistent (omega (arith, v.room))
