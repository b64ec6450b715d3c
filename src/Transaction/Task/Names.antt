-- ===== src/Transaction/Task/Names.antt =====
-- The names under which the subtasks of a WrapperTask provide their results
-- (pypowervm/utils/transaction.py).
use pypowervm.Prelude.{
  ℕ, ◌≡◌, refl, sym, ap, ◌∙◌, String, Bool, ◌||◌, Option, none, some, List, [], ◌∷◌, ◌++◌, is_in,
  is_in-append_one, AreUnique, AreUnique-append_one, text_eq, Bool-cases, Option-cases, inl, inr,
  arith,
}
use pypowervm.Exec.{ok}
use pypowervm.Transaction.{Source}
use pypowervm.Transaction.Task.{Subtask, WrapperTask, new, add_subtask}

module _ {R X Wr Val : Type 0} where
  abbrev pub names_of : List (Subtask R X Wr Val) → List String
  names_of [] = []
  names_of (task ∷ tasks) = elim task.provides [
    | none ↦ names_of tasks
    | some key ↦ key ∷ names_of tasks
  ]

  -- The WrapperTasks that are created without subtasks and given some one after the other.
  pub data Built : WrapperTask R X Wr Val → Type 0 where
    fresh :
        (name : String) (source : Source Wr) (empty : Bool) (timeout : Option ℕ)
        (t : WrapperTask R X Wr Val)
        → t ≡ new name source [] empty timeout
        → Built t
    added :
        {t t' : WrapperTask R X Wr Val} (task : Subtask R X Wr Val)
        → Built t
        → add_subtask task t ≡ ok t'
        → Built t'

  -- No name is provided by two subtasks, and the names that are taken are those of the subtasks.
  pub record HasNames (t : WrapperTask R X Wr Val) : Type 0 where
    pub distinct : AreUnique (names_of t.tasks)
    pub taken : (k : String) → is_in k t.provided_keys ≡ is_in k (names_of t.tasks)

  names_of-append_none :
      (tasks : List (Subtask R X Wr Val)) (task : Subtask R X Wr Val)
      → task.provides ≡ none
      → names_of (tasks ++ task ∷ []) ≡ names_of tasks
  names_of-append_none [] task h = rw h refl
  names_of-append_none (t ∷ tasks) task h = ground (arith, names_of-append_none tasks task h)

  names_of-append_some :
      (tasks : List (Subtask R X Wr Val)) (task : Subtask R X Wr Val) (key : String)
      → task.provides ≡ some key
      → names_of (tasks ++ task ∷ []) ≡ names_of tasks ++ key ∷ []
  names_of-append_some [] task key h = ground arith
  names_of-append_some (t ∷ tasks) task key h =
      ground (arith, names_of-append_some tasks task key h)

  add_subtask-HasNames :
      (task : Subtask R X Wr Val) (t t' : WrapperTask R X Wr Val)
      → HasNames t
      → add_subtask task t ≡ ok t'
      → HasNames t'
  unfolding add_subtask
  add_subtask-HasNames task t t' n h = elim (Option-cases task.provides) [
    | inl unnamed ↦
        let e : record t { tasks = t.tasks ++ task ∷ [] } ≡ t' = ground arith in
        let same = names_of-append_none t.tasks task unnamed in
        rw (sym e) (record {
          distinct = rw (same) n.distinct;
          taken = λ k. n.taken k ∙ ap (is_in k) (sym same);
        })
    | inr (key, named) ↦ elim (Bool-cases (is_in key t.provided_keys)) [
      | inl used ↦ absurd (ground arith)
      | inr unused ↦
          let e : record t { tasks = t.tasks ++ task ∷ []; provided_keys = key ∷ t.provided_keys }
              ≡ t' =
            ground arith in
          let more = names_of-append_some t.tasks task key named in
          rw (sym e) (record {
            distinct = rw (more) (
                AreUnique-append_one key (names_of t.tasks) n.distinct
                  (sym (n.taken key) ∙ unused));
            taken = λ k.
                rw (more, is_in-append_one k key (names_of t.tasks))
                  (unfold is_in in ap (λ b. text_eq k key || b) (n.taken k));
          })
    ]
  ]

  -- However subtasks have been added to a WrapperTask that was created without any, no name is
  -- provided by two of its subtasks, and the names that are taken are exactly those of its subtasks.
  pub Built-HasNames : {t : WrapperTask R X Wr Val} → Built t → HasNames t
  unfolding new
  Built-HasNames (fresh name source empty timeout t e) =
      rw (e) (record { distinct = tt; taken = λ k. refl })
  Built-HasNames (added task b h) = add_subtask-HasNames task _ _ (Built-HasNames b) h
