-- ===== src/Transaction/Feed/Subtasks.antt =====
-- Subtasks that are added to a FeedTask before and after it has made its WrapperTasks
-- (pypowervm/utils/transaction.py).
use pypowervm.Prelude.{
  ◌≡◌, ◌⊎◌, refl, sym, ap, ◌∙◌, String, true, some, List, [], ◌∷◌, ◌++◌, text_eq, is_in, Bool-cases,
  Option-cases, inl, inr, if◌then◌else◌, arith, All,
}
use pypowervm.Prelude.Dict.{Dict, insert}
use pypowervm.Exec.{Result, ok, err, hang}
use pypowervm.Transaction.{duplicate_provides, Service}
use pypowervm.Transaction.Task.{Subtask, WrapperTask}
use pypowervm.Transaction.Task
use pypowervm.Transaction.Feed.{FeedTask, no_wrapper_tasks, add_to_all, add_subtask, replicate_tx}

abbrev pub keys : {V : Type 0} → Dict V → List String
keys [] = []
keys ((k, v) ∷ d) = k ∷ keys d

insert_key : String → List String → List String
insert_key k [] = k ∷ []
insert_key k (j ∷ js) = if text_eq j k then j ∷ js else j ∷ insert_key k js

keys-insert :
    {V : Type 0} (k : String) (v : V) (d : Dict V) → keys (insert k v d) ≡ insert_key k (keys d)
unfolding insert insert_key
keys-insert k v [] = refl
keys-insert k v ((j, w) ∷ d) = ground (arith, keys-insert k v d)

insert-All :
    {V : Type 0} (P : V → Type 0) (k : String) (v : V) (d : Dict V)
    → P v
    → All (λ (p : String × V). P p.1) d
    → All (λ (p : String × V). P p.1) (insert k v d)
unfolding insert
insert-All P k v [] h hs = (h, tt)
insert-All P k v ((j, w) ∷ d) h hs = elim (Bool-cases (text_eq j k)) [
  | inl here ↦ rw (here) (h, hs.1)
  | inr there ↦ rw (there) (hs.0, insert-All P k v d h hs.1)
]

Result-cases :
    {E A : Type 0} (r : Result E A)
    → ((a : A) × (r ≡ ok a)) ⊎ (((e : E) × (r ≡ err e)) ⊎ (r ≡ hang))
Result-cases (ok a) = inl (a, refl)
Result-cases (err e) = inr (inl (e, refl))
Result-cases hang = inr (inr refl)

module _ {R X Wr : Type 0} (svc : Service R X Wr) where
  -- The keys that replication makes, of the UUIDs alone.
  uuid_keys : List Wr → List String → List String
  uuid_keys [] ks = ks
  uuid_keys (w ∷ ws) ks = uuid_keys ws (insert_key (svc.uuid w) ks)

module _ {R X Wr Val : Type 0} where
  -- Every task has these subtasks.
  abbrev pub AllHave : List (Subtask R X Wr Val) → Dict (WrapperTask R X Wr Val) → Type 0
  AllHave tasks d = All (λ (p : String × WrapperTask R X Wr Val). p.1.tasks ≡ tasks) d

  add_to_copy :
      (task : Subtask R X Wr Val) (t : WrapperTask R X Wr Val)
      → t.provided_keys ≡ []
      → (t' : WrapperTask R X Wr Val) × (Task.add_subtask task t ≡ ok t')
        × (t'.tasks ≡ t.tasks ++ task ∷ [])
  unfolding Task.add_subtask is_in
  add_to_copy task t h = elim (Option-cases task.provides) [
    | inl unnamed ↦ (record t { tasks = t.tasks ++ task ∷ [] }, ground arith, refl)
    | inr (key, named) ↦ (
      record t { tasks = t.tasks ++ task ∷ []; provided_keys = key ∷ t.provided_keys },
      ground arith,
      refl,
    )
  ]

module _ {R X Wr Val Post : Type 0} (svc : Service R X Wr) where
  keys-replicate_tx :
      (f : FeedTask R X Wr Val Post) (ws : List Wr) (d : Dict (WrapperTask R X Wr Val))
      → keys (replicate_tx svc f ws d) ≡ uuid_keys svc ws (keys d)
  unfolding replicate_tx uuid_keys
  keys-replicate_tx f [] d = refl
  keys-replicate_tx f (w ∷ ws) d =
      keys-replicate_tx f ws _ ∙ ap (uuid_keys svc ws) (keys-insert (svc.uuid w) _ d)

  -- A task as replication makes it.
  abbrev IsCopy : FeedTask R X Wr Val Post → WrapperTask R X Wr Val → Type 0
  IsCopy f t = (t.tasks ≡ f.common_tx.tasks) × (t.provided_keys ≡ [])

  replicate_tx-All :
      (f : FeedTask R X Wr Val Post) (ws : List Wr) (d : Dict (WrapperTask R X Wr Val))
      → All (λ (p : String × WrapperTask R X Wr Val). IsCopy f p.1) d
      → All (λ (p : String × WrapperTask R X Wr Val). IsCopy f p.1) (replicate_tx svc f ws d)
  unfolding replicate_tx
  replicate_tx-All f [] d h = h
  replicate_tx-All f (w ∷ ws) d h =
      replicate_tx-All f ws _
        (insert-All (IsCopy f) (svc.uuid w) _ d (unfold Task.new in (refl, refl)) h)

  add_to_all-IsCopy :
      (task : Subtask R X Wr Val) (f : FeedTask R X Wr Val Post) (d : Dict (WrapperTask R X Wr Val))
      → All (λ (p : String × WrapperTask R X Wr Val). IsCopy f p.1) d
      → ((add_to_all task d).0 ≡ ok tt)
        × (keys (add_to_all task d).1 ≡ keys d)
        × AllHave (f.common_tx.tasks ++ task ∷ []) (add_to_all task d).1
  unfolding add_to_all
  add_to_all-IsCopy task f [] h = (refl, refl, tt)
  add_to_all-IsCopy task f ((u, t) ∷ d) h =
      let (added, same, all) = add_to_all-IsCopy task f d h.1 in
      let (t', e, has) = add_to_copy task t h.0.1 in
      rw (e, add_to_all)
        (added, ap (λ ks. u ∷ ks) same, (has ∙ ap (λ ts. ts ++ task ∷ []) h.0.0, all))

  add_subtask-before :
      (task : Subtask R X Wr Val) (f : FeedTask R X Wr Val Post) (t : WrapperTask R X Wr Val)
      → no_wrapper_tasks f.tx_by_uuid ≡ true
      → Task.add_subtask task f.common_tx ≡ ok t
      → (add_subtask task f ≡ (ok tt, record f { common_tx = t }))
        × (t.tasks ≡ f.common_tx.tasks ++ task ∷ [])
  unfolding add_subtask
  add_subtask-before task f t h e = (rw (h, e) refl, unfold Task.add_subtask in ground arith)

  accepted_task :
      (task : Subtask R X Wr Val) (f : FeedTask R X Wr Val Post)
      → no_wrapper_tasks f.tx_by_uuid ≡ true
      → (add_subtask task f).0 ≡ ok tt
      → (t : WrapperTask R X Wr Val) × (Task.add_subtask task f.common_tx ≡ ok t)
  unfolding add_subtask
  accepted_task task f h e = elim (Result-cases (Task.add_subtask task f.common_tx)) [
    | inl (t, found) ↦ (t, found)
    | inr (inl (x, failed)) ↦ absurd (ground arith)
    | inr (inr failed) ↦ absurd (ground arith)
  ]

  same_tasks :
      (f : FeedTask R X Wr Val Post) (d : Dict (WrapperTask R X Wr Val))
      → All (λ (p : String × WrapperTask R X Wr Val). IsCopy f p.1) d
      → AllHave f.common_tx.tasks d
  same_tasks f [] h = tt
  same_tasks f ((u, t) ∷ d) h = (h.0.0, same_tasks f d h.1)

  -- A subtask that is accepted before a FeedTask has made its WrapperTasks is also accepted by all of
  -- them once they have been made, and in both orders there is a WrapperTask for the same UUIDs, each
  -- with the subtasks that were there and this one last. Neither the converse is stated, nor that the
  -- names which the WrapperTasks know as provided agree.
  pub add_subtask-replicate_tx :
      (task : Subtask R X Wr Val) (f : FeedTask R X Wr Val Post) (ws : List Wr)
      → no_wrapper_tasks f.tx_by_uuid ≡ true
      → (add_subtask task f).0 ≡ ok tt
      → ((add_to_all task (replicate_tx svc f ws [])).0 ≡ ok tt)
        × (keys (replicate_tx svc (add_subtask task f).1 ws [])
            ≡ keys (add_to_all task (replicate_tx svc f ws [])).1)
        × AllHave (f.common_tx.tasks ++ task ∷ []) (replicate_tx svc (add_subtask task f).1 ws [])
        × AllHave (f.common_tx.tasks ++ task ∷ []) (add_to_all task (replicate_tx svc f ws [])).1
  add_subtask-replicate_tx task f ws h e =
      let (t, accepted) = accepted_task task f h e in
      let (before, has) = add_subtask-before task f t h accepted in
      let f' : FeedTask R X Wr Val Post = record f { common_tx = t } in
      let (added, same, all) =
        add_to_all-IsCopy task f (replicate_tx svc f ws []) (replicate_tx-All f ws [] tt) in
      rw (before) (
        added,
        keys-replicate_tx f' ws [] ∙ sym (keys-replicate_tx f ws []) ∙ sym same,
        rw (sym has) (same_tasks f' (replicate_tx svc f' ws []) (replicate_tx-All f' ws [] tt)),
        all,
      )

  -- A name that is taken is refused before the WrapperTasks have been made, and accepted by all of
  -- them afterwards.
  add_subtask_twice :
      (task : Subtask R X Wr Val) (f : FeedTask R X Wr Val Post) (ws : List Wr) (key : String)
      → no_wrapper_tasks f.tx_by_uuid ≡ true
      → task.provides ≡ some key
      → is_in key f.common_tx.provided_keys ≡ true
      → ((add_subtask task f).0 ≡ err (duplicate_provides key))
        × ((add_to_all task (replicate_tx svc f ws [])).0 ≡ ok tt)
        × AllHave (f.common_tx.tasks ++ task ∷ []) (add_to_all task (replicate_tx svc f ws [])).1
  unfolding add_subtask
  add_subtask_twice task f ws key h named taken =
      let (added, same, all) =
        add_to_all-IsCopy task f (replicate_tx svc f ws []) (replicate_tx-All f ws [] tt) in
      (unfold Task.add_subtask in ground arith, added, all)
