-- ===== src/Transaction/Feed.antt =====
-- FeedTask of pypowervm/utils/transaction.py: the same subtasks for each wrapper of a feed. The GET of
-- the feed, a wrapper's etag and the engine that runs the tasks in parallel are parameters.
pub mod Subtasks
use pypowervm.Prelude.{
  ℕ, String, ◌<>◌, Bool, true, false, ◌&&◌, Option, none, some, List, [], ◌∷◌, ◌++◌, text_eq,
  if◌then◌else◌,
}
use pypowervm.Prelude.Dict.{Dict, lookup, insert}
use pypowervm.Exec.{Result, ok, err, hang, Exec, pure, raise, ◌>>=◌}
use pypowervm.Retry.{Exn, other}
use pypowervm.Transaction.{Fault, feed_task_empty_feed, key_error, Service, Source, given, getter}
use pypowervm.Transaction.Task.{Subtask, WrapperTask, no_tasks}
use pypowervm.Transaction.Task

-- `feed` is `_feed`, or None where a FeedGetter stands instead. The tasks that run afterwards are of
-- a type `Post`.
pub record FeedTask (R X Wr Val Post : Type 0) : Type 0 where
  pub name : String
  pub feed : Option (List Wr)
  pub update_timeout : Option ℕ
  pub tx_by_uuid : Dict (WrapperTask R X Wr Val)
  pub common_tx : WrapperTask R X Wr Val
  pub post_exec : List Post

abbrev pub no_wrapper_tasks : {V : Type 0} → Dict V → Bool
no_wrapper_tasks [] = true
no_wrapper_tasks (x ∷ d) = false

-- `hasattr(a, 'etag') and a.etag != b.etag`, where b has one
abbrev pub is_changed : Option String → Option String → Bool
is_changed (some s) (some t) = if text_eq s t then false else true
is_changed (some s) none = true
is_changed none t = false

module _ {R X Wr Val : Type 0} where
  -- the loop of add_subtask: what was added before a refusal stays
  unfoldable pub add_to_all :
      Subtask R X Wr Val
      → Dict (WrapperTask R X Wr Val)
      → Result (Fault X) (Unit {0}) × Dict (WrapperTask R X Wr Val)
  unfolding Task.add_subtask
  add_to_all task [] = (ok tt, [])
  add_to_all task ((u, t) ∷ d) =
      let (r, rest) = add_to_all task d in
      elim (Task.add_subtask task t) [
        | ok t' ↦ (r, (u, t') ∷ rest)
        | err e ↦ (err e, (u, t) ∷ d)
        | hang ↦ (hang, (u, t) ∷ d)
      ]

  module _ (svc : Service R X Wr) where
    -- WrapperTask.wrapper
    unfoldable pub wrapper : WrapperTask R X Wr Val → Exec R (Exn (Fault X)) Wr
    wrapper t = elim t.source [ given w ↦ pure w | getter u ↦ svc.get u ]

    unfoldable pub wrappers : Dict (WrapperTask R X Wr Val) → Exec R (Exn (Fault X)) (List Wr)
    unfolding wrapper
    wrappers [] = pure []
    wrappers ((u, t) ∷ d) = wrapper t >>= λ w. wrappers d >>= λ ws. pure (w ∷ ws)

    module _ (etag : R → Wr → Option String) where
      -- Whether some wrapper of the feed has been updated by its task.
      unfoldable pub any_changed :
          Dict (WrapperTask R X Wr Val) → List Wr → Exec R (Exn (Fault X)) Bool
      unfolding wrapper lookup
      any_changed d [] r = (ok false, r)
      any_changed d (w ∷ ws) r = elim (lookup (svc.uuid w) d) [
        | none ↦ raise (other key_error) r
        | some t ↦
            (wrapper t >>= λ now s.
            if is_changed (etag s now) (etag s w) then (ok true, s) else any_changed d ws s)
              r
      ]

module _ {R X Wr Val Post : Type 0} where
  -- __init__, of a FeedGetter or of a feed. The getter of the common task is never used.
  unfoldable pub create :
      String → Option (List Wr) → Option ℕ → Result (Fault X) (FeedTask R X Wr Val Post)
  create name (some []) update_timeout = err feed_task_empty_feed
  create name feed update_timeout = ok (record {
    name = name;
    feed = feed;
    update_timeout = update_timeout;
    tx_by_uuid = [];
    common_tx = Task.new "internal" (getter "None") [] false none;
    post_exec = [];
  })

  unfoldable pub add_subtask :
      Subtask R X Wr Val
      → FeedTask R X Wr Val Post
      → Result (Fault X) (Unit {0}) × FeedTask R X Wr Val Post
  unfolding add_to_all Task.add_subtask
  add_subtask task f =
      if no_wrapper_tasks f.tx_by_uuid
      then (elim (Task.add_subtask task f.common_tx) [
        | ok t ↦ (ok tt, record f { common_tx = t })
        | err e ↦ (err e, f)
        | hang ↦ (hang, f)
      ])
      else (let (r, d) = add_to_all task f.tx_by_uuid in (r, record f { tx_by_uuid = d }))

  unfoldable pub add_post_execute : List Post → FeedTask R X Wr Val Post → FeedTask R X Wr Val Post
  add_post_execute tasks f = record f { post_exec = f.post_exec ++ tasks }

  module _ (svc : Service R X Wr) where
    -- the loop of wrapper_tasks
    unfoldable pub replicate_tx :
        FeedTask R X Wr Val Post
        → List Wr
        → Dict (WrapperTask R X Wr Val)
        → Dict (WrapperTask R X Wr Val)
    unfolding insert Task.new
    replicate_tx f [] d = d
    replicate_tx f (w ∷ ws) d = replicate_tx f ws (
        insert (svc.uuid w)
          (Task.new (f.name <> ("_" <> svc.uuid w)) (given w) f.common_tx.tasks true
            f.update_timeout)
          d)

  module _ (svc : Service R X Wr) (get_feed : Exec R (Exn (Fault X)) (List Wr))
      (etag : R → Wr → Option String) where
    -- `_feed` once it has been fetched; an empty one is refused
    unfoldable pub fetched_feed : FeedTask R X Wr Val Post → Exec R (Exn (Fault X)) (List Wr)
    fetched_feed f =
        (elim f.feed [ none ↦ get_feed | some ws ↦ pure ws ])
        >>= elim [ [] ↦ raise (other feed_task_empty_feed) | w ∷ ws ↦ pure (w ∷ ws) ]

    -- The property `feed`: the list that becomes `_feed`.
    unfoldable pub feed : FeedTask R X Wr Val Post → Exec R (Exn (Fault X)) (List Wr)
    unfolding fetched_feed any_changed wrappers
    feed f = do
      ws ← fetched_feed f
      changed ←
          if no_wrapper_tasks f.tx_by_uuid then pure false else any_changed svc etag f.tx_by_uuid ws
      if changed then wrappers svc f.tx_by_uuid else pure ws

    -- The property `wrapper_tasks`, with the FeedTask that it leaves.
    unfoldable pub wrapper_tasks :
        FeedTask R X Wr Val Post → Exec R (Exn (Fault X)) (FeedTask R X Wr Val Post)
    unfolding feed replicate_tx
    wrapper_tasks f =
        if no_wrapper_tasks f.tx_by_uuid
        then (feed f >>= λ ws.
            pure (record f { feed = some ws; tx_by_uuid = replicate_tx svc f ws [] }))
        else pure f

    unfoldable pub get_wrapper : String → FeedTask R X Wr Val Post → Exec R (Exn (Fault X)) Wr
    unfolding wrapper_tasks wrapper lookup
    get_wrapper u f = wrapper_tasks f >>= λ g. elim (lookup u g.tx_by_uuid) [
      | none ↦ raise (other key_error)
      | some t ↦ wrapper svc t
    ]

    abbrev pub is_no_op : FeedTask R X Wr Val Post → Bool
    is_no_op f =
        no_wrapper_tasks f.tx_by_uuid
        && (no_tasks f.common_tx.tasks && (elim f.post_exec [ [] ↦ true | p ∷ ps ↦ false ]))

    -- execute: None where there is nothing to do. `run` executes the WrapperTasks in parallel, and
    -- `post` the tasks that are to follow, with what the former returned.
    module _ {Rets Done : Type 0} (no_rets : Rets)
        (run : Dict (WrapperTask R X Wr Val) → Exec R (Exn (Fault X)) Rets)
        (post : List Post → Rets → Exec R (Exn (Fault X)) Done) (rets_only : Rets → Done) where
      unfoldable pub execute : FeedTask R X Wr Val Post → Exec R (Exn (Fault X)) (Option Done)
      unfolding wrapper_tasks
      execute f = if is_no_op f then pure none else (do
        rets ←
            (if no_wrapper_tasks f.tx_by_uuid && no_tasks f.common_tx.tasks
              then pure no_rets
              else (wrapper_tasks f >>= λ g. run g.tx_by_uuid))
        elim f.post_exec [
          | [] ↦ pure (some (rets_only rets))
          | p ∷ ps ↦ post (p ∷ ps) rets >>= λ done. pure (some done)
        ])
