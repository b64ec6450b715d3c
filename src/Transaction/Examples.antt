-- ===== src/Transaction/Examples.antt =====
-- A server that counts updates and a thread's locks, and transactions on it
-- (pypowervm/utils/transaction.py).
use pypowervm.Prelude.{
  ◌++◌, ℕ, ◌+◌, ◌≡◌, ◌≢◌, refl, String, Bool, true, false, not, ◌&&◌, Option, none, some, List, [],
  ◌∷◌, is_in, text_eq, text_eq_iff, ltb, if◌then◌else◌, arith,
}
use pypowervm.Prelude.Dict.{Dict, insert}
use pypowervm.Exec.{ok, err, hang, Exec, pure}
use pypowervm.Exec.Keeps.{pure-Keeps}
use pypowervm.Retry.{Exn, http, etag_mismatch}
use pypowervm.Transaction.{Fault, foreign, Service, Thread, given, getter, entry_transaction}
use pypowervm.Transaction.Locks.{IsLockService, Holds, entry_transaction-Keeps}
use pypowervm.Transaction.Task.{Subtask, WrapperTask, new, execute}
use pypowervm.Transaction.Task
use pypowervm.Transaction.Task.Names.{Built, fresh, added, HasNames, Built-HasNames}
use pypowervm.Transaction.Task.Run.{AreCalm, IsOrderly, execute_lem}
use pypowervm.Transaction.Task.Redrive.{IsContended, execute_redriven}
use pypowervm.Transaction.Feed.{FeedTask, create, add_to_all, replicate_tx}
use pypowervm.Transaction.Feed
use pypowervm.Transaction.Feed.Subtasks.{keys, AllHave, add_subtask-replicate_tx}

-- What the log of the world shows: a subtask was executed, an update sent or a wrapper refreshed.
data Entry : Type 0 where
  ran : Option String → Dict Bool → String → Entry
  sent : String → Entry
  reread : String → Entry

-- The updates made, the locks that the thread holds, and the log.
record World : Type 0 where
  count : ℕ
  held : List String
  log : List Entry

abbrev logged : Entry → World → World
logged e s = record s { log = s.log ++ e ∷ [] }

without : String → List String → List String
without u [] = []
without u (x ∷ xs) = let rest = without u xs in if text_eq x u then rest else x ∷ rest

is_in-without :
    (u v : String) (xs : List String) → is_in v (without u xs) ≡ (not (text_eq v u) && is_in v xs)
unfolding without is_in
is_in-without u v [] = ground arith
is_in-without u v (x ∷ xs) =
    ground (arith, is_in-without u v xs, text_eq_iff x u, text_eq_iff v x, text_eq_iff v u)

-- The first `refused` updates fail on a changed etag. A wrapper is its UUID.
abbrev server : ℕ → Service World (Unit {0}) String
server refused = record {
  uuid = λ w. w;
  get = λ u. pure u;
  refresh = λ w s. (ok w, logged (reread w) s);
  update = λ n w s. (
    if ltb s.count refused then err (http etag_mismatch (foreign tt)) else ok w,
    logged (sent w) (record s { count = s.count + 1 }),
  );
  sleep = λ t n. pure tt;
  acquire = λ u s. (ok tt, record s { held = u ∷ s.held });
  release = λ u s. record s { held = without u s.held };
}

server-IsLockService : IsLockService (server 0) (λ s. s.held)
server-IsLockService = record {
  acquire_ok = λ u r h. refl;
  acquire_held = λ u v r h. unfold is_in in refl;
  release_held = λ u v r. is_in-without u v r.held;
  get_quiet = λ u r. (λ c. cc, refl);
  refresh_quiet = λ w r. (λ c. cc, refl);
  sleep_quiet = λ t n r. (λ c. cc, refl);
}

abbrev idle : Thread World
idle = record { locks = "a" ∷ []; rest = record { count = 0; held = "a" ∷ []; log = [] } }

-- A method that calls a decorated method on the same wrapper.
abbrev nested : String → Exec (Thread World) (Exn (Fault (Unit {0}))) (Option String)
nested w = entry_transaction (server 0) (λ v. pure v) (given w)

entry_transaction-Keeps_example :
    ((entry_transaction (server 0) nested (getter "b") idle).0 ≢ hang)
    × Holds
        (server 0)
        (λ s. s.held)
        ("a" ∷ [])
        (entry_transaction (server 0) nested (getter "b") idle).1
entry_transaction-Keeps_example =
    entry_transaction-Keeps (server 0) (λ s. s.held) server-IsLockService nested
      (λ ls w.
        entry_transaction-Keeps (server 0) (λ s. s.held) server-IsLockService (λ v. pure v)
          (λ ls v. pure-Keeps _ v) ls (given w))
      ("a" ∷ []) (getter "b") idle (refl, λ v. refl)

abbrev Sub : Type 0
Sub = Subtask World (Unit {0}) String Bool

abbrev first : Sub
first = record {
  provides = some "first";
  flag_update = false;
  execute = λ p w th. (ok true, record th { rest = logged (ran (some "first") p w) th.rest });
}

abbrev second : Sub
second = record {
  provides = none;
  flag_update = true;
  execute = λ p w th. (ok true, record th { rest = logged (ran none p w) th.rest });
}

abbrev returns_true : Sub → Dict Bool → Bool
returns_true task p = true

abbrev task : WrapperTask World (Unit {0}) String Bool
task = record {
  name = "task";
  source = getter "b";
  tasks = first ∷ second ∷ [];
  allow_empty = false;
  update_timeout = none;
  provided = [];
  provided_keys = "first" ∷ [];
}

task-Built : Built task
unfolding new Task.add_subtask is_in
task-Built =
    added second
      (added first
        (fresh "task" (getter "b") false none (new "task" (getter "b") [] false none) refl) refl)
      refl

Built-HasNames_example : HasNames task
Built-HasNames_example = Built-HasNames task-Built

abbrev log_of : World → List Entry
log_of s = s.log

abbrev ran_entry : Sub → Dict Bool → String → Entry
ran_entry task p w = ran task.provides p w

calm : AreCalm (λ b. b) returns_true log_of ran_entry sent (first ∷ second ∷ [])
calm = ((λ p w th. (refl, refl, refl)), ((λ p w th. (refl, refl, refl)), tt))

server-IsOrderly :
    IsOrderly (λ b. b) returns_true log_of ran_entry sent (server 0) (λ u. u) (λ w. w)
server-IsOrderly = record {
  get_ok = λ u r. refl;
  get_log = λ u r. refl;
  update_ok = λ n w r. ground arith;
  update_log = λ n w r. refl;
  acquire_ok = λ u r. refl;
  acquire_log = λ u r. refl;
  release_log = λ u r. refl;
}

execute_lem_example :
    ((execute (λ b. b) (server 0) task idle).0 ≡ ok (some (some "b", insert "first" true [])))
    × ((execute (λ b. b) (server 0) task idle).1.0
        ≡ record task { source = given "b"; provided = insert "first" true [] })
    × ((execute (λ b. b) (server 0) task idle).1.1.rest.log
        ≡ ran (some "first") [] "b" ∷ ran none (insert "first" true []) "b" ∷ sent "b" ∷ [])
    × ((execute (λ b. b) (server 0) task idle).1.1.locks ≡ "a" ∷ [])
execute_lem_example =
    execute_lem (λ b. b) returns_true log_of ran_entry sent (server 0) (λ u. u) (λ w. w)
      server-IsOrderly task idle calm refl

-- The same with a fixed wrapper as the answer, and two updates that fail.
abbrev contended : Service World (Unit {0}) String
contended = record (server 2) {
  update = λ n w s. (
    if ltb s.count 2 then err (http etag_mismatch (foreign tt)) else ok "b",
    logged (sent w) (record s { count = s.count + 1 }),
  );
}

contended-IsContended :
    IsContended
      (λ b. b)
      returns_true
      (λ (s : World). s.count)
      log_of
      ran_entry
      sent
      reread
      contended
      2
      (foreign tt)
      (λ w. w)
      (λ w. "b")
contended-IsContended = record {
  fetched = λ u. u;
  get_ok = λ u r. refl;
  get_updates = λ u r. refl;
  get_log = λ u r. refl;
  refresh_ok = λ w r. refl;
  refresh_updates = λ w r. refl;
  refresh_log = λ w r. refl;
  sleep_ok = λ t n r. refl;
  sleep_updates = λ t n r. refl;
  sleep_log = λ t n r. refl;
  update_refused = λ n w r h. ground arith;
  update_ok = λ n w r h. ground arith;
  update_updates = λ n w r. refl;
  update_log = λ n w r. refl;
  acquire_ok = λ u r. refl;
  acquire_updates = λ u r. refl;
  acquire_log = λ u r. refl;
  release_updates = λ u r. refl;
  release_log = λ u r. refl;
}

-- What one execution that is driven again leaves in the log, the dictionary given.
abbrev one_try : Dict Bool → List Entry
one_try p = ran (some "first") p "b" ∷ ran none (insert "first" true p) "b" ∷ sent "b" ∷ []

abbrev provided_once : Dict Bool
provided_once = insert "first" true []

execute_redriven_example :
    ((execute (λ b. b) contended task idle).0 ≡ ok (some (some "b", provided_once)))
    × ((execute (λ b. b) contended task idle).1.0
        ≡ record task { source = given "b"; provided = provided_once })
    × ((execute (λ b. b) contended task idle).1.1.rest.count ≡ 2 + 1)
    × ((execute (λ b. b) contended task idle).1.1.rest.log
        ≡ one_try [] ++ reread "b" ∷ (one_try provided_once ++ reread "b" ∷ one_try provided_once))
    × ((execute (λ b. b) contended task idle).1.1.locks ≡ "a" ∷ [])
unfolding insert contended-IsContended
execute_redriven_example =
    execute_redriven (λ b. b) returns_true (λ (s : World). s.count) log_of ran_entry sent reread
      contended 2 (foreign tt) (λ w. w) (λ w. "b") contended-IsContended task calm
      ((λ p w th. refl), ((λ p w th. refl), tt)) (λ p. refl) idle (omega arith) refl refl

abbrev feed_task : FeedTask World (Unit {0}) String Bool ℕ
feed_task = record {
  name = "feed";
  feed = some ("b" ∷ "c" ∷ []);
  update_timeout = none;
  tx_by_uuid = [];
  common_tx = record task { source = getter "None" };
  post_exec = [];
}

add_subtask-replicate_tx_example :
    ((add_to_all second (replicate_tx (server 0) feed_task ("b" ∷ "c" ∷ []) [])).0 ≡ ok tt)
    × (keys (replicate_tx (server 0) (Feed.add_subtask second feed_task).1 ("b" ∷ "c" ∷ []) [])
        ≡ keys (add_to_all second (replicate_tx (server 0) feed_task ("b" ∷ "c" ∷ []) [])).1)
    × AllHave
        (first ∷ second ∷ second ∷ [])
        (replicate_tx (server 0) (Feed.add_subtask second feed_task).1 ("b" ∷ "c" ∷ []) [])
    × AllHave
        (first ∷ second ∷ second ∷ [])
        (add_to_all second (replicate_tx (server 0) feed_task ("b" ∷ "c" ∷ []) [])).1
add_subtask-replicate_tx_example =
    add_subtask-replicate_tx (server 0) second feed_task ("b" ∷ "c" ∷ []) refl
      (unfold Feed.add_subtask Task.add_subtask in refl)
