-- ===== src/Job/Poll.antt =====
-- poll_while_status of pypowervm/wrappers/job.py: when it ends, and with what.
use pypowervm.Prelude.{
  ℕ, zero, suc, ◌+◌, ◌-◌, ◌*◌, ◌≤◌, ◌<◌, ◌≡◌, ◌≢◌, refl, String, Bool, true, false, List, is_in,
  arith,
}
use pypowervm.Exec.{Result, ok, err, hang}
use pypowervm.Exn.{Exn}
use pypowervm.Job.{Server, State, microseconds, refresh, poll_loop, poll_while_status}

-- A second's sleep takes a second at least, a request takes no negative time, and comes to an end.
pub record Ticks (S : Server) : Type 0 where
  pub sleep_second : (w : S.World) → S.now w + microseconds ≤ S.now (S.sleep w)
  pub read_forward : (id : String) (w : S.World) → S.now w ≤ S.now (S.read_job id w).1
  pub read_ends : (id : String) (w : S.World) → (S.read_job id w).0 ≢ hang

-- What a poll that has ended has found, in the state where it ended.
abbrev pub Found : (S : Server) → List String → ℕ → ℕ → Result Exn Bool → State S → Type 0
Found S statuses timeout began (ok false) s = is_in s.job.entry.status statuses ≡ false
Found S statuses timeout began (ok true) s =
    (is_in s.job.entry.status statuses ≡ true)
    × (timeout ≢ 0)
    × (timeout * microseconds < S.now s.world - began)
Found S statuses timeout began (err e) s = Unit
Found S statuses timeout began hang s = Unit

module _ (S : Server) where
  poll_loop-Found :
      (fuel : ℕ) (statuses : List String) (timeout began : ℕ) (s : State S)
      → Found S statuses timeout began
          (poll_loop S fuel statuses timeout began s).0
          (poll_loop S fuel statuses timeout began s).1
  unfolding poll_loop
  poll_loop-Found zero statuses timeout began s = tt
  poll_loop-Found (suc fuel) statuses timeout began s =
      ground (arith, poll_loop-Found fuel statuses timeout began (refresh S s).1)

  refresh_frame :
      (s : State S) → ((refresh S s).1.threads ≡ s.threads) × ((refresh S s).1.job.op ≡ s.job.op)
  unfolding refresh
  refresh_frame s = ground arith

  poll_loop_frame :
      (fuel : ℕ) (statuses : List String) (timeout began : ℕ) (s : State S)
      → ((poll_loop S fuel statuses timeout began s).1.threads ≡ s.threads)
        × ((poll_loop S fuel statuses timeout began s).1.job.op ≡ s.job.op)
  unfolding poll_loop
  poll_loop_frame zero statuses timeout began s = (refl, refl)
  poll_loop_frame (suc fuel) statuses timeout began s =
      ground (arith, refresh_frame s, poll_loop_frame fuel statuses timeout began (refresh S s).1)

  module _ (ticks : Ticks S) (statuses : List String) (timeout began : ℕ)
      (positive : timeout ≢ 0) where
    poll_loop_ends :
        (fuel : ℕ) (s : State S)
        → began ≤ S.now s.world
        → zero < fuel
        → timeout * microseconds < (S.now s.world - began) + (fuel - 1) * microseconds
        → (poll_loop S fuel statuses timeout began s).0 ≢ hang
    unfolding poll_loop
    poll_loop_ends zero s h k room = absurd (omega arith)
    poll_loop_ends (suc fuel) s h k room = ground (
      arith,
      ticks.sleep_second s.world,
      ticks.read_forward s.job.entry.job_id (S.sleep s.world),
      ticks.read_ends s.job.entry.job_id (S.sleep s.world),
      poll_loop_ends fuel (refresh S s).1,
    )

  -- A poll that ends without timing out has left the Job in a status outside the list. One that
  -- times out had a timeout, is past it, and the Job's status is still in the list. Neither starts
  -- a thread.
  pub poll_while_status-Found :
      (fuel : ℕ) (statuses : List String) (timeout : ℕ) (s : State S)
      → let (r, t) = poll_while_status S fuel statuses timeout s in
        Found S statuses timeout (S.now s.world) r t × (t.threads ≡ s.threads)
  unfolding poll_while_status
  poll_while_status-Found fuel statuses timeout s = (
    poll_loop-Found fuel statuses timeout (S.now s.world) s,
    (poll_loop_frame fuel statuses timeout (S.now s.world) s).0,
  )

  pub poll_while_status_op :
      (fuel : ℕ) (statuses : List String) (timeout : ℕ) (s : State S)
      → (poll_while_status S fuel statuses timeout s).1.job.op ≡ s.job.op
  unfolding poll_while_status
  poll_while_status_op fuel statuses timeout s =
      (poll_loop_frame fuel statuses timeout (S.now s.world) s).1

  -- With a timeout of that many seconds a poll ends: `timeout + 2` rounds are enough, however the
  -- server answers.
  pub poll_while_status_ends :
      Ticks S
      → (fuel : ℕ) (statuses : List String) (timeout : ℕ) (s : State S) → timeout ≢ 0
      → timeout + 2 ≤ fuel
      → (poll_while_status S fuel statuses timeout s).0 ≢ hang
  unfolding poll_while_status
  poll_while_status_ends ticks fuel statuses timeout s positive enough =
      poll_loop_ends ticks statuses timeout (S.now s.world) positive fuel s (omega arith)
        (omega arith) (omega arith)
