-- ===== src/NpivMap/Pairs.antt =====
-- The WWPN pairs that the server generates, by a Job (build_wwpn_pair, pypowervm/tasks/vfc_mapper.py).
use Prim.Native.Char.{Char, code}
use pypowervm.Prelude.{ℕ, String, Bool, true, none, some, List, [], ◌∷◌, ◌==◌}
use pypowervm.Prelude.Dict.{Dict, lookup}
use pypowervm.Exec.{Exec, Result, ok, err, hang, ◌>>=◌, ◌>>◌}
use pypowervm.Exn.{Exn, foreign, decimal}
use pypowervm.Job.{Entry, Server, Thread, JobM, get_job, wrap, results_dict, run_job}
use pypowervm.NpivMap.Wwpns.{split_at}

abbrev pub is_comma : Char → Bool
is_comma c = code c == 44

-- `job_result['wwpnList'].split(',')`
unfoldable pub wwpn_list : Result Exn (Dict String) → Result Exn (List String)
unfolding split_at lookup
wwpn_list (ok d) = elim (lookup "wwpnList" d) [
  | none ↦ err (foreign "wwpnList")
  | some s ↦ ok (split_at is_comma s)
]
wwpn_list (err e) = err e
wwpn_list hang = hang

module _ (S : Server) where
  -- With the Job read, and the default timeout of run_job.
  unfoldable pub generate_pairs : ℕ → ℕ → String → ℕ → JobM S (List String)
  unfolding run_job results_dict wwpn_list decimal
  generate_pairs fuel default_timeout host_uuid pair_count = do
    run_job S fuel host_uuid (("numberPairsRequested", decimal pair_count) ∷ []) default_timeout
        true
    j ← get_job S
    (λ s. (wwpn_list (results_dict j.entry.parm_names j.entry.parm_values []), s))

  -- With what the first request has answered.
  unfoldable pub with_template :
      ℕ
      → ℕ
      → String
      → ℕ
      → List Thread
      → Result Exn Entry × S.World
      → Result Exn (List String) × (S.World × List Thread)
  unfolding wrap generate_pairs
  with_template fuel default_timeout host_uuid pair_count threads (ok e, w) =
      let (r, s) =
        generate_pairs fuel default_timeout host_uuid pair_count
          (record { job = wrap e; world = w; threads = threads }) in
      (r, (s.world, s.threads))
  with_template fuel default_timeout host_uuid pair_count threads (err x, w) = (err x, (w, threads))
  with_template fuel default_timeout host_uuid pair_count threads (hang, w) = (hang, (w, threads))

  -- On the server's state and the threads started.
  unfoldable pub build_wwpn_pair :
      ℕ → ℕ → String → ℕ → Exec (S.World × List Thread) Exn (List String)
  unfolding with_template
  build_wwpn_pair fuel default_timeout host_uuid pair_count (w, threads) =
      with_template fuel default_timeout host_uuid pair_count threads
        (S.read_template "ManagedSystem" host_uuid "GetNextWWPNs" w)
