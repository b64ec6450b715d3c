-- ===== src/Lib.antt =====
-- pypowervm: a verification library for the PowerVM REST client's own logic.
--
-- The program's parts that are modelled, and the file of each:
--   * Prelude, Exec, Exn: shared names, the monad of methods that change a state and may raise, with
--     the rules by which they keep an invariant (Exec/Keeps), and the exceptions of
--     pypowervm/exceptions.py that are raised or caught here.
--   * Retry (pypowervm/utils/retry.py): the `retry` decorator and the delay functions. `loop` is the
--     `for` statement, by recursion on the passes left; the callables are actions on a state.
--   * Job (pypowervm/wrappers/job.py): Jobs on the REST server. The server and the clock are the
--     parameter `Server`. A poll is a loop on fuel; with a timeout of t seconds t + 2 rounds are
--     enough (Job.Poll), since a round sleeps for a second at least.
--   * Power (pypowervm/tasks/power_opts.py, pypowervm/tasks/power.py): the options of a power Job
--     (Power/Opts), one power operation (Power/Op), which fills in and runs a Job, and the retry
--     flows (Power/Flow), which run several. `Power/Flow/Plan` holds the plan that the flows follow.
--   * SlotMap (pypowervm/tasks/slot_map.py): the store of an LPAR's slots, the lookups of a build map
--     (SlotMap/Build) and the rebuild on another host, its VSCSI part in SlotMap/Vscsi and the rest in
--     SlotMap/Rebuild; SlotMap/Save saves and loads a store. It uses Sanitize, which has the MAC and
--     WWPN sanitizers of pypowervm/util.py.
--   * NpivMap (pypowervm/tasks/vfc_mapper.py): virtual Fibre Channel mappings and the choice of their
--     physical ports. NpivMap/Wwpns has the searches by WWPNs, Maps the NPIV map and what adds and
--     removes mappings (VFCMapping of pypowervm/wrappers/virtual_io_server.py), Migrate the mappings of
--     a migration, and Pairs the WWPNs that a Job generates, by Job. The loop of _derive_npiv_map runs
--     on fuel; (pairs + 1) * (VIOSes + 1) passes are enough, since after a mapping it raises when no
--     VIOS has served it. Clients are found as in ScsiMap.
--   * Transaction (pypowervm/utils/transaction.py): the decorator entry_transaction, which locks, fetches
--     and retries; WrapperTask (Transaction/Task), whose execution is such a method and so uses Retry;
--     FeedTask (Transaction/Feed), which has a WrapperTask for each wrapper of a feed. A thread is its
--     list of UUIDs and the rest of the world (Thread); lockutils and the server are `Service`.
--   * Validation (pypowervm/utils/validation.py): whether a partition may be created or resized as
--     asked. Validation/Mem, Proc and All have the three validators, which are records of the methods
--     that `validate` calls; Python's numbers are the parameter `Numbers`. Whether a partition may be
--     modified is from pypowervm/wrappers/base_partition.py and logical_partition.py.
--   * Href (pypowervm/util.py): the UUIDs in the paths of REST URIs, by get_req_path_uuid.
--   * ScsiMap (pypowervm/tasks/scsi_mapper.py): searches among virtual SCSI mappings, with
--     ScsiMap/Build, which builds a mapping (VSCSIMapping of pypowervm/wrappers/virtual_io_server.py),
--     ScsiMap/Ops and ScsiMap/Index on a wrapper, and ScsiMap/Rest, which updates the server under a
--     lock and uses Retry. It reads clients' UUIDs by Href. An XML element is its identity, a number.
--   * NetBridge (pypowervm/tasks/network_bridger.py): the VLANs of network bridges, where trunk adapters
--     drive them, with what it asks of the wrappers of pypowervm/wrappers/network.py. NetBridge/Trunks and
--     Untag choose the trunk adapters and change them, Orphans has the VLANs of those in no SEA, Bridger
--     the bridger's own state and the host (Host), and Synch the methods under the lock, which use Retry.
--     `depth` bounds how often `_ensure_vlans_on_nb_synch` calls itself; one more than the bridge has
--     arbitrary PVIDs among the VLANs is enough, where the host keeps what it is sent
--     (NetBridge/Ends). NetBridge/Vnet and VnetOps are NetworkBridgerVNET, for which
--     NetBridge/LoadGroups chooses load groups and virtual networks.
--   * LparFields (pypowervm/utils/lpar_builder.py): the bounded number fields of an LPAR's attributes,
--     and the minimum, desired and maximum that they make up.
--
-- A method of the source that changes its object is a function that returns the changed record. An
-- exception is the value `err`; `hang` stands for a loop that has used up its fuel.
--
-- Not modelled: HTTP, XML, sockets and threads over third-party libraries, the wrappers' accessors,
-- log lines and deprecation warnings; the other modules of pypowervm/tasks, which are mostly sequences of
-- requests to the server; the monitoring and the adapter; of NetBridge the synchronised methods of
-- NetworkBridgerVNET; of pypowervm/utils/lpar_builder.py what copies attributes into a wrapper.
pub mod Prelude
pub mod Exec
pub mod Exn
pub mod Sanitize
pub mod Job
pub mod Retry
pub mod Power
pub mod SlotMap
pub mod NpivMap
pub mod Transaction
pub mod Href
pub mod LparFields
pub mod NetBridge
pub mod ScsiMap
pub mod Validation
