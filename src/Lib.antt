-- ===== src/Lib.antt =====
-- Verification of YanshiShield, a platform for federated learning (neursafe_fl/python).
--
-- A coordinator trains a model in rounds with clients that keep their data. Seven parts are
-- modelled.
--
-- ResourceManager (resource_manager/): places the workers of a client's tasks on nodes.
-- ResourceManager/Node.antt is node.py and resource.py, with the class `Node` as a record and its
-- methods as functions on it. ResourceManager/Allocation.antt is the allocation policy of rm.py
-- (`__allocate_resource`, `__filter_nodes` and what they call), ResourceManager/Manager.antt the
-- class `ResourceManager` with `request`, `release`, the restore after a restart and the events
-- of the platform's watch; `step` runs one of these calls. Amounts are whole numbers of a unit
-- fine enough for the requests at hand; what is free may be negative, so it is an integer.
--
-- SecureAggregate (libs/secure/secure_aggregate/): clients mask their weights so that the server
-- learns their sum only. SecureAggregate/DiffieHellman.antt is dh.py,
-- SecureAggregate/Protector.antt is ssa_protector.py, SecureAggregate/Unmasking.antt the
-- accumulation and decryption of ssa_server.py, SecureAggregate/Masks.antt the generators of the
-- masks at both sides (ssa_client.py, ssa_server.py), and SecureAggregate/Masks/Aggregate.antt
-- puts these together. numpy is the record `ArrayLib` of SecureAggregate/Arrays.antt, with the
-- laws of exact arithmetic as its fields and its generators of pseudorandom arrays as parameters; the
-- sharing of secrets is a function `recover_secret`. numpy's floats obey these laws up to rounding
-- only, and how far the rounding adds up is not modelled; nor are the OrderedDict variants.
--
-- SecureAggregate/Server.antt is the class `SSAServer` of ssa_server.py as a state machine that
-- handles one event after the other (messages, calls, timers), and SecureAggregate/Shares.antt is
-- how it sorts the shares. SecureAggregate/Client.antt and its child Secrets are the class
-- `SSAClient` of ssa_client.py, whose handlers, tasks and timers are events; the splitting of
-- secrets and the cipher are its parameters. SecureAggregate/SimpleServer.antt is
-- ssa_simple_server.py, the server for one mask.
--
-- JobScheduler (job_scheduler/): JobScheduler/Job.antt and JobScheduler/Job/Segments.antt are
-- job.py. The coroutines of `Job` are cut at their `yield`s into segments, which may interleave
-- in any order; what the outside answers comes in with a segment, and what a segment asks of it
-- is a list of actions. JobScheduler/Scheduler.antt is scheduler.py: its queue, its active jobs
-- and the database, with the jobs as shared objects. JobScheduler/Retry.antt is
-- util/operation_retry.py. A coordinator that exists already is not deleted and created again in
-- the model, and the loops that wait for the coordinator to stop or to go away are left out, as
-- are the restore of the jobs at a start and the queries. JobScheduler/Validations.antt and its
-- children are util/validations.py: the checks of a job's configuration and of a heartbeat. The
-- dicts under the keys of a configuration are a function of the key, and what the source writes
-- into one of them is the result. The check of the environment is left out.
--
-- Coordinator (coordinator/): runs one job. Coordinator/Round.antt is the class `RoundController`
-- of round_controller.py: `run` is cut where it awaits, and messages, the timer and a stop come
-- in as events between. Coordinator/Trainer.antt is trainer.py: the loop over the rounds, with
-- what each round and its evaluation come to as inputs, the model, the statistics and the
-- checkpoints. Coordinator/Validations.antt is validations.py, the checks of a configuration, and
-- Coordinator/Aggregator.antt is aggregator/weight_aggregator.py, with numpy and floats as parameters.
--
-- Selector (selector/): Selector/Client.antt is clients/client.py, Selector/Manager.antt and its
-- children are client_manager.py, with the clients as shared objects. The strategy's score, the
-- extenders, `random.sample` and the float product of the redundancy are parameters.
--
-- Client (client/): Client/Storage.antt and its children Clearing and Managing are
-- storage_manager.py: the monitor `DirMonitor`, with what its handlers leave behind when they
-- raise, `_clear_files`, and the class `StorageManager`, which is called back at each event. The
-- answers of the file system come in with the event; a removal from the disk is a name in a list.
-- Client/Tasks.antt is task_manager.py, with its ids of tasks in Client/Tasks/Ids.antt, and the life of a
-- task in task.py: creations, what becomes
-- of the files and of the workers, and stops come in one after the other. What the manager of
-- tasks uses of the resource manager is the interface `ResourceLayer`, and
-- Client/Tasks/Layer.antt fills it with ResourceManager/Manager.antt. The workers themselves, the
-- workspaces and the secure client of a task are left out. Client/Validation.antt is validation.py.
--
-- ModelManager (model_manager/): ModelManager/Registry.antt is the class `ModelManager` of
-- manager.py, and ModelManager/Model.antt is model.py, cut into segments where it waits for the
-- storage, for a heartbeat or for a timer. The restore at a start, the paths in the storage and
-- the storage agent are left out.
--
-- The loops of these parts run over lists or a count of rounds and are structural recursion, but
-- for the loop of the retries: it is recursion on fuel, and gets as many rounds as the code can
-- take, one for each try and one for the last test of the count. The calls that stop a round's
-- clients take their fuel as an argument, one more than the retries. The loop that looks for a
-- free version of a model gets one turn more than the model has versions.
--
-- Base.antt has the helpers they share: tests on numbers, lists, integers, dicts as association
-- lists in insertion order, and calls that raise. The Tests modules run the code on small inputs.
--
-- Not modelled: the transport, the database drivers and the platforms (calls of libraries), the
-- numerical code of compression, losses and optimizers, the workers of a
-- client, the data server and the command line.
pub mod Base
pub mod Client
pub mod Coordinator
pub mod JobScheduler
pub mod ModelManager
pub mod ResourceManager
pub mod SecureAggregate
pub mod Selector
