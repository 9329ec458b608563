-- ===== src/Lib.antt =====
-- Kubebird, a Kubernetes operator for Firebird servers: a model of its reconciler in Go and the
-- properties that make it safe for the data.
--
-- A request names an Instance (api/v1/instance_types.go, Api.antt). `Reconcile`
-- (internal/controller/instance_controller.go, Reconcile.antt) reads it and either deletes it
-- (reconcileDeletion, Deletion.antt) or brings the cluster to its spec (reconcileInstance): the
-- SYSDBA Secret (reconcileSysdbaSecret, Secret.antt), a major version upgrade (instance_upgrade.go,
-- Upgrade.antt), the ConfigMap, the Service and the StatefulSet (the mutate functions of
-- instance_resources.go, Workload.antt, with the scripts of Security.antt), the volumes
-- (reconcilePVCs and deletePVC, Storage.antt), the databases (reconcileDatabases of
-- instance_provision.go, Databases.antt), the CronJobs (instance_backup_schedule.go, Schedule.antt
-- with Schedule/Script.antt and Schedule/Jobs.antt) and the server's version (instance_version.go,
-- Version.antt and Reconcile.antt). The offline backup that a deletion and an upgrade share
-- (backupDatabases down to createDatabaseBackupPod) is Backup.antt, the writers of the status
-- (setPhase, setError, setProgress, setDeletionMessage, setAvailable) are Status.antt, and names,
-- labels and the accessors of the spec are Naming.antt. Functions keep the names of the source.
--
-- A method is an action (Kube/Action.antt): it takes the environment and a state, the Instance that
-- the methods share a pointer to with the history of calls so far, and returns a value or an error.
-- Each call of the Kubernetes client, of exec in a pod or of crypto/rand is a value (Kube/Calls.antt)
-- and its reply is the environment's choice, which may depend on the whole history: a statement over
-- every environment covers every cluster, every fault and every interleaving with other clients. A
-- status write puts the server's answer in the Instance's place, as the client decodes it.
-- What the proofs rely on of the server is `IsHonest` (Kube/Honest.antt), that a status write answers
-- with the object that was written, and in some places `IsFaithful`, that besides a write of the
-- Instance and a read answer with the name written or asked for, and finalizers leave the name alone.
-- CreateOrUpdate is a read, the
-- source's callback and a write. Kube/Objects.antt has the fields of the objects that the program
-- reads or sets.
--
-- Kube/Rules.antt has pre- and postconditions of actions, Kube/Stable.antt the invariants that
-- most methods keep; the Keeps modules show it method by method.
--
-- The loop of generateRandomPassword has no bound in the source and `password_rounds` = 64 rounds
-- here, after which it fails with an error of its own; a round is repeated with probability 1/64.
-- Other loops are recursions on the lists that they walk.
--
-- Watches.antt has the requests that a change of a Secret causes (findInstancesForSecret), and
-- Manager.antt the start of the manager (cmd/main.go): the options made of its flags and of
-- WATCH_NAMESPACE, and the steps up to the start, each of which may fail.
--
-- Upgrade/Machine.antt is an abstract machine for status.upgrade, and Kube/Traced.antt has the rules
-- for actions whose calls are told one by one.
--
-- Not modelled: logging, contexts and cancellation, the registration of watches, the parsing of
-- flags, generated code, and what a shell or isql does with the scripts, which are texts here.
-- The stage of an upgrade and the backup mode are closed types, as the CRD enumerates them. A command in
-- a pod without an input (execInPodOutput) is one with an empty input.
-- Namespaces are left out but in Watches.antt: every object has that of the Instance.
-- SetControllerReference inside CreateOrUpdate records the owner's name. sha256, SetStatusCondition
-- and the finalizer functions of controllerutil are parameters of the environment.
pub mod Prelude
pub mod Api
pub mod Naming
pub mod Kube
pub mod Manager
pub mod Status
pub mod Storage
pub mod Version
pub mod Backup
pub mod Upgrade
pub mod Deletion
pub mod Databases
pub mod Secret
pub mod Security
pub mod Workload
pub mod Schedule
pub mod Reconcile
pub mod Watches
pub mod Tests
