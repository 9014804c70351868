-- ===== src/Lib.antt =====
-- Greenplum for Kubernetes: the operator that keeps a Greenplum database in a Kubernetes cluster,
-- and the programs that run in the database's pods.
--
-- The parts and how they interact. A user writes a GreenplumCluster or a GreenplumPXFService. The API
-- server asks the operator's webhook, which validates creations and updates (Admission). What it lets
-- through, the operator's reconcilers work on (Operator): they set defaults, find the active master,
-- handle the finalizer, spread the pods over the nodes, write the config map, the services and the
-- stateful sets, record the status and start an expansion job where there are new primaries. The pods
-- of the stateful sets (Instance) prepare their container, first as root, label their volume claim with
-- the version of the database and run three daemons: one initializes or starts the database from the
-- config map, one keeps the host keys, one is sshd. The job runs gpexpand on the active master. Apart
-- from these, a program checks the packages of a release against security notices (Release).
--
-- Which file models what, with the paths from the repository's root:
--   Api/Cluster, Api/Pxf      greenplum-operator/api/v1, v1beta1: the types, by the fields that are read
--   Api/Quantity              resource.Quantity of k8s.io/apimachinery, a parameter
--   Admission/Handler         pkg/admission/handler.go (HandleValidate) of greenplum-operator
--   Admission/Create          validate_create_greenplumclusters.go
--   Admission/Update          validate_update_greenplumclusters.go
--   Admission/PxfService      validate_greenplumpxfservices.go
--   Admission/Webhook, Registration
--                             webhook.go, certificate.go
--   Admission/Shared          validate_shared_functions.go
--   Operator/Reconcile        controllers/greenplumcluster/greenplumcluster_controller.go (Reconcile)
--   Operator/Resources        the same file (createOrUpdateClusterResources)
--   Operator/Defaults, Status, Finalizer, Expansion, AntiAffinity
--                             controllers/greenplumcluster/reconcile_*.go
--   Operator/Executor         pkg/executor/active_master.go
--   Operator/StatefulSet      pkg/sset/sset.go
--   Operator/ConfigMap, Services
--                             pkg/configmap/config_map.go, pkg/service
--   Operator/Pxf              controllers/greenplumpxfservice_controller.go
--   Operator/Pxf/Objects      pkg/pxf/pxf.go
--   Instance/Hosts            pkg/net/generate_host_list.go
--   Instance/Config           pkg/instanceconfig/reader.go
--   Instance/Machine          the pod's commands, files and hosts; greenplum_command.go,
--                             pkg/net/multihost/parallel_foreach.go, pkg/fileutil/file_writer.go (Append)
--   Instance/Expand           greenplum-instance/cmd/runGpexpand, cmd/waitForKnownHosts
--   Instance/KeyScan          greenplum-instance/cmd/sshKeyScan
--   Instance/Ssh              pkg/net/ssh: exec.go, exec_multihost.go, known_hosts_waiter.go, keyscanner.go
--   Instance/Database         greenplum-instance/cmd/startGreenplumContainer/startContainerUtils:
--                             gpinitsystem_config.go, cluster.go, cluster_init_daemon.go
--   Instance/KnownHosts       pkg/net/ssh/knownhosts/reader.go, keyscanner/scan_host_keys.go,
--                             greenplum-instance/controllers/knownHosts_controller.go
--   Instance/Dns              pkg/net/dns/resolver.go (Execute, PollUntilConsistent)
--   Instance/Files            pkg/fileutil (Insert, CopyFile), pkg/ubuntuUtils/ubuntu.go
--   Instance/Multidaemon      pkg/multidaemon/multidaemon.go
--   Instance/Start            startContainerUtils: start_container.go (Container),
--                             root_container_starter.go (Root, Cgroup, SubDomain),
--                             gpadmin_container_starter.go (Gpadmin), label_pvc_starter.go (LabelPvc)
--                             with pkg/hostpod, sshd.go and multidaemon_starter.go (Sshd)
--   Instance/Pxf              greenplum-instance/cmd/startPXF
--   Operator/Roles            greenplum-operator/pkg/serviceaccount
--   Operator/Job              greenplum-operator/pkg/gpexpandjob, pkg/sshkeygen
--   Operator/Images           greenplum-operator/cmd/greenplumOperator/main.go (the image names)
--   Release                   release/security_check.go
--   Prelude                   numbers, texts, maps as association lists, errors as values and
--                             code that calls the outside world
--   Tests                     concrete clusters, pods and answers
--
-- State and operations. The webhook reads a snapshot: within one request a question has one answer.
-- The reconcilers and the pods' programs are state passing over the history of the calls made, newest
-- first; the answer to a call is any function of the history before it, so the outside may change
-- between two calls. A Go error is a value with its text and whether it means "not found".
-- Operations keep their Go names in the spelling of the language: handleFinalizer is handle_finalizer.
-- Code that reads a host's answers from a channel gets them as a list in the order of arrival. The
-- daemons of a pod are goroutines that take their steps in any order, a step relation; a panic is an
-- error told apart by its text.
--
-- Numbers. `int` is unbounded; a conversion to int32 wraps. Decimal printing has fuel n + 1 for n,
-- which is enough since each round divides by ten. The loop over the known_hosts entries has one more
-- round than the text has characters, which is enough where the parser shortens the text. The polling
-- of a host name has 301 rounds for five minutes, each of which sleeps for a second at least.
-- Lower case and trimming are those of ASCII texts.
--
-- Parameters of the model: quantities, semantic equality of the API machinery, JSON decoding and the
-- scheme, strconv, path and regular expressions, ssh keys and their parser, certificates, minio,
-- go-deb-version, go-semi-semantic, kubectl's rbac package, CreateOrUpdate of controller-runtime, the
-- informer of client-go, PollImmediate, and everything that the API server, the pods and the files
-- answer.
--
-- Not modelled: what is logged and printed; the content that CreateOrUpdate writes while the cluster's
-- objects are reconciled, beyond what Operator/Job and Operator/Roles say of it; flags, sockets and the
-- wiring of the programs; test utilities. A map that is nil and one that is empty are the same here.
pub mod Prelude
pub mod Api
pub mod Operator
pub mod Instance
pub mod Admission
pub mod Release
pub mod Tests
