-- ===== src/Lib.antt =====
-- Andaime deploys Bacalhau clusters on the machines of three clouds. A deployment holds machines;
-- each machine has resources (of its cloud) and services (that are installed on it). The deployer
-- installs Docker, the core packages and Bacalhau over SSH and reports its steps; the display takes
-- statuses and queued updates, and writes what they say back to the machines.
--
-- The development is a shallow embedding. A file is named for the part of the program it models,
-- and the files in the folder beside it prove what they are named for; Examples has the tests.
--   * Base: Boolean tests, lists over the native numbers, Go strings as lists of bytes, and Go maps
--     as association lists with one entry for each key.
--   * Types: the constants and small structs of pkg/models/types.go, deployment.go and
--     types_azure.go, types_gcp.go, types_aws.go.
--   * Location: internal/clouds/general/location.go (ParseRegionZone, NormalizeLocation) and the
--     tests of internal/clouds/{azure,gcp,aws}/locations.go. The tables that the build embeds are a
--     parameter, already decoded.
--   * Machine: pkg/models/machine.go. A method that writes is a function from machine to machine;
--     NewMachine gives an Option, whose none is the error.
--   * Status: the statuses of pkg/models/types.go, UpdateOnlyChangedStatus, machineNeedsUpdating.
--   * Ring: pkg/utils/circular_buffer.go. A write out of range, where Go panics, is none.
--   * Display: pkg/display/display_model.go and update_processor.go: UpdateStatus, ProcessUpdate.
--   * Remote: the interface of a host that the deployer talks to, with the scripts, templates and
--     JSON it reads; an implementation is a parameter of every theorem about the deployer.
--   * Exec: runs with the machine, the host and the updates that were sent. An error ends a run and
--     keeps what was done. Exec.Rules and Exec.Keeps are the rules that proofs about runs apply.
--   * Install: InstallDockerAndCorePackages of pkg/models/machine.go, and RestartService of
--     pkg/sshutils/ssh_config.go.
--   * Node: ProvisionBacalhauNodeWithCallback of pkg/providers/common/cluster_deployer.go with all
--     the steps that it calls.
--   * Cluster: FindOrchestratorMachine, ProvisionOrchestrator, ProvisionWorker and
--     ProvisionBacalhauCluster of the same file, over the machines of pkg/models/deployment.go.
--     Statuses go to the machine itself, so a machine is taken to stand under its own name.
--     Cluster.Wait is WaitForAllMachinesToReachState, over the turns of its loop, which are given:
--     after the last of them it still waits.
--   * Settings: ReadBacalhauSettingsFromViper of pkg/models/config.go, over a type of raw values; the
--     lines of the generated table of internal/bacalhau_valid_keys.go are a parameter.
--   * SettingsFile: cmd/beta/provision/settings_parser.go, over the bytes of a file. Print is the form
--     of a file that the parser reads back.
--   * Config: ProcessMachinesConfig of pkg/providers/common/machine_config.go. What viper, the key
--     files and the tables of the clouds hold is a record, Config, as are the ids that are drawn.
--   * Ssh: pkg/sshutils/ssh_config.go: commands, PushFile, InstallSystemdService and WaitForSSH, over
--     the SSH and SFTP libraries as an interface, Link. A state counts what is open. WaitForSSH
--     recurs on the retries that are left; its network, clock and context are numbered answers.
--   * Aws: deployVM of pkg/providers/aws/aws_compute_operations.go and GetLatestUbuntuAMI of
--     provider.go there, over the client of EC2 as an interface. A state lists what was launched.
--   * Gcp: CreateAndConfigureVM of pkg/providers/gcp/provider.go with its addresses, and ListAddresses
--     of client_compute.go there, over the client and the iterator of the SDK.
--   * Azure: pkg/providers/azure/deploy.go: PrepareResourceGroup, CreateResources, deployMachine,
--     deployTemplateWithRetry and GetVMIPAddresses, over the client of Azure as an interface. The
--     locations, which the code deploys side by side, run one after the other. A machine is taken to
--     stand under its own name. The loops recur on the attempts that are left.
--   * Store: pkg/models/node_store.go and node_info.go: the file of deployed nodes. The YAML package is
--     a parameter, and any call of the operating system may fail, that of os.Remove included.
--   * Utils: pkg/utils/slice.go, utils.go, strings.go and objects.go: sets, cut strings and tags.
--
-- Every function is total by structural recursion, so there is no fuel. Numbers are natural
-- numbers: times and sizes of these parts are never negative; the counts of a configuration and the
-- limit of TruncateString, which can be, are integers. Letters are ASCII, as in the locations and names that the code compares.
--
-- Not modelled: locks, goroutines and channels, whose operations are taken one at a time; contexts
-- and time-outs; the log and the terminal; the SDKs of the clouds, SSH and SFTP; the reading of
-- configuration files; fields of a struct that no modelled operation reads. Of the providers: networks,
-- projects, keys, polling, the user data of an EC2 instance, and the destruction of deployments, which
-- are chains of calls of the SDKs; PrepareDeployment, which reads untyped maps; the command line.
pub mod Base
pub mod Types
pub mod Location
pub mod Machine
pub mod Status
pub mod Ring
pub mod Display
pub mod Remote
pub mod Exec
pub mod Install
pub mod Node
pub mod Cluster
pub mod Utils
pub mod Settings
pub mod Aws
pub mod Azure
pub mod Config
pub mod Gcp
pub mod SettingsFile
pub mod Ssh
pub mod Store
