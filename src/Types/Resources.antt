-- ===== src/Types/Resources.antt =====
-- The resource tables of pkg/models/types_azure.go, types_gcp.go and types_aws.go, and the
-- conversion of a provider's state string.
use andaime.Base.{Bool, List, [], ◌∷◌, Text, codes, same, is_empty, not, equal_fold, if◌then◌else◌}
use andaime.Types.{DeploymentType, ResourceType, no_resource_type, MachineResourceState}

abbrev resource : Text → Text → ResourceType
resource s short = record { resource_string = s; short_resource_name = short }

abbrev pub azure_nic : ResourceType
azure_nic = resource (codes "Microsoft.Network/networkInterfaces") (codes "NIC ")

abbrev pub azure_vnet : ResourceType
azure_vnet = resource (codes "Microsoft.Network/virtualNetworks") (codes "VNET")

abbrev pub azure_snet : ResourceType
azure_snet = resource (codes "Microsoft.Network/subnets") (codes "SNET")

abbrev pub azure_nsg : ResourceType
azure_nsg = resource (codes "Microsoft.Network/networkSecurityGroups") (codes "NSG ")

abbrev pub azure_vm : ResourceType
azure_vm = resource (codes "Microsoft.Compute/virtualMachines") (codes "VM  ")

abbrev pub azure_disk : ResourceType
azure_disk = resource (codes "Microsoft.Compute/disks") (codes "DISK")

abbrev pub azure_ip : ResourceType
azure_ip = resource (codes "Microsoft.Network/publicIPAddresses") (codes "IP  ")

abbrev pub azure_guest_attestation : ResourceType
azure_guest_attestation =
    resource (codes "Microsoft.Compute/virtualMachines/extensions/GuestAttestation") (codes "GATT")

-- `RequiredAzureResources`
unfoldable pub required_azure_resources : List ResourceType
required_azure_resources =
    azure_vnet ∷ azure_nic ∷ azure_nsg ∷ azure_ip ∷ azure_disk ∷ azure_vm ∷ []

-- `GetAllAzureResources`
unfoldable pub get_all_azure_resources : List ResourceType
get_all_azure_resources =
    azure_nic ∷ azure_vnet ∷ azure_snet ∷ azure_nsg ∷ azure_vm ∷ azure_disk ∷ azure_ip
    ∷ azure_guest_attestation ∷ []

abbrev pub gcp_instance : ResourceType
gcp_instance = resource (codes "compute.googleapis.com/Instance") (codes "VM  ")

-- `RequiredGCPResources`
unfoldable pub required_gcp_resources : List ResourceType
required_gcp_resources =
    resource (codes "cloudresourcemanager.googleapis.com/Project") (codes "PRJ ")
    ∷ resource (codes "compute.googleapis.com/Network") (codes "VPC ")
    ∷ resource (codes "compute.googleapis.com/Firewall") (codes "FW  ")
    ∷ gcp_instance
    ∷ resource (codes "compute.googleapis.com/Disk") (codes "DISK")
    ∷ resource (codes "iam.googleapis.com/ServiceAccount") (codes "SA  ")
    ∷ resource (codes "cloudresourcemanager.googleapis.com/IAMPolicy") (codes "IAM ")
    ∷ []

-- `RequiredAWSResources`
unfoldable pub required_aws_resources : List ResourceType
required_aws_resources =
    resource (codes "aws:ec2:vpc") (codes "VPC ")
    ∷ resource (codes "aws:ec2:subnet") (codes "SNET")
    ∷ resource (codes "aws:ec2:security-group") (codes "SG  ")
    ∷ resource (codes "aws:ec2:instance") (codes "EC2 ")
    ∷ resource (codes "aws:ec2:volume") (codes "VOL ")
    ∷ []

-- The choice that `NewMachine` and `countCompletedResources` make; an unknown provider has none.
unfoldable pub required_resources : DeploymentType → List ResourceType
unfolding required_azure_resources required_gcp_resources required_aws_resources
required_resources DeploymentType.azure = required_azure_resources
required_resources DeploymentType.gcp = required_gcp_resources
required_resources DeploymentType.aws = required_aws_resources
required_resources DeploymentType.unknown = []

-- The loop of `GetAzureResourceType`.
unfoldable pub find_resource_type : Text → List ResourceType → ResourceType
find_resource_type r [] = no_resource_type
find_resource_type r (t ∷ ts) =
    if equal_fold t.resource_string r then t else find_resource_type r ts

unfoldable pub get_azure_resource_type : Text → ResourceType
unfolding find_resource_type get_all_azure_resources
get_azure_resource_type r = find_resource_type r get_all_azure_resources

-- `IsValidAzureResource`
pub is_valid_azure_resource : Text → Bool
is_valid_azure_resource r = not (is_empty (get_azure_resource_type r).resource_string)

-- `ConvertFromAzureStringToResourceState`
unfoldable pub convert_from_azure_string_to_resource_state : Text → MachineResourceState
convert_from_azure_string_to_resource_state s =
    if same s (codes "Not Started")
    then MachineResourceState.not_started
    else if same s (codes "Pending")
    then MachineResourceState.pending
    else if same s (codes "Creating")
    then MachineResourceState.pending
    else if same s (codes "Failed")
    then MachineResourceState.failed
    else if same s (codes "Succeeded")
    then MachineResourceState.succeeded
    else if same s (codes "Updating")
    then MachineResourceState.succeeded
    else if same s (codes "Running")
    then MachineResourceState.succeeded
    else MachineResourceState.unknown
