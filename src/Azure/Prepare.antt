-- ===== src/Azure/Prepare.antt =====
-- PrepareResourceGroup of pkg/providers/azure/deploy.go.
use andaime.Base.{
  false, List, [], ◌∷◌, ◌++◌, Option, none, some, Text, codes, is_empty, Dict, keys, if◌then◌else◌,
}
use andaime.Types.{MachineResourceState}
use andaime.Types.Resources.{azure_vm}
use andaime.Machine.{Machine}
use andaime.Cluster.{get_machines}
use andaime.Status.{new_display_vm_status, new_display_status}
use andaime.Azure.{ClientError, AzureClient, AzurePlan, err, D, pure, fail, call, ◌>>=◌, ◌>>◌}
use andaime.Azure.Template.{update_display}

abbrev pub first_region : Dict Machine → Text
first_region [] = []
first_region ((name, m) ∷ ms) = m.region

module _ {W : Type 0} (client : AzureClient W) (plan : AzurePlan) where
  -- `UpdateStatus` for each of the machines.
  abbrev pub show_all : (Text → D W (Unit {0})) → List Text → D W (Unit {0})
  show_all f [] = pure tt
  show_all f (name ∷ names) = f name >> show_all f names

  abbrev pub opened : List Text → D W (Unit {0})
  opened names s =
      show_all
        (λ name. update_display plan (
          new_display_status name azure_vm.short_resource_name azure_vm
            MachineResourceState.not_started))
        names
        (record s {
          viper_path =
              codes "deployments."
              ++ (plan.unique_id ++ (codes ".azure." ++ s.resource_group_name));
          recorded = [];
        })

  abbrev pub group_made : List Text → Option ClientError → D W (Unit {0})
  group_made names (some e) = fail (codes "failed to create resource group: " ++ e.text)
  group_made names none = opened names

  -- `PrepareResourceGroup`
  unfoldable pub prepare_resource_group : D W (Unit {0})
  prepare_resource_group s =
      let ms = get_machines s.machines in
      let location =
        if is_empty s.resource_group_location then first_region ms else s.resource_group_location in
      let named = record s { resource_group_name = plan.provider_group } in
      if is_empty location
      then (
        err (codes "resource group location is not set and couldn't be inferred from machines"),
        named,
      )
      else (do
        show_all
            (λ name.
              update_display plan (new_display_vm_status name MachineResourceState.pending false))
            (keys ms)
        call (client.get_or_create_resource_group plan.provider_group location)
            >>= group_made (keys ms))
          (record named { resource_group_location = location })
