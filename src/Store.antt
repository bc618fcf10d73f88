-- ===== src/Store.antt =====
-- pkg/models/node_store.go and node_info.go: the file of deployed nodes. `File` is what the path of
-- the store holds, `temps` the number of temporary files beside it, and `fails` says which call of
-- the operating system fails. The YAML package is the parameter `Yaml`. `none` is a panic.
pub mod Add
pub mod Unique
pub mod Examples
use andaime.Base.{
  ℕ, ◌+◌, ◌-◌, Bool, true, false, ◌&&◌, ◌||◌, List, [], ◌∷◌, ◌++◌, Option, none, some, Text, same,
  is_empty, if◌then◌else◌,
}

pub record NodeInfo : Type 0 where
  pub name : Text
  pub node_ip : Text
  pub orchestrator_ip : Text
  pub docker_installed : Bool
  pub bacalhau_installed : Bool
  pub custom_script : Bool
  pub ssh_username : Text
  pub ssh_key_path : Text

pub data NodeFault : Type 0 where
  no_name no_node_ip no_ssh_username no_ssh_key_path : NodeFault

-- `Validate`
unfoldable pub validate : NodeInfo → Option NodeFault
validate n =
    if is_empty n.name
    then some NodeFault.no_name
    else if is_empty n.node_ip
    then some NodeFault.no_node_ip
    else if is_empty n.ssh_username
    then some NodeFault.no_ssh_username
    else if is_empty n.ssh_key_path
    then some NodeFault.no_ssh_key_path
    else none

-- `yaml.Marshal` and `yaml.Unmarshal`
pub record Yaml : Type 0 where
  pub marshal : List NodeInfo → Option Text
  pub unmarshal : Text → Option (List NodeInfo)

pub data File : Type 0 where
  missing unreadable : File
  contents : Text → File

pub record NodeStore : Type 0 where
  pub file : File
  pub temps : ℕ

pub data ReadResult : Type 0 where
  not_exist read_failed parse_failed : ReadResult
  nodes : List NodeInfo → ReadResult

abbrev pub parsed : Option (List NodeInfo) → ReadResult
parsed none = ReadResult.parse_failed
parsed (some ns) = ReadResult.nodes ns

-- `readNodes`
unfoldable pub read_nodes : Yaml → File → ReadResult
read_nodes yaml File.missing = ReadResult.not_exist
read_nodes yaml File.unreadable = ReadResult.read_failed
read_nodes yaml (File.contents text) = parsed (yaml.unmarshal text)

abbrev pub listed : ReadResult → Option (List NodeInfo)
listed ReadResult.not_exist = some []
listed ReadResult.read_failed = none
listed ReadResult.parse_failed = none
listed (ReadResult.nodes ns) = some ns

-- `GetNodes`; `none` is its error.
unfoldable pub get_nodes : Yaml → NodeStore → Option (List NodeInfo)
get_nodes yaml s = listed (read_nodes yaml s.file)

pub data WriteCall : Type 0 where
  marshal create_temp mkdir_all write_file rename remove_at_once remove : WriteCall

-- The temporary file is gone.
abbrev pub without_temp : NodeStore → NodeStore
without_temp s = record s { temps = s.temps - 1 }

-- The deferred `os.Remove(tmpPath)` of a temporary file that is there. Its error is dropped.
abbrev pub removed : (WriteCall → Bool) → NodeStore → NodeStore
removed fails s = if fails WriteCall.remove then s else without_temp s

-- `writeNodes` after the temporary file is there. After a failed rename the file is removed at once;
-- where it is gone, by that or by a rename, the deferred call finds nothing.
unfoldable pub write_temp : (WriteCall → Bool) → NodeStore → Text → NodeStore × Option WriteCall
write_temp fails s text =
    if fails WriteCall.mkdir_all
    then (removed fails s, some WriteCall.mkdir_all)
    else if fails WriteCall.write_file
    then (removed fails s, some WriteCall.write_file)
    else if fails WriteCall.rename
    then (
      if fails WriteCall.remove_at_once then removed fails s else without_temp s,
      some WriteCall.rename,
    )
    else (without_temp (record s { file = File.contents text }), none)

abbrev pub write_text : (WriteCall → Bool) → NodeStore → Option Text → NodeStore × Option WriteCall
write_text fails s none = (s, some WriteCall.marshal)
write_text fails s (some text) =
    if fails WriteCall.create_temp
    then (s, some WriteCall.create_temp)
    else write_temp fails (record s { temps = s.temps + 1 }) text

-- `writeNodes`; the answer is the call that failed.
unfoldable pub write_nodes :
    Yaml → (WriteCall → Bool) → NodeStore → List NodeInfo → NodeStore × Option WriteCall
write_nodes yaml fails s ns = write_text fails s (yaml.marshal ns)

-- The loop of `AddNode` that looks for a node with the same name and address.
unfoldable pub already_exists : NodeInfo → List NodeInfo → Bool
already_exists n [] = false
already_exists n (m ∷ ns) = same m.name n.name && same m.node_ip n.node_ip || already_exists n ns

pub data AddResult : Type 0 where
  added not_read duplicate : AddResult
  invalid : NodeFault → AddResult
  not_written : WriteCall → AddResult

abbrev pub write_result : NodeStore × Option WriteCall → NodeStore × AddResult
write_result (s, none) = (s, AddResult.added)
write_result (s, some call) = (s, AddResult.not_written call)

-- `AddNode` after the nodes are read: a missing file is no error, and leaves a nil list.
unfoldable pub add_read :
    Yaml → (WriteCall → Bool) → NodeStore → NodeInfo → ReadResult → Option (NodeStore × AddResult)
add_read yaml fails s n ReadResult.not_exist = none
add_read yaml fails s n ReadResult.read_failed = some (s, AddResult.not_read)
add_read yaml fails s n ReadResult.parse_failed = some (s, AddResult.not_read)
add_read yaml fails s n (ReadResult.nodes ns) = some (
    if already_exists n ns
    then (s, AddResult.duplicate)
    else write_result (write_nodes yaml fails s (ns ++ n ∷ [])))

abbrev pub add_valid :
    Yaml
    → (WriteCall → Bool)
    → NodeStore
    → NodeInfo
    → Option NodeFault
    → Option (NodeStore × AddResult)
add_valid yaml fails s n (some fault) = some (s, AddResult.invalid fault)
add_valid yaml fails s n none = add_read yaml fails s n (read_nodes yaml s.file)

-- `AddNode`
unfoldable pub add_node :
    Yaml → (WriteCall → Bool) → NodeStore → NodeInfo → Option (NodeStore × AddResult)
add_node yaml fails s n = add_valid yaml fails s n (validate n)
