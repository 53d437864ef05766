-- ===== src/Build/Library.antt =====
-- The functions of Go's standard library and of other modules that the builders of the kernels'
-- configurations call, as one record of parameters.
use xboard_node_plus.Prelude.{ℕ, Str, Bool, Option, Map}
use xboard_node_plus.Model.Values.{Any}
use xboard_node_plus.Validation.Tags.{File}

-- What the code reads of a net.IP.
pub record Ip : Type 0 where
  pub is_loopback : Bool
  pub is_v4 : Bool
  pub name : Str

-- What mapstructure decodes from the TLS settings of a node with Reality.
pub record RealitySettings : Type 0 where
  pub private_key : Str
  pub short_id : Any
  pub dest : Str
  pub server_name : Str
  pub server_port : ℕ

pub record Library : Type 0 where
  -- fmt.Sprintf("%v", v)
  pub sprint : Any → Str
  -- int(v) for a float64
  pub truncate : ℕ → ℕ
  pub itoa : ℕ → Str
  pub equal_fold : Str → Str → Bool
  pub split_host_port : Str → Option (Str × Str)
  pub parse_ip : Str → Option Ip
  -- base64.StdEncoding.EncodeToString
  pub base64 : Str → Str
  -- filepath.Join(dir, name)
  pub join_path : Str → Str → Str
  pub decode_reality : Map Str Any → RealitySettings
  pub read_file : Str → File
  pub decode_json : Str → Option (Map Str Any)
  pub decode_yaml : Str → Option (Map Str Any)
  -- pem.Decode: the type and the bytes of a block
  pub pem_decode : Str → Option (Str × Str)
