-- ===== src/Types/Container.antt =====
-- common/src/apptainer.rs: the manifest of a container image.
use veloce_ce.Base.{String, Bool, Option, List, Map}

pub record SolverIdentity : Type 0 where
  pub vendor : String
  pub product : String
  pub version : String
  pub capabilities : List String

pub record Execution : Type 0 where
  pub entrypoint : String
  pub launch_wrapper : Option String
  pub command_template : String
  pub environment_vars : Map String String

pub record InputMapping : Type 0 where
  pub role : String
  pub match_pattern : String
  pub required : Bool

pub record OutputCollection : Type 0 where
  pub path : String
  pub output_type : String

pub record FileHandling : Type 0 where
  pub working_dir : String
  pub input_mapping : List InputMapping
  pub output_collection : List OutputCollection

pub record ParameterMapping : Type 0 where
  pub options : Option (List String)
  pub default : Option String
  pub flag : Option String
  pub param_type : Option String

pub record SolverManifest : Type 0 where
  pub manifest_version : String
  pub solver_identity : SolverIdentity
  pub execution : Execution
  pub file_handling : FileHandling
  pub parameter_mapping : Map String ParameterMapping
  pub vnc_enabled : Bool

pub record ContainerAsset : Type 0 where
  pub id : String
  pub name : String
  pub image_uri : String
  pub manifest : SolverManifest
