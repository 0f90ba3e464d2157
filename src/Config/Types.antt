-- ===== src/Config/Types.antt =====
-- `Configuration` of internal/config/config.go; a nil pointer is `none` and a nil slice `[]`.
use paracetamol.Base.{Bool, Option, none, List, []}
use paracetamol.Base.Int.{ℤ}
use paracetamol.Text.{Text}

pub record Storage : Type 0 where
  pub data_dir : Option Text

pub record Client : Type 0 where
  pub url : Option Text
  pub api_key_file : Option Text

pub record LlamaCpp : Type 0 where
  pub backend : Option Text
  pub models_max : Option ℤ
  pub slots : Option ℤ

pub record Statistics : Type 0 where
  pub enabled : Option Bool
  pub retention_days : Option ℤ

pub record Gateway : Type 0 where
  pub applications : List Text
  pub profile : Option Text
  pub render_nodes : List Text
  pub listen : Option Text
  pub port : Option ℤ
  pub startup_timeout : Option Text
  pub api_key_file : Option Text
  pub client : Client
  pub llama_cpp : LlamaCpp
  pub statistics : Statistics

-- `Path` and `Loaded` are set by `Load`, which reads the file.
pub record Configuration : Type 0 where
  pub storage : Storage
  pub gateway : Gateway

abbrev pub empty_configuration : Configuration
empty_configuration = record {
  storage = record { data_dir = none };
  gateway = record {
    applications = [];
    profile = none;
    render_nodes = [];
    listen = none;
    port = none;
    startup_timeout = none;
    api_key_file = none;
    client = record { url = none; api_key_file = none };
    llama_cpp = record { backend = none; models_max = none; slots = none };
    statistics = record { enabled = none; retention_days = none };
  };
}
