-- ===== src/Main/Whole.antt =====
-- `main` from its arguments to its end.
use pcap_constrictor_afpacke.Base.{◌≡◌, Bool, true, false, none, some, List, ◌>>=◌, [], ◌∷◌, ◌⊎◌}
use pcap_constrictor_afpacke.Bytes.{Bytes}
use pcap_constrictor_afpacke.Loader.{ConfigLoadResult, codes}
use pcap_constrictor_afpacke.Loader.Bounds.{IsConfig}
use pcap_constrictor_afpacke.Loader.Result.{IsRunnable}
use pcap_constrictor_afpacke.Offline
use pcap_constrictor_afpacke.Offline.Results.{IsResult}
use pcap_constrictor_afpacke.Reader.{open_file}
use pcap_constrictor_afpacke.Main.Started.{IsLiveRun}
use pcap_constrictor_afpacke.Main.{
  System, MainRun, usage_asked, usage_error, config_error, offline_run, live_run, Mode, help_mode,
  config_only, offline_mode, no_mode,
}

-- A configuration that is loaded without an error can be run with.
record IsUsable (loaded : ConfigLoadResult) : Type 0 where
  in_range : IsConfig loaded.config
  runnable : loaded.error ≡ none → IsRunnable loaded.config.capture

-- What the arguments behind the program's name can ask for.
abbrev pub AsksHelp : List Bytes → Type 0
AsksHelp arguments = arguments ≡ codes "--help" ∷ []

abbrev pub NamesConfig : List Bytes → Type 0
NamesConfig arguments = (path : Bytes) × (arguments ≡ codes "--config" ∷ path ∷ [])

abbrev pub NamesInput : List Bytes → Type 0
NamesInput arguments =
    (path : Bytes) × (input : Bytes) × (arguments
      ≡ codes "--config" ∷ path ∷ codes "--offline-input" ∷ input ∷ [])

abbrev IsMode : List Bytes → Mode → Type 0
IsMode arguments help_mode = AsksHelp arguments
IsMode arguments config_only = NamesConfig arguments
IsMode arguments offline_mode = NamesInput arguments
IsMode arguments no_mode =
    (¬ AsksHelp arguments) × (¬ NamesConfig arguments) × (¬ NamesInput arguments)

module _ (system : System) (arguments : List Bytes) (loaded : ConfigLoadResult) where
  abbrev pub IsMainRun : MainRun → Type 0
  IsMainRun usage_asked = AsksHelp arguments
  IsMainRun usage_error =
      (¬ AsksHelp arguments) × (¬ NamesConfig arguments) × (¬ NamesInput arguments)
  IsMainRun (config_error e) =
      (NamesConfig arguments ⊎ NamesInput arguments) × (loaded.error ≡ some e)
  IsMainRun (offline_run result) =
      NamesInput arguments
      × (loaded.error ≡ none)
      × IsConfig loaded.config
      × IsRunnable loaded.config.capture
      × (let reader = (open_file system.input_file).1 in
          IsResult reader.file_size (Offline.output_snaplen reader loaded.config) result)
  IsMainRun (live_run run) =
      NamesConfig arguments
      × (loaded.error ≡ none)
      × IsConfig loaded.config
      × IsRunnable loaded.config.capture
      × IsLiveRun system loaded.config run

  abbrev Asked : Bool → Type 0
  Asked true = NamesInput arguments
  Asked false = NamesConfig arguments
