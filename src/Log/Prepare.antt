-- ===== src/Log/Prepare.antt =====
-- pkg/log/config.go: how the options make the sinks and the cores (`prepZap`).
use polaris_sidecar.Log.{LogError, Options, cannot_create, cannot_open, cannot_parse}
use polaris_sidecar.Log.Output.{
  Core, Rotation, Sink, multi, opened_paths, rotated, std_out, zap_debug, zap_error,
}
use polaris_sidecar.Prelude.{
  Bool, List, Option, [], if◌then◌else◌, inl, inr, is_empty, none, not, some, ◌&&◌, ◌++◌, ◌||◌, ◌∷◌,
  ◌⊎◌,
}
use polaris_sidecar.Prelude.Text.{Str, codes, str_eq}

pub record Url : Type 0 where
  pub scheme : Str
  pub path : Str

-- `url.Parse`, `filepath.Dir`, and whether `os.MkdirAll` and `zap.Open` succeed.
pub record Host : Type 0 where
  pub parse_url : Str → Option Url
  pub dir : Str → Str
  pub mkdir_all : Str → Bool
  pub open_all : List Str → Bool

pub data FileEvent : Type 0 where
  made_dir : Str → FileEvent
  opened closed : List Str → FileEvent

pub record Prepared : Type 0 where
  pub cores : List Core
  pub sink : Sink
  pub json : Bool
  pub error_sink : Sink

abbrev pub is_local : Url → Bool
is_local u =
    (is_empty u.scheme || str_eq u.scheme (codes "file"))
    && not (str_eq u.path (codes "stdout"))
    && not (str_eq u.path (codes "stderr"))

abbrev rotation_of : Options → Str → Rotation
rotation_of o filename = record {
  filename = filename;
  max_size = o.rotation_max_size;
  max_backups = o.rotation_max_backups;
  max_age = o.rotation_max_age;
}

abbrev pub rotate_sink : Options → Str → Option Sink
rotate_sink o filename = if is_empty filename then none else some (rotated (rotation_of o filename))

unfoldable pub choose_sink : Option Sink → Option Sink → Sink
choose_sink (some rotate_sink) (some output_sink) = multi output_sink rotate_sink
choose_sink (some rotate_sink) none = rotate_sink
choose_sink none (some output_sink) = output_sink
choose_sink none none = std_out

abbrev pub main_core : Bool → Sink → Core
main_core json sink = record { sink = sink; json = json; min_level = zap_debug }

-- `errCore`, if there is an error file.
abbrev pub error_core : Bool → Option Sink → List Core
error_core json none = []
error_core json (some s) = record { sink = s; json = json; min_level = zap_error } ∷ []

unfoldable pub prepared : Options → Option Sink → Sink → Prepared
unfolding choose_sink
prepared o output_sink error_sink =
    let sink = choose_sink (rotate_sink o o.rotate_output_path) output_sink in
    record {
      cores =
          main_core o.json_encoding sink
          ∷ error_core o.json_encoding (rotate_sink o o.error_rotate_output_path);
      sink = sink;
      json = o.json_encoding;
      error_sink = error_sink;
    }

module _ (host : Host) where
  -- `createPathIfNotExist`
  unfoldable pub create_path_if_not_exist : List Str → List FileEvent × Option LogError
  create_path_if_not_exist [] = ([], none)
  create_path_if_not_exist (p ∷ paths) =
      let (events, failure) = create_path_if_not_exist paths in
      elim (host.parse_url p) [
        | none ↦ ([], some (cannot_parse p))
        | some u ↦
            if not (is_local u)
            then (events, failure)
            else if host.mkdir_all (host.dir u.path)
            then (made_dir (host.dir u.path) ∷ events, failure)
            else ([], some (cannot_create (host.dir u.path)))
      ]

  -- The output paths, and the end of `prepZap`; the error sink is open.
  unfoldable pub prep_output : Options → List FileEvent × (Prepared ⊎ LogError)
  unfolding create_path_if_not_exist prepared
  prep_output o =
      let (made, failure) = create_path_if_not_exist o.output_paths in
      if is_empty o.output_paths
      then ([], inl (prepared o none (opened_paths o.error_output_paths)))
      else elim failure [
        | some e ↦ (made, inr e)
        | none ↦
            if host.open_all o.output_paths
            then (
              made ++ opened o.output_paths ∷ [],
              inl (
                  prepared o (some (opened_paths o.output_paths))
                    (opened_paths o.error_output_paths)),
            )
            else (made ++ closed o.error_output_paths ∷ [], inr (cannot_open o.output_paths))
      ]

  unfoldable pub prep_zap : Options → List FileEvent × (Prepared ⊎ LogError)
  unfolding create_path_if_not_exist prep_output
  prep_zap o =
      let (made, failure) = create_path_if_not_exist o.error_output_paths in
      let (events, r) = prep_output o in
      elim failure [
        | some e ↦ (made, inr e)
        | none ↦
            if host.open_all o.error_output_paths
            then (made ++ opened o.error_output_paths ∷ events, r)
            else (made, inr (cannot_open o.error_output_paths))
      ]
