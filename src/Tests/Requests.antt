-- ===== src/Tests/Requests.antt =====
-- helper/validate: a configuration that the helper admits, and paths of both systems.
use vair.Base.{
  ℕ, ◌≡◌, ◌↔◌, refl, true, false, ◌&&◌, List, [], ◌∷◌, Option, none, some, All, codes, pos,
}
use vair.Base.Text.{split, to_lower}
use vair.Helper.{
  Json, number, text, array, object, no_items, item, no_fields, field, Options, outside,
  trailing_dot, port_too_low,
}
use vair.Helper.Paths.{is_rooted, names_of, clean, check_linux_path}
use vair.Helper.Paths.Within.{below_any, check_linux_path-exact}
use vair.Helper.Windows.{backslash, normal, check_windows_path}
use vair.Helper.Windows.Plain.{is_plain_path, below_some, check_windows_path-exact}
use vair.Helper.Config.{config, with_default}
use vair.Helper.Config.Files.{files}
use vair.Helper.Config.Safe.{is_safe, config-exact}
use vair.Helper.Config.Directories.{config-files}

abbrev linux : Options
linux = record {
  allowed_path_prefixes = codes "/usr/lib/vair" ∷ codes "/run/vair/" ∷ [];
  min_listen_port = pos 0;
  windows = false;
}

abbrev on_windows : Options
on_windows = record {
  allowed_path_prefixes = codes "C:\\ProgramData\\Vair\\" ∷ [];
  min_listen_port = pos 0;
  windows = true;
}

abbrev tunnel : Json
tunnel = object (
    field (codes "type") (text (codes "tun"))
      (field (codes "interface_name") (text (codes "vair0")) no_fields))

abbrev listener : ℕ → Json
listener port = object (
    field (codes "type") (text (codes "mixed"))
      (field (codes "listen_port") (number (pos port)) no_fields))

abbrev document : ℕ → Json
document port = object (
    field (codes "inbounds") (array (item tunnel (item (listener port) no_items))) (
      field (codes "route")
        (object (
          field (codes "rule_set")
            (array (
              item
                (object (field (codes "path") (text (codes "/run/vair/./a/../geo.srs")) no_fields))
                no_items))
            no_fields))
        no_fields))

abbrev decode : List ℕ → Option Json
decode raw = some (document 2080)

abbrev no_table : ℕ → ℕ
no_table c = c

cleaned : clean (codes "/run/vair/./a/../geo.srs") ≡ codes "/run/vair/geo.srs"
unfolding clean
cleaned = refl

admitted : config decode no_table [] linux ≡ none
unfolding config
admitted = refl

port_refused : config (λ raw. some (document 443)) no_table [] linux ≡ some port_too_low
unfolding config
port_refused = refl

escape_refused : check_linux_path (codes "/run/vair/../../etc/shadow") linux ≡ some outside
unfolding check_linux_path
escape_refused = refl

check_linux_path-exact_example :
    (check_linux_path (codes "/run/vair/../vair-evil/x") linux ≡ none) ↔ (
      is_rooted (codes "/run/vair/../vair-evil/x")
        && below_any (names_of (codes "/run/vair/../vair-evil/x")) linux.allowed_path_prefixes
      ≡ true)
unfolding names_of
check_linux_path-exact_example =
    check_linux_path-exact (codes "/run/vair/../vair-evil/x") linux
      ((refl, refl), ((refl, refl), tt))

dot_refused :
    check_windows_path no_table (codes "C:/ProgramData/Vair/a.srs.") on_windows ≡ some trailing_dot
unfolding check_windows_path
dot_refused = refl

check_windows_path-exact_example :
    (check_windows_path no_table (codes "c:/programdata/VAIR/a.srs") on_windows ≡ none) ↔ (
      is_plain_path no_table (normal (codes "c:/programdata/VAIR/a.srs"))
        && below_some no_table
            (split backslash (to_lower no_table (normal (codes "c:/programdata/VAIR/a.srs"))))
            on_windows.allowed_path_prefixes
      ≡ true)
check_windows_path-exact_example =
    check_windows_path-exact no_table (codes "c:/programdata/VAIR/a.srs") on_windows

config-exact_example :
    (config decode no_table [] linux ≡ none)
    ↔ (is_safe no_table (with_default linux) (decode []) ≡ true)
config-exact_example = config-exact decode no_table [] linux

config-files_example :
    All
      (λ p. is_rooted p && below_any (names_of p) linux.allowed_path_prefixes ≡ true)
      (files (document 2080) [] false)
unfolding config names_of
config-files_example =
    config-files decode no_table [] linux (document 2080) refl ((refl, refl), ((refl, refl), tt))
      refl refl
