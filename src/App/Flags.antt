-- ===== src/App/Flags.antt =====
-- The flags of internal/app/app.go, as package flag parses them with ContinueOnError.
use dhcp_lease_observer.Prelude.{
  Bool, true, false, not, ◌||◌, Option, none, some, List, [], ◌∷◌, drop, length, ltb, nat_beq,
  Result, ok, err, ◌==◌, if◌then◌else◌,
}
use dhcp_lease_observer.Text.{Bytes, codes, has_prefix, bytes_eq}

pub record Options : Type 0 where
  pub config_path : Bytes
  pub credentials_directory : Bytes
  pub check_config : Bool
  pub show_version : Bool

abbrev pub default_options : Options
default_options = record {
  config_path = codes "/etc/dhcp-lease-observer/config.json";
  credentials_directory = [];
  check_config = false;
  show_version = false;
}

-- `flag.ErrHelp`, or another error.
pub data FlagsError : Type 0 where
  help bad_flags : FlagsError

pub data StringFlag : Type 0 where
  config_flag credentials_flag : StringFlag

pub data BoolFlag : Type 0 where
  check_flag version_flag : BoolFlag

pub data Flag : Type 0 where
  of_string : StringFlag → Flag
  of_bool : BoolFlag → Flag
  help_flag unknown_flag : Flag

abbrev pub set_string : StringFlag → Bytes → Options → Options
set_string config_flag value o = record o { config_path = value }
set_string credentials_flag value o = record o { credentials_directory = value }

abbrev pub set_bool : BoolFlag → Bool → Options → Options
set_bool check_flag value o = record o { check_config = value }
set_bool version_flag value o = record o { show_version = value }

unfoldable pub flag_named : Bytes → Flag
flag_named name =
    if name == codes "config"
    then of_string config_flag
    else if name == codes "credentials-dir"
    then of_string credentials_flag
    else if name == codes "check-config"
    then of_bool check_flag
    else if name == codes "version"
    then of_bool version_flag
    else if name == codes "help" || name == codes "h"
    then help_flag
    else unknown_flag

-- `strconv.ParseBool`
unfoldable pub parse_bool : Bytes → Option Bool
parse_bool s =
    if s == codes "1"
      || s == codes "t"
      || s == codes "T"
      || s == codes "true"
      || s == codes "TRUE"
      || s == codes "True"
    then some true
    else if s == codes "0"
        || s == codes "f"
        || s == codes "F"
        || s == codes "false"
        || s == codes "FALSE"
        || s == codes "False"
    then some false
    else none

-- The parts before and behind the first `=`.
unfoldable pub cut_equals : Bytes → Bytes × Option Bytes
cut_equals [] = ([], none)
cut_equals (c ∷ s) =
    let (name, value) = cut_equals s in if nat_beq c b'=' then ([], some s) else (c ∷ name, value)

-- What an argument is where a flag may stand.
pub data Argument : Type 0 where
  positional terminator malformed : Argument
  named : Bytes → Option Bytes → Argument

-- The argument behind its hyphens.
unfoldable pub read_name : Bytes → Argument
read_name [] = malformed
read_name (c ∷ name) =
    if nat_beq c b'-' || nat_beq c b'='
    then malformed
    else let (before, value) = cut_equals (c ∷ name) in named before value

unfoldable pub read_argument : Bytes → Argument
read_argument arg =
    if ltb (length arg) 2 || not (has_prefix arg (codes "-"))
    then positional
    else if arg == codes "--"
    then terminator
    else if has_prefix arg (codes "--")
    then read_name (drop 2 arg)
    else read_name (drop 1 arg)

-- What a flag does: a new state of the options, the wait for its value, or an error.
pub data Effect : Type 0 where
  set : Options → Effect
  waits : StringFlag → Effect
  fails : FlagsError → Effect

unfoldable pub apply_flag : Flag → Option Bytes → Options → Effect
apply_flag (of_string f) none o = waits f
apply_flag (of_string f) (some value) o = set (set_string f value o)
apply_flag (of_bool f) none o = set (set_bool f true o)
apply_flag (of_bool f) (some value) o = elim (parse_bool value) [
  | none ↦ fails bad_flags
  | some b ↦ set (set_bool f b o)
]
apply_flag help_flag value o = fails help
apply_flag unknown_flag value o = fails bad_flags

-- `flags.Parse`: the options and the arguments that are left. The first argument is the flag that
-- waits for its value.
unfoldable pub parse_flags :
    Option StringFlag → List Bytes → Options → Result FlagsError (Options × List Bytes)
parse_flags none [] o = ok (o, [])
parse_flags (some f) [] o = err bad_flags
parse_flags (some f) (value ∷ args) o = parse_flags none args (set_string f value o)
parse_flags none (arg ∷ args) o = elim (read_argument arg) [
  | positional ↦ ok (o, arg ∷ args)
  | terminator ↦ ok (o, args)
  | malformed ↦ err bad_flags
  | named name value ↦ elim (apply_flag (flag_named name) value o) [
    | set o' ↦ parse_flags none args o'
    | waits f ↦ parse_flags (some f) args o
    | fails e ↦ err e
  ]
]
