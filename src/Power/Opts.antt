-- ===== src/Power/Opts.antt =====
-- pypowervm/tasks/power_opts.py: the options of a PowerOn or PowerOff Job. A setter of the source
-- changes its object and returns it; here it returns the changed options. Log lines are left out.
pub mod Modes
pub mod Contents
use Prim.Native.Char.{code}
use pypowervm.Prelude.{
  ℕ, String, Bool, true, false, not, ◌&&◌, ◌||◌, Option, none, some, List, [], ◌∷◌, ◌<>◌, ◌==◌,
  text_eq, is_in, if◌then◌else◌,
}
use pypowervm.Prelude.Dict.{Dict, lookup, has, insert, erase}
use pypowervm.Exec.{Result, ok, err, hang}
use pypowervm.Exn.{Exn, invalid_enum_value, decimal}

-- A parameter's value, as the caller gives it.
pub data Value : Type 0 where
  text : String → Value
  number : ℕ → Value
  flag : Bool → Value

-- `str(value)`
unfoldable pub str : Value → String
unfolding decimal
str (text s) = s
str (number n) = decimal n
str (flag true) = "True"
str (flag false) = "False"

-- The code points of a text.
abbrev codes : String → List ℕ
codes String.[] = []
codes (String.◌∷◌ c s) = code c ∷ codes s

-- Whether the code points are those of the letters, given in both cases.
same_letters : List (ℕ × ℕ) → List ℕ → Bool
same_letters [] [] = true
same_letters [] (c ∷ cs) = false
same_letters (l ∷ ls) [] = false
same_letters ((lower, upper) ∷ ls) (c ∷ cs) = (c == lower || c == upper) && same_letters ls cs

-- `str(value).lower() == 'true'`: only t, r, u, e and their capitals are lowered to those letters.
unfoldable pub is_true : Value → Bool
unfolding str same_letters
is_true v =
    same_letters ((b't', b'T') ∷ (b'r', b'R') ∷ (b'u', b'U') ∷ (b'e', b'E') ∷ []) (codes (str v))

-- PowerOnOpts or PowerOffOpts
pub data Kind : Type 0 where
  power_on power_off : Kind

pub record Opts : Type 0 where
  pub kind : Kind
  pub parm_map : Dict Value

abbrev pub job_suffix : Kind → String
job_suffix power_on = "PowerOn"
job_suffix power_off = "PowerOff"

-- None accepts every key.
abbrev pub valid_param_keys : Kind → Option (List String)
valid_param_keys power_on = none
valid_param_keys power_off = some ("operation" ∷ "immediate" ∷ "restart" ∷ [])

unfoldable pub update : Dict Value → Dict Value → Dict Value
unfolding insert
update d [] = d
update d ((k, v) ∷ more) = update (insert k v d) more

unfoldable pub add_valid : List String → Dict Value → Dict Value → Dict Value
unfolding insert is_in
add_valid keys d [] = d
add_valid keys d ((k, v) ∷ more) = add_valid keys (if is_in k keys then insert k v d else d) more

abbrev pub or_empty : Option (Dict Value) → Dict Value
or_empty none = []
or_empty (some d) = d

-- __init__
unfoldable pub new : Kind → Option (Dict Value) → Opts
unfolding update add_valid
new kind legacy = record {
  kind = kind;
  parm_map = elim (valid_param_keys kind) [
    | none ↦ update [] (or_empty legacy)
    | some keys ↦ add_valid keys [] (or_empty legacy)
  ];
}

-- An enumeration class: its name, its KEY and its ALL_VALUES.
pub record Enum : Type 0 where
  pub enum_name : String
  pub key : String
  pub all_values : List String

abbrev pub boot_mode : Enum
boot_mode = record {
  enum_name = "BootMode";
  key = "bootmode";
  all_values = "norm" ∷ "sms" ∷ "dd" ∷ "ds" ∷ "of" ∷ "pbl" ∷ [];
}

abbrev pub keylock_pos_enum : Enum
keylock_pos_enum = record {
  enum_name = "KeylockPos";
  key = "keylock";
  all_values = "manual" ∷ "norm" ∷ "unknown" ∷ [];
}

abbrev pub ipl_src : Enum
ipl_src = record {
  enum_name = "IPLSrc";
  key = "iIPLsource";
  all_values = "a" ∷ "b" ∷ "c" ∷ "d" ∷ "Unknown" ∷ [];
}

abbrev pub ibmi_operation_type : Enum
ibmi_operation_type = record {
  enum_name = "IBMiOperationType";
  key = "OperationType";
  all_values = "activate" ∷ "netboot" ∷ "changeKeylock" ∷ [];
}

-- PowerOffOperation's VSP, OS and DUMPRESTART
abbrev pub vsp : String
vsp = "shutdown"

abbrev pub os : String
os = "osshutdown"

abbrev pub dumprestart : String
dumprestart = "dumprestart"

abbrev pub power_off_operation : Enum
power_off_operation = record {
  enum_name = "PowerOffOperation";
  key = "operation";
  all_values = vsp ∷ os ∷ dumprestart ∷ [];
}

-- `str` of a tuple of texts (of two at least, free of quotes)
joined : List String → String
joined [] = ""
joined (v ∷ []) = "'" <> v <> "'"
joined (v ∷ w ∷ vs) = "'" <> v <> "', " <> joined (w ∷ vs)

unfoldable pub tuple_text : List String → String
unfolding joined
tuple_text vs = "(" <> joined vs <> ")"

-- `value in enum.ALL_VALUES`: a value that is no text equals none of them.
unfoldable pub is_member : Value → List String → Bool
unfolding is_in
is_member (text s) vs = is_in s vs
is_member (number n) vs = false
is_member (flag b) vs = false

abbrev pub set_parm : String → Value → Opts → Opts
set_parm k v o = record o { parm_map = insert k v o.parm_map }

unfoldable pub process_enum : Enum → Value → Opts → Result Exn Opts
unfolding is_member insert tuple_text str
process_enum e v o =
    if is_member v e.all_values
    then ok (set_parm e.key v o)
    else err (invalid_enum_value (str v) e.enum_name (tuple_text e.all_values))

unfoldable pub process_bool : String → Value → Opts → Opts
unfolding insert erase is_true
process_bool key v o =
    let gone = record o { parm_map = erase key o.parm_map } in
    if is_true v then set_parm key (text "true") gone else gone

unfoldable pub is_param_set : String → Opts → Bool
unfolding has
is_param_set key o = has key o.parm_map

-- bld_jparms, with each JobParameter element as its name and value
unfoldable pub bld_jparms : Dict Value → List (String × String)
unfolding str
bld_jparms [] = []
bld_jparms ((k, v) ∷ d) = (k, str v) ∷ bld_jparms d

-- PowerOnOpts
unfoldable pub bootmode : Value → Opts → Result Exn Opts
unfolding process_enum
bootmode = process_enum boot_mode

unfoldable pub keylock_pos : Value → Opts → Result Exn Opts
unfolding process_enum
keylock_pos = process_enum keylock_pos_enum

unfoldable pub bootstring : Value → Opts → Opts
unfolding insert
bootstring v = set_parm "bootstring" v

unfoldable pub force : Value → Opts → Opts
unfolding process_bool
force = process_bool "force"

unfoldable pub remove_optical : Value → Value → Opts → Opts
unfolding insert
remove_optical name time o =
    set_parm "remove_optical_time" time (set_parm "remove_optical_name" name o)

unfoldable pub ibmi_ipl_source : Value → Opts → Result Exn Opts
unfolding process_enum
ibmi_ipl_source = process_enum ipl_src

unfoldable pub ibmi_op_type : Value → Opts → Result Exn Opts
unfolding process_enum
ibmi_op_type = process_enum ibmi_operation_type

-- the optional arguments of ibmi_netboot_params, as (key, argument or None)
unfoldable pub add_optional : List (String × Option Value) → Opts → Opts
unfolding insert str
add_optional [] o = o
add_optional ((k, none) ∷ more) o = add_optional more o
add_optional ((k, some v) ∷ more) o = add_optional more (set_parm k (text (str v)) o)

pub record Netboot : Type 0 where
  pub ipaddr : Value
  pub serverip : Value
  pub gateway : Value
  pub serverdir : Value
  pub subnet : Option Value
  pub connspeed : Option Value
  pub duplex : Option Value
  pub mtu : Option Value
  pub vlanid : Option Value

unfoldable pub ibmi_netboot_params : Netboot → Opts → Opts
unfolding add_optional
ibmi_netboot_params n o =
    add_optional
      (("SubnetMask", n.subnet)
        ∷ ("ConnectionSpeed", n.connspeed)
        ∷ ("DuplexMode", n.duplex)
        ∷ ("VLANID", n.vlanid)
        ∷ ("MaximumTransmissionUnit", n.mtu)
        ∷ [])
      (set_parm "IBMiImageServerDirectory" n.serverdir (
        set_parm "Gateway" n.gateway
          (set_parm "ServerIPAddress" n.serverip (set_parm "IPAddress" n.ipaddr o))))
