-- ===== src/Power/Opts/Modes.antt =====
-- PowerOffOpts of pypowervm/tasks/power_opts.py: the shutdown modes and soft_detect.
use pypowervm.Prelude.{
  String, Bool, true, false, not, ◌||◌, Option, none, some, text_eq, if◌then◌else◌,
}
use pypowervm.Prelude.Dict.{lookup}
use pypowervm.Exec.{Result, ok, err, hang}
use pypowervm.Exn.{Exn}
use pypowervm.Power.Opts.{
  Value, text, flag, Opts, power_off_operation, process_enum, process_bool, os, vsp,
}

-- What the functions read of an LPAR or VIOS wrapper.
pub record Part : Type 0 where
  pub name : String
  pub uuid : String
  pub schema_type : String
  pub env : String
  pub rmc_state : String

abbrev pub os400 : String
os400 = "OS400"

abbrev pub rmc_active : String
rmc_active = "active"

unfoldable pub immediate : Value → Opts → Opts
unfolding process_bool
immediate = process_bool "immediate"

unfoldable pub restart : Value → Opts → Opts
unfolding process_bool
restart = process_bool "restart"

unfoldable pub operation : Value → Opts → Result Exn Opts
unfolding process_enum
operation = process_enum power_off_operation

abbrev pub equals_text : String → Option Value → Bool
equals_text s (some (text t)) = text_eq t s
equals_text s _ = false

-- `self._parm_map.get(key) == s`
unfoldable pub is_text : String → String → Opts → Bool
unfolding lookup
is_text key s o = equals_text s (lookup key o.parm_map)

abbrev pub is_immediate : Opts → Bool
is_immediate = is_text "immediate" "true"

abbrev pub is_os : Opts → Bool
is_os = is_text "operation" os

abbrev pub is_restart : Opts → Bool
is_restart = is_text "restart" "true"

unfoldable pub can_os_shutdown : Part → Bool
can_os_shutdown part = text_eq part.env os400 || text_eq part.rmc_state rmc_active

abbrev then_immediate : Value → Result Exn Opts → Result Exn Opts
then_immediate b (ok o) = ok (immediate b o)
then_immediate b (err e) = err e
then_immediate b hang = hang

unfoldable pub os_normal : Opts → Result Exn Opts
unfolding operation immediate
os_normal o = then_immediate (flag false) (operation (text os) o)

unfoldable pub os_immediate : Opts → Result Exn Opts
unfolding operation immediate
os_immediate o = then_immediate (flag true) (operation (text os) o)

unfoldable pub vsp_normal : Opts → Result Exn Opts
unfolding operation immediate
vsp_normal o = then_immediate (flag false) (operation (text vsp) o)

unfoldable pub vsp_hard : Opts → Result Exn Opts
unfolding operation immediate
vsp_hard o = then_immediate (flag true) (operation (text vsp) o)

unfoldable pub soft_detect : Part → Option Value → Opts → Result Exn Opts
unfolding operation immediate can_os_shutdown vsp_normal
soft_detect part immed_if_os o =
    if can_os_shutdown part
    then then_immediate
        (elim immed_if_os [ some b ↦ b | none ↦ flag (not (text_eq part.env os400)) ])
        (operation (text os) o)
    else vsp_normal o
