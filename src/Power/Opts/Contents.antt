-- ===== src/Power/Opts/Contents.antt =====
-- What the setters of pypowervm/tasks/power_opts.py leave in the parameter map.
use pypowervm.Prelude.{
  String, Bool, true, false, not, ◌≡◌, refl, Option, none, some, List, [], ◌∷◌, arith, text_eq,
  text_eq_iff, is_in, if◌then◌else◌,
}
use pypowervm.Prelude.Dict.{Dict, lookup, insert, erase, has, lookup-insert, lookup-erase}
use pypowervm.Exec.{Result, ok}
use pypowervm.Exn.{Exn}
use pypowervm.Power.Opts.{
  Value, text, flag, Opts, Kind, power_on, power_off, new, update, add_valid, process_bool, is_true,
  set_parm, os, vsp,
}
use pypowervm.Power.Opts.Modes.{
  Part, os400, immediate, os_normal, os_immediate, vsp_normal, vsp_hard, can_os_shutdown,
  soft_detect,
}

-- The four ways to shut down, as the documentation of PowerOffOpts names them.
pub data Mode : Type 0 where
  by_os_normal by_os_immediate by_vsp_normal by_vsp_hard : Mode

abbrev pub set_mode : Mode → Opts → Result Exn Opts
set_mode by_os_normal = os_normal
set_mode by_os_immediate = os_immediate
set_mode by_vsp_normal = vsp_normal
set_mode by_vsp_hard = vsp_hard

abbrev pub mode_operation : Mode → String
mode_operation by_os_normal = os
mode_operation by_os_immediate = os
mode_operation by_vsp_normal = vsp
mode_operation by_vsp_hard = vsp

abbrev pub is_hard : Mode → Bool
is_hard by_os_normal = false
is_hard by_os_immediate = true
is_hard by_vsp_normal = false
is_hard by_vsp_hard = true

-- The parameters that `m` leaves: its operation, `immediate` only where it is hard, and every other
-- parameter as it was.
abbrev pub mode_parm : Mode → Dict Value → String → Option Value
mode_parm m d k =
    if text_eq "operation" k
    then some (text (mode_operation m))
    else if text_eq "immediate" k
    then (if is_hard m then some (text "true") else none)
    else lookup k d

pub process_bool_lem :
    (key : String) (v : Value) (o : Opts) (k : String)
    → lookup k (process_bool key v o).parm_map ≡ (
        if text_eq key k
        then (if is_true v then some (text "true") else none)
        else lookup k o.parm_map)
unfolding process_bool
process_bool_lem key v o k =
    ground (
      arith,
      lookup-insert key k (text "true") (erase key o.parm_map),
      lookup-erase key k o.parm_map,
    )

immediate_operation :
    (s : String) (v : Value) (o : Opts) (k : String)
    → lookup k (immediate v (set_parm "operation" (text s) o)).parm_map ≡ (
        if text_eq "operation" k
        then some (text s)
        else if text_eq "immediate" k
        then (if is_true v then some (text "true") else none)
        else lookup k o.parm_map)
unfolding immediate
immediate_operation s v o k = ground (
  arith,
  process_bool_lem "immediate" v (set_parm "operation" (text s) o) k,
  lookup-insert "operation" k (text s) o.parm_map,
  text_eq_iff "operation" k,
  text_eq_iff "immediate" k,
  text_eq_iff "immediate" "operation",
)

-- Each of the four setters succeeds on any options and leaves the operation and the `immediate` of
-- its mode, whatever these were before, with every other parameter unchanged.
set_mode_lem :
    (m : Mode) (o : Opts)
    → (o' : Opts) × (set_mode m o ≡ ok o')
      × (o'.kind ≡ o.kind)
      × ((k : String) → lookup k o'.parm_map ≡ mode_parm m o.parm_map k)
unfolding os_normal os_immediate vsp_normal vsp_hard
set_mode_lem by_os_normal o = (
  immediate (flag false) (set_parm "operation" (text os) o),
  refl,
  unfold immediate process_bool is_true in refl,
  immediate_operation os (flag false) o,
)
set_mode_lem by_os_immediate o = (
  immediate (flag true) (set_parm "operation" (text os) o),
  refl,
  unfold immediate process_bool is_true in refl,
  immediate_operation os (flag true) o,
)
set_mode_lem by_vsp_normal o = (
  immediate (flag false) (set_parm "operation" (text vsp) o),
  refl,
  unfold immediate process_bool is_true in refl,
  immediate_operation vsp (flag false) o,
)
set_mode_lem by_vsp_hard o = (
  immediate (flag true) (set_parm "operation" (text vsp) o),
  refl,
  unfold immediate process_bool is_true in refl,
  immediate_operation vsp (flag true) o,
)

-- Whether an immediate shutdown is requested, given what is done by default.
abbrev pub wanted : Option Value → Bool → Bool
wanted none default = default
wanted (some v) default = is_true v

-- The mode that soft_detect's documentation gives: an OS shutdown on IBMi or with active RMC, else
-- a normal VSP shutdown. An OS shutdown is immediate as requested, or by default off IBMi.
abbrev pub detected : Part → Option Value → Mode
detected part request =
    if text_eq part.env os400
    then (if wanted request false then by_os_immediate else by_os_normal)
    else if text_eq part.rmc_state "active"
    then (if wanted request true then by_os_immediate else by_os_normal)
    else by_vsp_normal

-- A dictionary's keys are distinct.
abbrev pub IsDict : Dict Value → Type 0
IsDict [] = Unit
IsDict ((k, v) ∷ d) = (has k d ≡ false) × IsDict d

abbrev pub is_valid : Kind → String → Bool
is_valid power_on k = true
is_valid power_off k = is_in k ("operation" ∷ "immediate" ∷ "restart" ∷ [])

detected-lookup :
    (v : Value) (o : Opts) (k : String)
    → lookup k (immediate v (set_parm "operation" (text os) o)).parm_map
      ≡ mode_parm (if is_true v then by_os_immediate else by_os_normal) o.parm_map k
detected-lookup v o k = ground (arith, immediate_operation os v o k)

-- The options that soft_detect leaves.
softly : Part → Option Value → Opts → Opts
softly part request o =
    if can_os_shutdown part
    then immediate (elim request [ some v ↦ v | none ↦ flag (not (text_eq part.env os400)) ])
        (set_parm "operation" (text os) o)
    else immediate (flag false) (set_parm "operation" (text vsp) o)

is_true_flag : (b : Bool) → is_true (flag b) ≡ b
unfolding is_true
is_true_flag true = refl
is_true_flag false = refl

-- soft_detect succeeds for every partition and leaves what the setter of the documented mode
-- leaves: it picks the shutdown by the partition's type and RMC state.
pub soft_detect_lem :
    (part : Part) (request : Option Value) (o : Opts)
    → (o' : Opts) × (soft_detect part request o ≡ ok o')
      × ((k : String) → lookup k o'.parm_map ≡ mode_parm (detected part request) o.parm_map k)
unfolding soft_detect softly
soft_detect_lem part none o = (
  softly part none o,
  ground arith,
  λ k. ground (
    arith,
    detected-lookup (flag (not (text_eq part.env os400))) o k,
    is_true_flag (not (text_eq part.env os400)),
    immediate_operation vsp (flag false) o k,
    is_true_flag false,
  ),
)
soft_detect_lem part (some v) o = (
  softly part (some v) o,
  ground arith,
  λ k.
      ground (
        arith,
        detected-lookup v o k,
        immediate_operation vsp (flag false) o k,
        is_true_flag false,
      ),
)

has-lookup : (k : String) (d : Dict Value) → has k d ≡ false → lookup k d ≡ none
unfolding has lookup
has-lookup k [] h = refl
has-lookup k ((j, v) ∷ d) h = ground (arith, has-lookup k d)

update_lem :
    (k : String) (acc d : Dict Value)
    → IsDict d
    → lookup k (update acc d) ≡ (elim (lookup k d) [ none ↦ lookup k acc | some v ↦ some v ])
unfolding update lookup
update_lem k acc [] h = refl
update_lem k acc ((j, v) ∷ d) h = ground (
  arith,
  update_lem k (insert j v acc) d h.1,
  lookup-insert j k v acc,
  has-lookup j d h.0,
  text_eq_iff j k,
)

add_valid_lem :
    (keys : List String) (k : String) (acc d : Dict Value)
    → IsDict d
    → lookup k (add_valid keys acc d) ≡ (
        if is_in k keys
        then (elim (lookup k d) [ none ↦ lookup k acc | some v ↦ some v ])
        else lookup k acc)
unfolding add_valid lookup
add_valid_lem keys k acc [] h = ground arith
add_valid_lem keys k acc ((j, v) ∷ d) h = ground (
  arith,
  add_valid_lem keys k (if is_in j keys then insert j v acc else acc) d h.1,
  lookup-insert j k v acc,
  has-lookup j d h.0,
  text_eq_iff j k,
)

-- Options made from a legacy dictionary hold its parameters: all of them for a PowerOn Job, and for
-- a PowerOff Job those with a legal key and no others.
new_lem :
    (kind : Kind) (d : Dict Value) (k : String)
    → IsDict d
    → lookup k (new kind (some d)).parm_map ≡ (if is_valid kind k then lookup k d else none)
unfolding new lookup
new_lem power_on d k h = ground (arith, update_lem k [] d h)
new_lem power_off d k h =
    ground (arith, add_valid_lem ("operation" ∷ "immediate" ∷ "restart" ∷ []) k [] d h)
