-- ===== src/NpivMap/Examples.antt =====
-- Two VIOSes with three ports, and runs of the derivation (pypowervm/tasks/vfc_mapper.py).
use pypowervm.NpivMap.{Port}
use pypowervm.Prelude.{◌≡◌, refl, String, List, [], ◌∷◌}
use pypowervm.Prelude.{is_in}
use pypowervm.Prelude.Keyed.{get, put}
use pypowervm.Exec.{ok}
use pypowervm.Sanitize.{sanitize_wwpn_for_api, upper_char}
use pypowervm.NpivMap.{
  Vios, Mapping, fuse_vfc_ports, derive_npiv_map, derive_loop, find_ports_on_vio, ports_in,
  find_map_port, port_dict, count_uses, used, least_used, most_available,
}

abbrev vioses : List Vios
vioses =
    record {
      object = 1;
      vios_name = "vios1";
      vios_id = 1;
      vios_href = "";
      vfc_mappings = [];
      pfc_ports =
          record { wwpn = "AA01"; name = "fcs0"; npiv_available_ports = 3 }
          ∷ record { wwpn = "AA02"; name = "fcs0"; npiv_available_ports = 9 }
          ∷ [];
    }
    ∷ record {
      object = 2;
      vios_name = "vios2";
      vios_id = 2;
      vios_href = "";
      vfc_mappings = [];
      pfc_ports = record { wwpn = "BB01"; name = "fcs0"; npiv_available_ports = 5 } ∷ [];
    }
    ∷ []

abbrev wwpns : List String
wwpns = "AA01" ∷ "AA02" ∷ "BB01" ∷ []

fuse_run : fuse_vfc_ports ("c0:01" ∷ "C002" ∷ "c003" ∷ []) ≡ "C001 C002" ∷ []
unfolding fuse_vfc_ports sanitize_wwpn_for_api upper_char
fuse_run = refl

derive_run :
    derive_npiv_map vioses wwpns [] 12 ("v1" ∷ "v2" ∷ "v3" ∷ [])
    ≡ ok (("AA02", "v1") ∷ ("BB01", "v2") ∷ ("AA01", "v3") ∷ [])
unfolding derive_npiv_map derive_loop find_ports_on_vio ports_in find_map_port port_dict count_uses
    used least_used most_available get put is_in sanitize_wwpn_for_api upper_char
derive_run = refl

abbrev ports : List Port
ports =
    record { wwpn = "AA01"; name = "fcs0"; npiv_available_ports = 3 }
    ∷ record { wwpn = "AA02"; name = "fcs0"; npiv_available_ports = 9 }
    ∷ record { wwpn = "AA03"; name = "fcs0"; npiv_available_ports = 5 }
    ∷ []

abbrev mappings : List Mapping
mappings = ("AA02", "v1") ∷ ("CC01", "v2") ∷ []

abbrev chosen : Port
chosen = record { wwpn = "AA03"; name = "fcs0"; npiv_available_ports = 5 }
