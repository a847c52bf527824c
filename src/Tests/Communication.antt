-- ===== src/Tests/Communication.antt =====
-- core/comm.c, core/advertise.c, core/options.c: the theorems at concrete inputs.
use hakit.Base.{ℕ, ◌≡◌, refl, true, false, none, some, List, [], ◌∷◌, ◌++◌, arith, eq_bytes}
use hakit.Core.Advertise.{Advertise, advertise_event, send_request, send_reply}
use hakit.Core.Advertise.Discovery.{called, advertise_event-found}
use hakit.Core.Comm.{Comm, no_comm, source_update_str}
use hakit.Core.Comm.Updates.{Sent, source_update_str-Sent}
use hakit.Core.Endpoint.{Owner, Source, ep_source, no_ep, Endpoints}
use hakit.Core.Endpoint.Update.{source_update, source_set, source_unlock, update_sinks}
use hakit.Core.Tile.{modify}
use hakit.Core.Options.{
  Entry, Setting, help, type_int, type_none, unset, parse_args, then_parse, find_long, config_long,
  strip_slashes,
}
use hakit.Core.Options.Config.{conf_line, find_keyword, options_parse}
use hakit.Core.Options.Directory.{options_parse-config}
use hakit.Core.Options.OptionLine.{conf_line-parse_args}
use hakit.Core.Options.Written.{
  Given, write_all, finished, set_all, long_option, assignment, parse_args-write_all,
}

abbrev here : Advertise
here = record {
  up = true;
  tag = 0;
  handlers = record { proto = 1; func = 7 } ∷ [];
  proto = 3;
  mqtt_broker = some (b'h' ∷ []);
  timers = [];
}

abbrev there : Advertise
there = record here { proto = 1; mqtt_broker = none }

advertise_event-found_example :
    (advertise_event there (send_request here)
      ≡ (send_reply there ∷ [], called 3 (some (b'h' ∷ [])) there.handlers))
    × (advertise_event here (send_reply there) ≡ ([], called 1 none here.handlers))
advertise_event-found_example =
    advertise_event-found here there (omega arith) (omega arith)
      ((λ e. ground (arith, e)), (omega arith, tt)) tt

abbrev owner : Owner
owner = record { name = b'a' ∷ []; tile = b't' ∷ [] }

abbrev lamp : Source
lamp = record { ep = record (no_ep ep_source) { obj = some owner }; local_sinks = [] }

abbrev eps : Endpoints
eps = record { sinks = []; sources = lamp ∷ []; trace_depth = 0; full_name = false; tiles = 2 }

abbrev no_handler : ℕ → ℕ → Endpoints × Comm → Endpoints × Comm
no_handler func i w = w

abbrev lit : Source
lit = record lamp { ep = record lamp.ep { value = b'1' ∷ [] } }

source_update_str-Sent_example :
    Sent
      (record eps { sources = lit ∷ [] })
      9
      0
      lit.ep
      owner
      (no_comm true)
      (source_update_str no_handler 9 0 (b'1' ∷ []) (eps, no_comm true)).1
unfolding source_update source_set source_unlock update_sinks modify
source_update_str-Sent_example =
    source_update_str-Sent no_handler 9 0 (b'1' ∷ []) eps (record eps { sources = lit ∷ [] })
      (no_comm true) (no_comm true) lit owner refl refl refl

-- "--debug=N", "-d N", and a flag.
abbrev debug : Entry
debug = record {
  long_opt = b'd' ∷ b'e' ∷ [];
  short_opt = b'd';
  list = false;
  kind = type_int;
  value_ptr = 0;
  has_symbol = true;
}

abbrev daemon : Entry
daemon = record {
  long_opt = b'd' ∷ b'a' ∷ [];
  short_opt = b'D';
  list = false;
  kind = type_none;
  value_ptr = 1;
  has_symbol = false;
}

abbrev entries : List Entry
entries = debug ∷ daemon ∷ []

abbrev settings : List Setting
settings = unset ∷ unset ∷ []

abbrev given : List Given
given =
    record { entry = debug; value = b'3' ∷ [] } ∷ record { entry = daemon; value = b'1' ∷ [] } ∷ []

parse_args-write_all_example :
    parse_args 3 entries settings (write_all given ++ ((b't' ∷ []) ∷ []))
    ≡ finished ((b't' ∷ []) ∷ []) (set_all given settings)
unfolding find_long eq_bytes
parse_args-write_all_example =
    parse_args-write_all 3 entries given settings ((b't' ∷ []) ∷ []) (omega arith)
      ((omega arith, (omega arith, tt)), refl, ((omega arith, (omega arith, tt)), refl, tt)) refl

conf_line-parse_args_example :
    parse_args 1 entries settings (long_option (b'd' ∷ b'e' ∷ []) (b'3' ∷ []) ∷ [])
    ≡ then_parse
        (parse_args 0 entries)
        (conf_line true entries (assignment (b'd' ∷ b'e' ∷ []) (b'3' ∷ []) ++ (10 ∷ [])) settings)
        []
unfolding find_long find_keyword eq_bytes
conf_line-parse_args_example =
    conf_line-parse_args true 0 entries settings [] debug (b'd' ∷ b'e' ∷ []) (b'3' ∷ [])
      (refl, omega arith, (refl, omega arith, tt)) (refl, omega arith, tt)
      (omega arith, (omega arith, tt)) refl refl

options_parse-config_example :
    options_parse true
      (λ path. none)
      (λ path. none)
      entries
      none
      none
      settings
      ((config_long ++ (b'=' ∷ b'd' ∷ b'/' ∷ [])) ∷ [])
    ≡ (some (strip_slashes (b'd' ∷ b'/' ∷ [])), help)
unfolding find_long eq_bytes
options_parse-config_example =
    options_parse-config true (λ path. none) (λ path. none) entries none none settings
      (b'd' ∷ b'/' ∷ []) [] refl
