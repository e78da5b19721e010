-- ===== src/Tests/Collector.antt =====
-- The theorems about collected calls and the central's data cache at concrete values.
use hahomematic.Base.{
  ℕ, ◌*◌, ◌≡◌, refl, arith, false, none, some, List, [], ◌∷◌, ◌++◌, list_eq, nat_eq,
}
use hahomematic.Base.Text.{Text, codes}
use hahomematic.Base.Dict.{Dict, lookup, insert}
use hahomematic.Base.Double.{pos}
use hahomematic.Base.Value.{int}
use hahomematic.Clock.{second, delta_seconds, changed_within_seconds}
use hahomematic.Const.{values, paramset_key_eq, Interface, hmip_rf, cuxd, bidcos_rf, interface_eq}
use hahomematic.Collector.{Channels, Paramsets, Call, channel_calls, calls}
use hahomematic.Collector.Order.{calls-ordered}
use hahomematic.CentralData.{CentralDataCache, Source, add_data, load, get_refreshed_at}
use hahomematic.CentralData.Loads.{load-recent}

abbrev start : ℕ
start = 63000000000 * second

abbrev channel : Text
channel = codes "VCU1:3"

abbrev first : Channels
first = (channel, (codes "EFFECT", int (pos 0)) ∷ []) ∷ []

abbrev last : Channels
last = (channel, (codes "LEVEL", int (pos 1)) ∷ []) ∷ []

-- the later order was added first
abbrev orders : Dict ℕ Channels
orders = (50, last) ∷ (5, first) ∷ []

abbrev paramsets : Paramsets
paramsets = (values, orders) ∷ []

calls-ordered_example :
    (before middle after : List Call) × (calls paramsets
      ≡ before ++ (channel_calls values first ++ (middle ++ (channel_calls values last ++ after))))
unfolding lookup
calls-ordered_example =
    calls-ordered values 5 50 first last orders paramsets (omega arith) refl refl refl

abbrev cache : CentralDataCache
cache = record { value_cache = []; refreshed_at = (hmip_rf, start) ∷ [] }

abbrev source : Interface → Source
source i = record {
  interface = i;
  data' = some ((codes "LEVEL", int (pos 7)) ∷ []);
  now = start;
  later = start;
}

load-recent_example :
    load false none (source cuxd ∷ source hmip_rf ∷ source bidcos_rf ∷ []) cache
    ≡ load false none (source cuxd ∷ []) cache
unfolding load add_data insert get_refreshed_at changed_within_seconds delta_seconds lookup
load-recent_example =
    load-recent none (source cuxd ∷ []) (source bidcos_rf ∷ []) (source hmip_rf) cache refl refl
